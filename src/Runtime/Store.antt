-- ===== src/Runtime/Store.antt =====
-- engine/runtime/store.py: `_filter_records`, and the stores that are dictionaries of records: in
-- memory, in a JSON file, and in Redis. Serialising a record and reading it back is taken to give
-- the record.
pub mod Pages
pub mod Law
use conductor_engine.Base.{
  ℕ, String, Bool, true, false, List, [], ◌∷◌, Option, none, some, Assoc, lookup, insert, values,
  keep, take, drop, str_eq, str_lt, sorted, if◌then◌else◌, fstring, any,
}
use conductor_engine.Interfaces.Task.{TaskRecord, status_value}

-- `if status_value is not None: records = [...]`
abbrev with_status : Option String → List TaskRecord → List TaskRecord
with_status none records = records
with_status (some status) records = keep (λ r. str_eq (status_value r.status) status) records

-- `if limit is not None: records = records[:limit]`
abbrev with_limit : Option ℕ → List TaskRecord → List TaskRecord
with_limit none records = records
with_limit (some n) records = take n records

-- `_filter_records`
unfoldable pub filter_records :
    (limit : Option ℕ) → (offset : ℕ) → (status : Option String) → List TaskRecord → List TaskRecord
filter_records limit offset status records =
    with_limit limit (drop offset (with_status status records))

-- The entries of a dictionary in the order of their keys.
unfoldable pub by_key : Assoc TaskRecord → Assoc TaskRecord
by_key = sorted (λ a b. str_lt a.0 b.0)

-- `MemoryTaskStore`
unfoldable pub memory_save : TaskRecord → Assoc TaskRecord → Assoc TaskRecord
memory_save task tasks = insert task.task_id task tasks

unfoldable pub memory_get : String → Assoc TaskRecord → Option TaskRecord
memory_get task_id tasks = lookup task_id tasks

unfoldable pub memory_list :
    (limit : Option ℕ)
    → (offset : ℕ) → (status : Option String) → Assoc TaskRecord
    → List TaskRecord
memory_list limit offset status tasks = filter_records limit offset status (values (by_key tasks))

-- The file of a `LocalTaskStore`: `none` if it does not exist. It is written with sorted keys.
abbrev pub TaskFile : Type 0
TaskFile = Option (Assoc TaskRecord)

abbrev read_unlocked : TaskFile → Assoc TaskRecord
read_unlocked none = []
read_unlocked (some payload) = payload

unfoldable pub local_save : TaskRecord → TaskFile → TaskFile
local_save task file = some (by_key (insert task.task_id task (read_unlocked file)))

unfoldable pub local_get : String → TaskFile → Option TaskRecord
local_get task_id file = lookup task_id (read_unlocked file)

unfoldable pub local_list :
    (limit : Option ℕ) → (offset : ℕ) → (status : Option String) → TaskFile → List TaskRecord
local_list limit offset status file =
    filter_records limit offset status (values (by_key (read_unlocked file)))

-- The keys of a `RedisTaskStore`: a record for each id, and the set of the ids.
pub record RedisKeys : Type 0 where
  pub records : Assoc TaskRecord
  pub index : List String

abbrev sadd : String → List String → List String
sadd x set = if any (λ y. str_eq y x) set then set else x ∷ set

unfoldable pub redis_save : TaskRecord → RedisKeys → RedisKeys
redis_save task keys = record {
  records = insert task.task_id task keys.records;
  index = sadd task.task_id keys.index;
}

unfoldable pub redis_get : String → RedisKeys → Option TaskRecord
redis_get task_id keys = lookup task_id keys.records

-- Ids without a record are passed over.
unfoldable pub fetch_all : RedisKeys → List String → List TaskRecord
unfolding redis_get
fetch_all keys [] = []
fetch_all keys (id ∷ rest) =
    let later = fetch_all keys rest in
    elim (redis_get id keys) [ none ↦ later | some task ↦ task ∷ later ]

unfoldable pub redis_list :
    (limit : Option ℕ) → (offset : ℕ) → (status : Option String) → RedisKeys → List TaskRecord
redis_list limit offset status keys =
    filter_records limit offset status (fetch_all keys (sorted str_lt keys.index))
