-- ===== src/Interfaces/Store.antt =====
-- The `TaskStore` protocol of engine/runtime/store.py, with the laws that the supervisor relies on.
use conductor_engine.Base.{ℕ, String, ◌≡◌, Option, some, List, str_eq, if◌then◌else◌}
use conductor_engine.Interfaces.Task.{TaskRecord}

pub record TaskStore (S : Type 0) : Type 0 where
  pub save : TaskRecord → S → S
  pub get : String → S → Option TaskRecord
  pub list_tasks : (limit : Option ℕ) (offset : ℕ) (status : Option String) → S → List TaskRecord
  -- A saved task is read back as it was, and the others are left alone.
  pub get-save :
      (k : String) (t : TaskRecord) (s : S)
      → get k (save t s) ≡ (if str_eq t.task_id k then some t else get k s)
