-- ===== src/Guild.antt =====
-- engine/guild: the memory store of guild records, the knowledge base that publishes the outcomes
-- of tasks to it, and the engine that makes suggestions from it.
pub mod Knowledge
pub mod Meeting
pub mod Ranking
pub mod Counts
mod Tests
use conductor_engine.Base.{
  ℕ, suc, String, List, [], ◌∷◌, Option, none, some, Bool, true, false, Assoc, lookup, insert,
  erase, values, has_key, keep, take, drop, str_eq, if◌then◌else◌,
}
use conductor_engine.Interfaces.Guild.{FailureFingerprint, to_key, GuildRecord}

-- `_filter_records` of engine/guild/store.py
abbrev with_capability : Option String → List GuildRecord → List GuildRecord
with_capability none records = records
with_capability (some c) records = keep (λ r. str_eq r.fingerprint.capability c) records

abbrev with_error_type : Option String → List GuildRecord → List GuildRecord
with_error_type none records = records
with_error_type (some e) records = keep (λ r. str_eq r.fingerprint.error_type e) records

abbrev same_role : Option String → String → Bool
same_role none role = false
same_role (some r) role = str_eq r role

abbrev with_role : Option String → List GuildRecord → List GuildRecord
with_role none records = records
with_role (some role) records = keep (λ r. same_role r.role role) records

abbrev with_limit : Option ℕ → List GuildRecord → List GuildRecord
with_limit none records = records
with_limit (some n) records = take n records

unfoldable pub filter_records :
    (capability error_type role : Option String)
    → (limit : Option ℕ) → (offset : ℕ) → List GuildRecord
    → List GuildRecord
filter_records capability error_type role limit offset records =
    with_limit limit (
      drop offset
        (with_role role (with_error_type error_type (with_capability capability records))))

-- `MemoryGuildStore`: its dictionary by key. What is read or written is a copy.
unfoldable pub save : GuildRecord → Assoc GuildRecord → Assoc GuildRecord
save record_ records = insert (to_key record_.fingerprint) record_ records

unfoldable pub get : FailureFingerprint → Assoc GuildRecord → Option GuildRecord
get fingerprint records = lookup (to_key fingerprint) records

unfoldable pub list_records :
    (capability error_type role : Option String)
    → (limit : Option ℕ) → (offset : ℕ) → Assoc GuildRecord
    → List GuildRecord
list_records capability error_type role limit offset records =
    filter_records capability error_type role limit offset (values records)

unfoldable pub delete : FailureFingerprint → Assoc GuildRecord → Bool × Assoc GuildRecord
delete fingerprint records =
    let key = to_key fingerprint in
    if has_key key records then (true, erase key records) else (false, records)

abbrev pub clear : Assoc GuildRecord → Assoc GuildRecord
clear records = []
