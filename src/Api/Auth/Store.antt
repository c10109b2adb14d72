-- ===== src/Api/Auth/Store.antt =====
-- `ApiKeyStore` of engine/api/auth/store.py.
use Prim.Native.String.{String}
use conductor_engine.Base.{
  ℕ, zero, suc, List, [], ◌∷◌, Option, none, some, Bool, true, false, any, not, ltb, str_eq, Assoc,
  lookup, insert, values, if◌then◌else◌, fstring,
}
use conductor_engine.Api.Auth.Entry.{
  ApiKeyEntry, Content, Disk, dicts, entries_of, holds, missing, or_star, unreadable,
}

-- The store: whether it has a path, and its attributes. `last_mtime` is `none` before the first
-- reload.
pub record ApiKeyStore : Type 0 where
  pub has_path : Bool
  pub entries : Assoc ApiKeyEntry
  pub dirty : Bool
  pub last_mtime : Option ℕ

-- `_load`
unfoldable pub load : (now : String) → Disk → ApiKeyStore → ApiKeyStore
load now disk self = record self { entries = entries_of now disk.content }

-- `__init__`
unfoldable pub api_key_store : (now : String) → Disk → ApiKeyStore
api_key_store now disk =
    load now disk (record { has_path = true; entries = []; dirty = false; last_mtime = none })

-- `empty`
abbrev pub empty : ApiKeyStore
empty = record { has_path = false; entries = []; dirty = false; last_mtime = none }

-- `_save`, at the time `at` of the file system.
unfoldable pub save : (at : ℕ) → ApiKeyStore → Disk → Disk
save at self disk =
    if self.has_path then record { content = holds (dicts self.entries); mtime = at } else disk

-- `has_keys`, which `enabled` returns too.
unfoldable pub has_keys : ApiKeyStore → Bool
has_keys self = any (λ e. not e.revoked) (values self.entries)

abbrev pub enabled : ApiKeyStore → Bool
enabled self = has_keys self

-- `list_keys`
abbrev pub list_keys : ApiKeyStore → List ApiKeyEntry
list_keys self = values self.entries

abbrev pub first_with : (ApiKeyEntry → Bool) → List ApiKeyEntry → Option ApiKeyEntry
first_with p [] = none
first_with p (e ∷ rest) = if p e then some e else first_with p rest

-- `find_by_prefix`
unfoldable pub find_by_prefix : (prefix : String) → ApiKeyStore → Option ApiKeyEntry
find_by_prefix prefix self = first_with (λ e. str_eq e.prefix prefix) (values self.entries)

-- `_reload_if_changed`
abbrev pub since : Option ℕ → ℕ
since none = 0
since (some t) = t

abbrev pub exists : Content → Bool
exists missing = false
exists unreadable = true
exists (holds data_) = true

unfoldable pub reload_if_changed : (now : String) → Disk → ApiKeyStore → ApiKeyStore
reload_if_changed now disk self =
    if not self.has_path
    then self
    else if not (exists disk.content)
    then self
    else if ltb (since self.last_mtime) disk.mtime
    then record (load now disk self) { last_mtime = some disk.mtime }
    else record self { last_mtime = some (since self.last_mtime) }

-- `s[:n]`
unfoldable pub text_take : ℕ → String → String
text_take zero s = ""
text_take (suc n) String.[] = ""
text_take (suc n) (String.◌∷◌ c s) = String.◌∷◌ c (text_take n s)

abbrev pub key_prefix : String
key_prefix = "cond_"

-- `generate_raw_key`
abbrev pub generate_raw_key : (token : String) → String
generate_raw_key token = fstring (key_prefix ∷ token ∷ [])

-- What `lookup` does with the entry under the hash; a use is noted in memory.
unfoldable pub used :
    (now : String)
    → (key_hash : String) → Option ApiKeyEntry
    → ApiKeyStore
    → Option ApiKeyEntry × ApiKeyStore
used now key_hash none self = (none, self)
used now key_hash (some entry) self =
    let entry_ = record entry { last_used_at = some now } in
    if entry.revoked
    then (none, self)
    else (some entry_, record self { entries = insert key_hash entry_ self.entries })

-- SHA-256 in hexadecimal digits is a parameter, and the random digits are an argument.
module _ (hash_key : String → String) where
  abbrev pub new_entry :
      (token now : String) → (actor : String) → (scopes : Option (List String)) → ApiKeyEntry
  new_entry token now actor scopes = record {
    key_hash = hash_key (generate_raw_key token);
    prefix = text_take 12 (generate_raw_key token);
    actor = actor;
    scopes = or_star scopes;
    created_at = now;
    last_used_at = none;
    revoked = false;
  }

  -- `generate`
  unfoldable pub generate :
      (token now : String)
      → (at : ℕ) → (actor : String) → (scopes : Option (List String)) → ApiKeyStore
      → Disk
      → (String × ApiKeyEntry) × ApiKeyStore × Disk
  generate token now at actor scopes self disk =
      let entry = new_entry token now actor scopes in
      let self = record self { entries = insert entry.key_hash entry self.entries; dirty = true } in
      ((generate_raw_key token, entry), self, save at self disk)

  -- `lookup`
  unfoldable pub lookup_key :
      (now : String) → (raw_key : String) → Disk → ApiKeyStore → Option ApiKeyEntry × ApiKeyStore
  lookup_key now raw_key disk self =
      let self = reload_if_changed now disk self in
      let key_hash = hash_key raw_key in used now key_hash (lookup key_hash self.entries) self

-- `flush_usage`
unfoldable pub flush_usage : (at : ℕ) → ApiKeyStore → Disk → ApiKeyStore × Disk
flush_usage at self disk =
    if self.dirty then (record self { dirty = false }, save at self disk) else (self, disk)

-- `revoke` of an entry that was found or not.
unfoldable pub revoke_found :
    (at : ℕ)
    → (key_hash : String) → Option ApiKeyEntry
    → ApiKeyStore
    → Disk
    → Bool × ApiKeyStore × Disk
revoke_found at key_hash none self disk = (false, self, disk)
revoke_found at key_hash (some entry) self disk =
    let self = record self {
      entries = insert key_hash (record entry { revoked = true }) self.entries;
      dirty = true;
    } in
    (true, self, save at self disk)

-- `revoke`
unfoldable pub revoke :
    (at : ℕ) → (key_hash : String) → ApiKeyStore → Disk → Bool × ApiKeyStore × Disk
revoke at key_hash self disk = revoke_found at key_hash (lookup key_hash self.entries) self disk

-- `load_api_key_store`
abbrev pub load_api_key_store : (now : String) → Option Disk → ApiKeyStore
load_api_key_store now none = empty
load_api_key_store now (some disk) = api_key_store now disk
