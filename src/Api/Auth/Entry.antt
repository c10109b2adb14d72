-- ===== src/Api/Auth/Entry.antt =====
-- The entries of engine/api/auth/store.py and their file. The JSON of a key is read as a typed
-- dictionary, whose members may be missing; `null` counts as missing where the code treats both
-- alike. The times that one call reads from the clock are one text.
use Prim.Native.String.{String}
use conductor_engine.Base.{
  ℕ, List, [], ◌∷◌, Option, none, some, Bool, false, or_text, or_else, Assoc,
}
use conductor_engine.Base.Exec.{Result, ok, err}

pub record ApiKeyEntry : Type 0 where
  pub key_hash : String
  pub prefix : String
  pub actor : String
  pub scopes : List String
  pub created_at : String
  pub last_used_at : Option String
  pub revoked : Bool

-- What the file has of a key.
pub record KeyData : Type 0 where
  pub prefix : Option String
  pub actor : Option String
  pub scopes : Option (List String)
  pub created_at : Option String
  pub last_used_at : Option String
  pub revoked : Option Bool

-- `scopes or ["*"]`
abbrev pub or_star : Option (List String) → List String
or_star none = "*" ∷ []
or_star (some []) = "*" ∷ []
or_star (some (s ∷ rest)) = s ∷ rest

-- `to_dict`
unfoldable pub to_dict : ApiKeyEntry → KeyData
to_dict self = record {
  prefix = some self.prefix;
  actor = some self.actor;
  scopes = some self.scopes;
  created_at = some self.created_at;
  last_used_at = self.last_used_at;
  revoked = some self.revoked;
}

abbrev pub with_prefix :
    Option String → (now : String) → (key_hash : String) → KeyData → Result ApiKeyEntry
with_prefix none now key_hash data_ = err (record { error_type = "KeyError"; message = "'prefix'" })
with_prefix (some prefix) now key_hash data_ = ok (record {
  key_hash = key_hash;
  prefix = prefix;
  actor = or_else data_.actor "api";
  scopes = or_star data_.scopes;
  created_at = or_text data_.created_at now;
  last_used_at = data_.last_used_at;
  revoked = or_else data_.revoked false;
})

-- `from_dict`, where `now` is the time that `__init__` takes for a missing `created_at`.
unfoldable pub from_dict : (now : String) → (key_hash : String) → KeyData → Result ApiKeyEntry
from_dict now key_hash data_ = with_prefix data_.prefix now key_hash data_

-- The backing file: missing, not JSON, or the dictionary that it holds.
pub data Content : Type 0 where
  missing unreadable : Content
  holds : Assoc KeyData → Content

pub record Disk : Type 0 where
  pub content : Content
  pub mtime : ℕ

-- An item of the comprehension of `_load`; a KeyError ends the comprehension.
abbrev pub onto_entries :
    String → Result ApiKeyEntry → Result (Assoc ApiKeyEntry) → Result (Assoc ApiKeyEntry)
onto_entries key (err e) more = err e
onto_entries key (ok entry) (err e) = err e
onto_entries key (ok entry) (ok entries) = ok ((key, entry) ∷ entries)

unfoldable pub read_entries : (now : String) → Assoc KeyData → Result (Assoc ApiKeyEntry)
read_entries now [] = ok []
read_entries now ((key, data_) ∷ rest) =
    onto_entries key (from_dict now key data_) (read_entries now rest)

abbrev pub or_empty : Result (Assoc ApiKeyEntry) → Assoc ApiKeyEntry
or_empty (ok entries) = entries
or_empty (err e) = []

unfoldable pub entries_of : (now : String) → Content → Assoc ApiKeyEntry
entries_of now missing = []
entries_of now unreadable = []
entries_of now (holds data_) = or_empty (read_entries now data_)

abbrev pub dicts : Assoc ApiKeyEntry → Assoc KeyData
dicts [] = []
dicts ((key, entry) ∷ rest) = (key, to_dict entry) ∷ dicts rest
