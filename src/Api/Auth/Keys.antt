-- ===== src/Api/Auth/Keys.antt =====
-- What `lookup`, `revoke` and `flush_usage` of engine/api/auth/store.py come to.
use Prim.Native.String.{String}
use conductor_engine.Base.{
  ℕ, ◌≡◌, ◌<◌, refl, ap, ◌∙◌, List, [], ◌∷◌, Option, none, some, Bool, true, false, not, ltb,
  str_eq, arith, Assoc, lookup, insert, lookup-insert_self, if◌then◌else◌, Bool-cases, inl, inr,
}
use conductor_engine.Api.Auth.Entry.{ApiKeyEntry, Disk, holds, entries_of, dicts, or_star}
use conductor_engine.Api.Auth.Store.{
  ApiKeyStore, load, api_key_store, save, reload_if_changed, generate, new_entry, used, lookup_key,
  revoke, revoke_found, flush_usage, exists, since,
}
use conductor_engine.Api.Auth.File.{
  IsKeyed, read_entries-dicts, insert-IsKeyed, lookup-IsKept, or_star-or_star,
}

has :
    (X : Assoc ApiKeyEntry) (b : Bool) (x y : ApiKeyStore)
    → x.entries ≡ X
    → y.entries ≡ X
    → (if b then x else y).entries ≡ X
has X true x y p q = p
has X false x y p q = q

-- A store with a path, whose file has the entries `X`.
abbrev Backed : Assoc ApiKeyEntry → Disk → ApiKeyStore → Type 0
Backed X disk self = self.has_path ≡ true → disk.content ≡ holds (dicts X)

entries-load :
    (now : String) (X : Assoc ApiKeyEntry) (disk : Disk) (self : ApiKeyStore)
    → IsKeyed X
    → disk.content ≡ holds (dicts X)
    → (load now disk self).entries ≡ X
unfolding load entries_of
entries-load now X disk self h same = rw same (rw (read_entries-dicts now X h) refl)

reload_same :
    (now : String) (X : Assoc ApiKeyEntry) (disk : Disk) (self : ApiKeyStore)
    → IsKeyed X
    → self.entries ≡ X
    → Backed X disk self
    → (reload_if_changed now disk self).entries ≡ X
unfolding reload_if_changed
reload_same now X disk self h held backed = elim (Bool-cases self.has_path) [
  | inl path ↦ has X (not self.has_path) _ _ held (
      has X (not (exists disk.content)) _ _ held (
        has X (ltb (since self.last_mtime) disk.mtime) _ _
          (entries-load now X disk self h (backed path)) held))
  | inr bare ↦ simp bare held
]

reload_newer :
    (now : String) (X : Assoc ApiKeyEntry) (disk : Disk) (self : ApiKeyStore)
    → IsKeyed X
    → self.has_path ≡ true
    → disk.content ≡ holds (dicts X)
    → since self.last_mtime < disk.mtime
    → (reload_if_changed now disk self).entries ≡ X
unfolding reload_if_changed
reload_newer now X disk self h path same newer =
    let later : ltb (since self.last_mtime) disk.mtime ≡ true = ground arith in
    let there : exists disk.content ≡ true = ap exists same in
    simp (path, there, later) (entries-load now X disk self h same)

used-active :
    (now key : String) (e : ApiKeyEntry) (self : ApiKeyStore) (o : Option ApiKeyEntry)
    → o ≡ some e
    → e.revoked ≡ false
    → (used now key o self).0 ≡ some (record e { last_used_at = some now })
unfolding used
used-active now key e self o found active = rw found (rw active refl)

used-revoked :
    (now key : String) (e : ApiKeyEntry) (self : ApiKeyStore) (o : Option ApiKeyEntry)
    → o ≡ some e
    → e.revoked ≡ true
    → (used now key o self).0 ≡ none
unfolding used
used-revoked now key e self o found gone = rw found (rw gone refl)

content-save :
    (at : ℕ) (self : ApiKeyStore) (disk : Disk)
    → self.has_path ≡ true
    → (save at self disk).content ≡ holds (dicts self.entries)
unfolding save
content-save at self disk path = rw path refl

mtime-save :
    (at : ℕ) (self : ApiKeyStore) (disk : Disk)
    → self.has_path ≡ true
    → (save at self disk).mtime ≡ at
unfolding save
mtime-save at self disk path = rw path refl

module _ (hash_key : String → String) where
  -- The entry that a lookup finds under a key's hash, where `X` are the entries after the reload.
  found_in :
      (key : String) (e : ApiKeyEntry) (X entries others : Assoc ApiKeyEntry)
      → X ≡ insert key e others
      → entries ≡ X
      → lookup key entries ≡ some e
  found_in key e X entries others made same =
      ap (lookup key) (same ∙ made) ∙ lookup-insert_self key e others

  -- For a store with a file, whose entries stand under their hashes, with a scope and a time of
  -- creation: a key that `generate` returns is accepted. `lookup` of it returns the new entry,
  -- with the actor asked for, the time of this use, and the scopes asked for, or the wildcard `*`
  -- if none or an empty list was asked for, from the same store and from one that another process
  -- opens on the file.
  pub generate-lookup :
      (token now later actor : String) (scopes : Option (List String)) (at : ℕ) (self : ApiKeyStore)
      (disk : Disk)
      → str_eq now "" ≡ false
      → IsKeyed self.entries
      → self.has_path ≡ true
      → let made = generate hash_key token now at actor scopes self disk in
        let use_ = record (made.0.1) { last_used_at = some later } in
        ((lookup_key hash_key later made.0.0 made.2 made.1).0 ≡ some use_)
        × ((lookup_key hash_key later made.0.0 made.2 (api_key_store later made.2)).0 ≡ some use_)
        × (made.0.1.actor ≡ actor)
        × (made.0.1.scopes ≡ or_star scopes)
  unfolding generate lookup_key api_key_store
  generate-lookup token now later actor scopes at self disk made h path =
      let e = new_entry hash_key token now actor scopes in
      let X = insert e.key_hash e self.entries in
      let next : ApiKeyStore = record self { entries = X; dirty = true } in
      let keyed : IsKeyed X =
        insert-IsKeyed e.key_hash e self.entries (refl, or_star-or_star scopes, made) h in
      let file = content-save at next disk path in
      let fresh =
        load later (save at next disk)
          (record { has_path = true; entries = []; dirty = false; last_mtime = none }) in
      (
        used-active later e.key_hash e _ _
            (found_in e.key_hash e X _ self.entries refl
              (reload_same later X (save at next disk) next keyed refl (λ _. file)))
            refl,
        used-active later e.key_hash e _ _
            (found_in e.key_hash e X _ self.entries refl (
              reload_same later X (save at next disk) fresh keyed
                (entries-load later X (save at next disk) _ keyed file) (λ _. file)))
            refl,
        refl,
        refl,
      )

  -- For a store with a file, whose entries stand under their hashes, with a scope and a time of
  -- creation: after `revoke` of a key that the store has, `lookup` refuses it, in the same store
  -- and in every other store on the file, such as that of a running server, if the file is newer
  -- than what it loaded last.
  pub revoke-lookup :
      (raw later : String) (at : ℕ) (self other : ApiKeyStore) (disk : Disk) (e : ApiKeyEntry)
      → IsKeyed self.entries
      → self.has_path ≡ true
      → lookup (hash_key raw) self.entries ≡ some e
      → other.has_path ≡ true
      → since other.last_mtime < at
      → let revoked = revoke at (hash_key raw) self disk in
        (revoked.0 ≡ true)
        × ((lookup_key hash_key later raw revoked.2 revoked.1).0 ≡ none)
        × ((lookup_key hash_key later raw revoked.2 other).0 ≡ none)
  unfolding revoke revoke_found lookup_key
  revoke-lookup raw later at self other disk e h path found shared newer =
      let key = hash_key raw in
      let gone : ApiKeyEntry = record e { revoked = true } in
      let X = insert key gone self.entries in
      let next : ApiKeyStore = record self { entries = X; dirty = true } in
      let keyed : IsKeyed X =
        insert-IsKeyed key gone self.entries (lookup-IsKept key e self.entries h found) h in
      let file = content-save at next disk path in
      rw found (
        refl,
        used-revoked later key gone _ _
            (found_in key gone X _ self.entries refl
              (reload_same later X (save at next disk) next keyed refl (λ _. file)))
            refl,
        used-revoked later key gone _ _
            (found_in key gone X _ self.entries refl (
              reload_newer later X (save at next disk) other keyed shared file
                (rw (mtime-save at next disk path) newer)))
            refl,
      )

  -- Lookups in a row, each at its time.
  pub lookups : List (String × String) → Disk → ApiKeyStore → ApiKeyStore
  lookups [] disk self = self
  lookups ((now, raw) ∷ rest) disk self =
      lookups rest disk (lookup_key hash_key now raw disk self).1

  same_dirty :
      (b : Bool) (x y : ApiKeyStore) (d : Bool)
      → x.dirty ≡ d
      → y.dirty ≡ d
      → (if b then x else y).dirty ≡ d
  same_dirty true x y d p q = p
  same_dirty false x y d p q = q

  dirty-reload :
      (now : String) (disk : Disk) (self : ApiKeyStore)
      → (reload_if_changed now disk self).dirty ≡ self.dirty
  unfolding reload_if_changed load
  dirty-reload now disk self = same_dirty (not self.has_path) _ _ self.dirty refl (
      same_dirty (not (exists disk.content)) _ _ self.dirty refl
        (same_dirty (ltb (since self.last_mtime) disk.mtime) _ _ self.dirty refl refl))

  dirty-used :
      (now key : String) (o : Option ApiKeyEntry) (self : ApiKeyStore)
      → (used now key o self).1.dirty ≡ self.dirty
  unfolding used
  dirty-used now key none self = refl
  dirty-used now key (some e) self = elim (Bool-cases e.revoked) [
    | inl gone ↦ simp gone refl
    | inr active ↦ simp active refl
  ]

  dirty-lookups :
      (l : List (String × String)) (disk : Disk) (self : ApiKeyStore)
      → (lookups l disk self).dirty ≡ self.dirty
  unfolding lookups lookup_key
  dirty-lookups [] disk self = refl
  dirty-lookups ((now, raw) ∷ rest) disk self =
      dirty-lookups rest disk _ ∙ dirty-used now (hash_key raw) _ _ ∙ dirty-reload now disk self

  -- `flush_usage` of a store that was opened on a file and then only asked for keys writes nothing,
  -- however many keys were used: the times of use are lost.
  pub flush_usage-lookups :
      (now : String) (at : ℕ) (l : List (String × String)) (disk : Disk)
      → (flush_usage at (lookups l disk (api_key_store now disk)) disk).1 ≡ disk
  unfolding flush_usage
  flush_usage-lookups now at l disk =
      let clean : (lookups l disk (api_key_store now disk)).dirty ≡ false =
        dirty-lookups l disk (api_key_store now disk) ∙ (unfold api_key_store load in refl) in
      rw clean refl
