-- ===== src/Api/Auth/File.antt =====
-- The entries of `ApiKeyStore` of engine/api/auth/store.py, and what its file keeps of them.
use Prim.Native.String.{String}
use mathlib.Core.Path.{subst}
use conductor_engine.Base.{
  ℕ, ◌≡◌, refl, sym, List, [], ◌∷◌, Option, none, some, Bool, true, false, not, ltb, or_text,
  str_eq, arith, Assoc, lookup, insert, if◌then◌else◌, eq_iff, Bool-cases, inl, inr,
}
use conductor_engine.Base.Exec.{Result, ok, err}
use conductor_engine.Api.Auth.Entry.{
  ApiKeyEntry, KeyData, Disk, Content, missing, unreadable, holds, or_star, to_dict, from_dict,
  with_prefix, onto_entries, read_entries, or_empty, entries_of, dicts,
}
use conductor_engine.Api.Auth.Store.{
  ApiKeyStore, load, api_key_store, save, reload_if_changed, generate, used, lookup_key, revoke,
  revoke_found, exists, since,
}

-- An entry stands under its hash, has a scope, and says when it was made.
abbrev pub IsKept : String → ApiKeyEntry → Type 0
IsKept key e =
    (e.key_hash ≡ key) × (or_star (some e.scopes) ≡ e.scopes) × (str_eq e.created_at "" ≡ false)

abbrev pub IsKeyed : Assoc ApiKeyEntry → Type 0
IsKeyed [] = Unit {0}
IsKeyed ((key, e) ∷ rest) = IsKept key e × IsKeyed rest

read-dict :
    (now key : String) (e : ApiKeyEntry) → IsKept key e → from_dict now key (to_dict e) ≡ ok e
unfolding from_dict to_dict
read-dict now key e (named, starred, made) = rw (sym named) (rw starred (ground (arith, made)))

-- What the file has of some entries reads back as these entries.
pub read_entries-dicts :
    (now : String) (l : Assoc ApiKeyEntry) → IsKeyed l → read_entries now (dicts l) ≡ ok l
unfolding read_entries
read_entries-dicts now [] h = refl
read_entries-dicts now ((key, e) ∷ rest) (kept, h) =
    rw (read-dict now key e kept) (rw (read_entries-dicts now rest h) refl)

pub insert-IsKeyed :
    (key : String) (e : ApiKeyEntry) (l : Assoc ApiKeyEntry)
    → IsKept key e
    → IsKeyed l
    → IsKeyed (insert key e l)
unfolding insert
insert-IsKeyed key e [] kept h = (kept, tt)
insert-IsKeyed key e ((name, f) ∷ rest) kept (first, h) = elim (Bool-cases (str_eq name key)) [
  | inl same ↦ simp same (kept, h)
  | inr other ↦ simp other (first, insert-IsKeyed key e rest kept h)
]

pub lookup-IsKept :
    (key : String) (e : ApiKeyEntry) (l : Assoc ApiKeyEntry)
    → IsKeyed l
    → lookup key l ≡ some e
    → IsKept key e
unfolding lookup
lookup-IsKept key e [] h found = absurd (cc)
lookup-IsKept key e ((name, f) ∷ rest) (first, h) found = elim (Bool-cases (str_eq name key)) [
  | inl same ↦
      let p : f ≡ e = ground arith in
      let q : name ≡ key = (eq_iff name key).0 same in
      subst (λ k. IsKept k e) q (subst (λ x. IsKept name x) p first)
  | inr other ↦ lookup-IsKept key e rest h (ground arith)
]

pub or_star-or_star : (o : Option (List String)) → or_star (some (or_star o)) ≡ or_star o
or_star-or_star none = refl
or_star-or_star (some []) = refl
or_star-or_star (some (s ∷ rest)) = refl

or_text-made :
    (o : Option String) (now : String) → str_eq now "" ≡ false → str_eq (or_text o now) "" ≡ false
or_text-made none now made = made
or_text-made (some s) now made = ground (arith, made)

-- What an entry that was read is; nothing where it was refused.
abbrev IsRead : String → Result ApiKeyEntry → Type 0
IsRead key (ok e) = IsKept key e
IsRead key (err x) = Unit {0}

with_prefix-IsRead :
    (o : Option String) (now key : String) (d : KeyData)
    → str_eq now "" ≡ false
    → IsRead key (with_prefix o now key d)
with_prefix-IsRead none now key d made = tt
with_prefix-IsRead (some prefix) now key d made =
    (refl, or_star-or_star d.scopes, or_text-made d.created_at now made)

onto_entries-IsKeyed :
    (key : String) (r : Result ApiKeyEntry) (more : Result (Assoc ApiKeyEntry))
    → IsRead key r
    → IsKeyed (or_empty more)
    → IsKeyed (or_empty (onto_entries key r more))
onto_entries-IsKeyed key (err x) more kept h = tt
onto_entries-IsKeyed key (ok e) (err x) kept h = tt
onto_entries-IsKeyed key (ok e) (ok entries) kept h = (kept, h)

read_entries-IsKeyed :
    (now : String) (l : Assoc KeyData)
    → str_eq now "" ≡ false
    → IsKeyed (or_empty (read_entries now l))
unfolding read_entries from_dict
read_entries-IsKeyed now [] made = tt
read_entries-IsKeyed now ((key, d) ∷ rest) made =
    onto_entries-IsKeyed key (with_prefix d.prefix now key d) (read_entries now rest)
      (with_prefix-IsRead d.prefix now key d made) (read_entries-IsKeyed now rest made)

entries_of-IsKeyed :
    (now : String) (c : Content) → str_eq now "" ≡ false → IsKeyed (entries_of now c)
unfolding entries_of
entries_of-IsKeyed now missing made = tt
entries_of-IsKeyed now unreadable made = tt
entries_of-IsKeyed now (holds l) made = read_entries-IsKeyed now l made

-- Loading what a store has saved gives its entries back.
pub load-save :
    (now : String) (at : ℕ) (self other : ApiKeyStore) (disk : Disk)
    → IsKeyed self.entries
    → self.has_path ≡ true
    → (load now (save at self disk) other).entries ≡ self.entries
unfolding load save entries_of
load-save now at self other disk h path = rw path (rw (read_entries-dicts now self.entries h) refl)

pub reload-IsKeyed :
    (now : String) (disk : Disk) (self : ApiKeyStore)
    → str_eq now "" ≡ false
    → IsKeyed self.entries
    → IsKeyed (reload_if_changed now disk self).entries
unfolding reload_if_changed load
reload-IsKeyed now disk self made h = either (not self.has_path) _ _ h (
    either (not (exists disk.content)) _ _ h (
      either (ltb (since self.last_mtime) disk.mtime) _ _ (entries_of-IsKeyed now disk.content made)
        h))
  where
    either :
        (b : Bool) (x y : ApiKeyStore)
        → IsKeyed x.entries
        → IsKeyed y.entries
        → IsKeyed (if b then x else y).entries
    either true x y p q = p
    either false x y p q = q

used-IsKeyed :
    (now key : String) (o : Option ApiKeyEntry) (self : ApiKeyStore)
    → lookup key self.entries ≡ o
    → IsKeyed self.entries
    → IsKeyed (used now key o self).1.entries
unfolding used
used-IsKeyed now key none self found h = h
used-IsKeyed now key (some e) self found h = elim (Bool-cases e.revoked) [
  | inl gone ↦ simp gone h
  | inr active ↦
      simp active (insert-IsKeyed key _ self.entries (lookup-IsKept key e self.entries h found) h)
]

revoke_found-IsKeyed :
    (at : ℕ) (key : String) (o : Option ApiKeyEntry) (self : ApiKeyStore) (disk : Disk)
    → lookup key self.entries ≡ o
    → IsKeyed self.entries
    → IsKeyed (revoke_found at key o self disk).1.entries
unfolding revoke_found
revoke_found-IsKeyed at key none self disk found h = h
revoke_found-IsKeyed at key (some e) self disk found h =
    insert-IsKeyed key _ self.entries (lookup-IsKept key e self.entries h found) h

module _ (hash_key : String → String) where
  -- Where the time is not the empty text: a store that reads its file, whatever the file holds, has
  -- each entry under its hash, with a scope and a time of creation; `generate`, `lookup`, which may
  -- reload the file, and `revoke` keep this.
  pub store-IsKeyed :
      (now token raw key actor : String) (scopes : Option (List String)) (at : ℕ) (disk : Disk)
      (self : ApiKeyStore)
      → str_eq now "" ≡ false
      → IsKeyed self.entries
      → IsKeyed (api_key_store now disk).entries
        × IsKeyed (generate hash_key token now at actor scopes self disk).1.entries
        × IsKeyed (lookup_key hash_key now raw disk self).1.entries
        × IsKeyed (revoke at key self disk).1.entries
  unfolding api_key_store load generate lookup_key revoke
  store-IsKeyed now token raw key actor scopes at disk self made h =
      let reloaded = reload_if_changed now disk self in
      (
        entries_of-IsKeyed now disk.content made,
        insert-IsKeyed _ _ self.entries (refl, or_star-or_star scopes, made) h,
        used-IsKeyed now (hash_key raw) _ reloaded refl (reload-IsKeyed now disk self made h),
        revoke_found-IsKeyed at key _ self disk refl h,
      )
