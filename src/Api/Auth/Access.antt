-- ===== src/Api/Auth/Access.antt =====
-- Who passes `AuthMiddleware` of engine/api/app.py.
use Prim.Native.String.{String}
use conductor_engine.Base.{
  ℕ, ◌≡◌, refl, sym, ap, ◌∙◌, [], ◌∷◌, Option, none, some, true, false, not, any, Bool, ◌&&◌,
  if◌then◌else◌, str_eq, arith, Assoc, lookup, insert, values, Bool-cases, inl, inr,
}
use conductor_engine.Base.Parse.{strip}
use conductor_engine.Api.Auth.Entry.{ApiKeyEntry, Disk}
use conductor_engine.Api.Auth.Store.{
  ApiKeyStore, enabled, has_keys, lookup_key, used, revoke, revoke_found, reload_if_changed,
}
use conductor_engine.Api.Auth.File.{IsKeyed, lookup-IsKept, reload-IsKeyed}
use conductor_engine.Api.Auth.Middleware.{
  AuthContext, auth_context, passed, known, behind_prefix, path_is_public, check_header, dispatch,
}

-- The entry that a store has under a hash lets its key in: it is not revoked, and says so itself.
abbrev pub Admits : (hash : String) → ApiKeyStore → ApiKeyEntry → Type 0
Admits hash self e = (lookup hash self.entries ≡ some e) × (e.revoked ≡ false) × (e.key_hash ≡ hash)

used-Admits :
    (now key : String) (o : Option ApiKeyEntry) (self : ApiKeyStore) (e : ApiKeyEntry)
    → lookup key self.entries ≡ o
    → IsKeyed self.entries
    → (used now key o self).0 ≡ some e
    → (f : ApiKeyEntry) × Admits key self f × (record f { last_used_at = some now } ≡ e)
unfolding used
used-Admits now key none self e found h answer = absurd (cc)
used-Admits now key (some f) self e found h answer = elim (Bool-cases f.revoked) [
  | inl gone ↦ absurd (ground (arith, gone, answer))
  | inr active ↦ (
    f,
    (found, active, (lookup-IsKept key f self.entries h found).0),
    ground (arith, answer, active),
  )
]

-- Why a request that has to be authenticated passes: the store has an entry for its key.
abbrev pub Authentic :
    (hash_key : String → String) → (header : Option String) → ApiKeyStore → AuthContext → Type 0
Authentic hash_key header self c =
    (key : String) × (e : ApiKeyEntry) × (header ≡ some key)
    × Admits (hash_key (strip key)) self e
    × (c ≡ auth_context e.actor (some e.scopes))

passed-of_known :
    (o : Option ApiKeyEntry) (c : AuthContext)
    → known o ≡ passed c
    → (e : ApiKeyEntry) × (o ≡ some e) × (c ≡ auth_context e.actor (some e.scopes))
passed-of_known none c h = absurd (cc)
passed-of_known (some e) c h = (e, refl, cc)

-- All entries of a dictionary but the one of a key are revoked.
abbrev pub others_revoked : String → Assoc ApiKeyEntry → Bool
others_revoked key [] = true
others_revoked key ((name, e) ∷ rest) =
    if str_eq name key
    then not (any (λ f. not f.revoked) (values rest))
    else e.revoked && others_revoked key rest

none_active :
    (key : String) (e : ApiKeyEntry) (l : Assoc ApiKeyEntry)
    → e.revoked ≡ true
    → others_revoked key l ≡ true
    → any (λ f. not f.revoked) (values (insert key e l)) ≡ false
unfolding insert
none_active key e [] gone only = ground (arith, gone)
none_active key e ((name, f) ∷ rest) gone only = elim (Bool-cases (str_eq name key)) [
  | inl same ↦ ground (arith, same, gone, only)
  | inr other ↦ ground (arith, other, only, none_active key e rest gone)
]

module _ (hash_key : String → String) where
  check_header-Authentic :
      (now : String) (header : Option String) (disk : Disk) (self : ApiKeyStore) (c : AuthContext)
      → str_eq now "" ≡ false
      → IsKeyed self.entries
      → (check_header hash_key now header disk self).0 ≡ passed c
      → Authentic hash_key header (reload_if_changed now disk self) c
  unfolding check_header lookup_key
  check_header-Authentic now none disk self c made h answer = absurd (cc)
  check_header-Authentic now (some key) disk self c made h answer =
      let loaded = reload_if_changed now disk self in
      let hash = hash_key (strip key) in
      let (e, found, same) =
        passed-of_known (used now hash (lookup hash loaded.entries) loaded).0 c answer in
      let (f, admits, used_now) =
        used-Admits now hash _ loaded e refl (reload-IsKeyed now disk self made h) found in
      (
        key,
        f,
        refl,
        admits,
        same ∙ ap (λ (x : ApiKeyEntry). auth_context x.actor (some x.scopes)) (sym used_now),
      )

  -- In a store whose entries stand under their hashes, with a scope and a time of creation: while
  -- authentication is enforced, a request for a path that is not public gets through only with a
  -- bearer key under whose hash the store, reloaded if its file is newer, has an entry that is
  -- not revoked, and the handlers get the actor and the scopes of that very entry.
  pub dispatch-Authentic :
      (now path authorization : String) (disk : Disk) (self : ApiKeyStore) (c : AuthContext)
      → str_eq now "" ≡ false
      → IsKeyed self.entries
      → enabled self ≡ true
      → path_is_public path ≡ false
      → (dispatch hash_key now path authorization disk self).0 ≡ passed c
      → Authentic hash_key
          (behind_prefix "Bearer " authorization)
          (reload_if_changed now disk self)
          c
  unfolding dispatch
  dispatch-Authentic now path authorization disk self c made h enforced private answer =
      check_header-Authentic now (behind_prefix "Bearer " authorization) disk self c made h
        (simp (enforced, private) at answer)

  -- If a store has a key and all its other keys are revoked, revoking that one turns authentication
  -- off: after `revoke` of it, every request for every path, with any header or none, passes with
  -- all scopes.
  pub dispatch-revoked :
      (now path authorization : String) (at : ℕ) (key : String) (e : ApiKeyEntry) (disk : Disk)
      (self : ApiKeyStore)
      → lookup key self.entries ≡ some e
      → others_revoked key self.entries ≡ true
      → (dispatch hash_key now path authorization
          (revoke at key self disk).2
          (revoke at key self disk).1).0
        ≡ passed (record { actor = "api"; scopes = "*" ∷ [] })
  unfolding dispatch has_keys revoke revoke_found
  dispatch-revoked now path authorization at key e disk self found only =
      let gone : ApiKeyEntry = record e { revoked = true } in
      rw found (rw (none_active key gone self.entries refl only) refl)
