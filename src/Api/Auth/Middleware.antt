-- ===== src/Api/Auth/Middleware.antt =====
-- `AuthMiddleware` of engine/api/app.py and `AuthContext` of engine/api/dependencies.py.
use Prim.Native.String.{String}
use Prim.Native.Char.{code}
use conductor_engine.Base.{
  List, [], ◌∷◌, Option, none, some, Bool, true, false, not, any, str_eq, ◌==◌, if◌then◌else◌,
  fstring,
}
use conductor_engine.Base.Parse.{strip}
use conductor_engine.Api.Http.{HttpError, Response, body, failed}
use conductor_engine.Api.Auth.Entry.{ApiKeyEntry, Disk, or_star}
use conductor_engine.Api.Auth.Store.{ApiKeyStore, enabled, lookup_key}

pub record AuthContext : Type 0 where
  pub actor : String
  pub scopes : List String

-- `AuthContext.__init__`
abbrev pub auth_context : (actor : String) → (scopes : Option (List String)) → AuthContext
auth_context actor scopes = record { actor = actor; scopes = or_star scopes }

-- `require_scope`
unfoldable pub require_scope : (scope : String) → AuthContext → Response (Unit {0})
require_scope scope self =
    if any (λ s. str_eq s "*") self.scopes
    then body tt
    else if any (λ s. str_eq s scope) self.scopes
    then body tt
    else failed (record {
      status_code = 403;
      code = "forbidden";
      message = fstring ("Caller '" ∷ self.actor ∷ "' lacks required scope '" ∷ scope ∷ "'" ∷ []);
    })

-- The rest of a text behind a prefix that it starts with.
unfoldable pub behind_prefix : (prefix s : String) → Option String
behind_prefix String.[] s = some s
behind_prefix (String.◌∷◌ c p) String.[] = none
behind_prefix (String.◌∷◌ c p) (String.◌∷◌ d s) =
    let rest = behind_prefix p s in if code c == code d then rest else none

abbrev pub starts_with : (prefix s : String) → Bool
starts_with prefix s = elim (behind_prefix prefix s) [ none ↦ false | some rest ↦ true ]

abbrev pub public_paths : List String
public_paths = "/" ∷ "/docs" ∷ "/redoc" ∷ "/openapi.json" ∷ "/v1/health" ∷ []

-- `_path_is_public`
unfoldable pub path_is_public : (path : String) → Bool
path_is_public path =
    if any (λ p. str_eq p path) public_paths
    then true
    else any (λ p. starts_with p path) ("/docs/" ∷ "/redoc/" ∷ "/openapi.json" ∷ [])

-- What becomes of a request: it is refused, or the handlers get it with a context.
pub data Verdict : Type 0 where
  refused : HttpError → Verdict
  passed : AuthContext → Verdict

abbrev pub open_access : AuthContext
open_access = auth_context "api" (some ("*" ∷ []))

abbrev pub unauthorized : String → HttpError
unauthorized m = record { status_code = 401; code = "unauthorized"; message = m }

abbrev pub known : Option ApiKeyEntry → Verdict
known none = refused (unauthorized "Invalid or revoked API key")
known (some entry) = passed (auth_context entry.actor (some entry.scopes))

module _ (hash_key : String → String) where
  -- The part of `dispatch` that reads the header.
  unfoldable pub check_header :
      (now : String) → (bearer : Option String) → Disk → ApiKeyStore → Verdict × ApiKeyStore
  check_header now none disk self =
      (refused (unauthorized "Missing or invalid Authorization header"), self)
  check_header now (some key) disk self =
      let (entry, self) = lookup_key hash_key now (strip key) disk self in (known entry, self)

  -- `AuthMiddleware.dispatch`; a header that is missing reads as the empty text.
  unfoldable pub dispatch :
      (now : String)
      → (path : String) → (authorization : String) → Disk
      → ApiKeyStore
      → Verdict × ApiKeyStore
  dispatch now path authorization disk self =
      if not (enabled self)
      then (passed open_access, self)
      else if path_is_public path
      then (passed open_access, self)
      else check_header now (behind_prefix "Bearer " authorization) disk self
