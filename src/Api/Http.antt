-- ===== src/Api/Http.antt =====
-- What a route handler of engine/api comes to, and the clock of the handlers.
use conductor_engine.Base.{ℕ, String}
use conductor_engine.Base.Exec.{Exn}

-- `HTTPException`, with the members `code` and `message` of its detail.
pub record HttpError : Type 0 where
  pub status_code : ℕ
  pub code : String
  pub message : String

-- A handler returns a body, raises an `HTTPException`, or lets another exception through.
pub data Response {ℓ} (A : Type ℓ) : Type ℓ where
  body : A → Response A
  failed : HttpError → Response A
  crashed : Exn → Response A

module _ {ℓ} {A B : Type ℓ} where
  -- The rest of a handler, behind a call that may raise.
  abbrev pub and_on : Response A → (A → Response B) → Response B
  and_on (body a) f = f a
  and_on (failed e) f = failed e
  and_on (crashed e) f = crashed e
