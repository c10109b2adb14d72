-- ===== src/Base/Exec.antt =====
-- Methods that change an object and may raise. What was written before a raise stays written, so
-- the state comes back beside the exception too.
use Prim.Native.String.{String}
use mathlib.Core.Path.{◌≡◌, refl}
use mathlib.Core.List.{[], ◌∷◌}
use conductor_engine.Base.Text.{fstring}

-- A Python exception: the name of its class and `str(exc)`.
pub record Exn : Type 0 where
  pub error_type : String
  pub message : String

-- A call that returns or raises.
pub data Result {ℓ} (A : Type ℓ) : Type ℓ where
  ok : A → Result A
  err : Exn → Result A

-- `out_of_fuel` is no outcome of the program: a `while True` is modelled with fuel, and theorems
-- show that the fuel given is enough.
pub data Outcome {ℓ} (A : Type ℓ) : Type ℓ where
  done : A → Outcome A
  raised : Exn → Outcome A
  out_of_fuel : Outcome A

abbrev pub Exec {ℓ} : Type ℓ → Type ℓ → Type ℓ
Exec S A = S → Outcome A × S

abbrev pub value_error : String → Exn
value_error m = record { error_type = "ValueError"; message = m }

-- `str` of a KeyError is the repr of its text. The texts of this program hold single quotes, so
-- Python quotes them by double quotes; the escapes that a strange name would cause are left out.
abbrev pub key_error : String → Exn
key_error m = record { error_type = "KeyError"; message = fstring ("\"" ∷ m ∷ "\"" ∷ []) }

module _ {ℓ} {S A : Type ℓ} where
  abbrev pub pure : A → Exec S A
  pure a s = (done a, s)

  abbrev pub raise : Exn → Exec S A
  raise e s = (raised e, s)

  -- A call that may raise and does not change the object.
  abbrev pub lift : Result A → Exec S A
  lift (ok a) s = (done a, s)
  lift (err e) s = (raised e, s)

  -- A method that never raises.
  abbrev pub total : (S → A × S) → Exec S A
  total m s = let (a, s') = m s in (done a, s')

module _ {ℓ} {S A B : Type ℓ} where
  abbrev pub continue : Outcome A → (A → Exec S B) → Exec S B
  continue (done a) f s = f a s
  continue (raised e) f s = (raised e, s)
  continue out_of_fuel f s = (out_of_fuel, s)

  infixl 10 ◌>>=◌ ◌>>◌
  abbrev pub ◌>>=◌ : Exec S A → (A → Exec S B) → Exec S B
  ◌>>=◌ first next before = let (r, after) = first before in continue r next after

  abbrev pub ◌>>◌ : Exec S A → Exec S B → Exec S B
  first >> next = first >>= λ _. next

  continue-eq-done :
      (r : Outcome A × S) (f : A → Exec S B) {t : S} {b : B}
      → continue r.0 f r.1 ≡ (done b, t)
      → (a : A) × (u : S) × (r ≡ (done a, u)) × (f a u ≡ (done b, t))
  continue-eq-done (done a, u) f h = (a, u, refl, h)
  continue-eq-done (raised e, u) f h = absurd (cc)
  continue-eq-done (out_of_fuel, u) f h = absurd (cc)

  -- Inversion of a successful chain.
  pub >>=-eq-done :
      (m : Exec S A) (f : A → Exec S B) {s t : S} {b : B}
      → (m >>= f) s ≡ (done b, t)
      → (a : A) × (u : S) × (m s ≡ (done a, u)) × (f a u ≡ (done b, t))
  >>=-eq-done m f {s} h = continue-eq-done (m s) f h

module _ {ℓ} {A B : Type ℓ} where
  -- The second call gets what the first returned, and is not made if the first raised.
  abbrev pub and_then : Result A → (A → Result B) → Result B
  and_then (ok a) f = f a
  and_then (err e) f = err e

  pub and_then-ok :
      (r : Result A) (f : A → Result B) (b : B)
      → and_then r f ≡ ok b
      → (a : A) × (r ≡ ok a) × (f a ≡ ok b)
  and_then-ok (ok a) f b e = (a, refl, e)
  and_then-ok (err x) f b e = cc
