-- ===== src/Base/Post.antt =====
-- What holds after a method: one statement for the case that it returns, and one for an exception.
use mathlib.Core.Path.{◌≡◌, refl}
use mathlib.Core.Bool.{Bool, true, false}
use conductor_engine.Base.Tests.{if◌then◌else◌}
use conductor_engine.Base.Exec.{Outcome, done, raised, out_of_fuel, Exec, ◌>>=◌}

module _ {S A : Type 0} where
  abbrev pub Post : (A → S → Type 0) → (S → Type 0) → Outcome A × S → Type 0
  Post Q E (done a, s) = Q a s
  Post Q E (raised e, s) = E s
  Post Q E (out_of_fuel, s) = E s

module _ {S A B : Type 0} (P : A → S → Type 0) (Q : B → S → Type 0) (E : S → Type 0) where
  Post-continue :
      (r : Outcome A × S) (f : A → Exec S B)
      → Post P E r
      → ((a : A) (u : S) → P a u → Post Q E (f a u))
      → Post Q E (((λ (_ : S). r) >>= f) r.1)
  Post-continue (done a, u) f p k = k a u p
  Post-continue (raised e, u) f p k = p
  Post-continue (out_of_fuel, u) f p k = p

  -- The rule for a chain of two methods.
  pub Post-bind :
      (m : Exec S A) (f : A → Exec S B) (s : S)
      → Post P E (m s)
      → ((a : A) (u : S) → P a u → Post Q E (f a u))
      → Post Q E ((m >>= f) s)
  Post-bind m f s p k = Post-continue (m s) f p k

module _ {S A : Type 0} (Q : A → S → Type 0) (E : S → Type 0) where
  pub Post-if :
      (b : Bool) (m n : Exec S A) (s : S)
      → (b ≡ true → Post Q E (m s))
      → (b ≡ false → Post Q E (n s))
      → Post Q E ((if b then m else n) s)
  Post-if true m n s then_ else_ = then_ refl
  Post-if false m n s then_ else_ = else_ refl

  -- A method of which only the state after it matters.
  pub Post-all : (r : Outcome A × S) → ((a : A) → Q a r.1) → E r.1 → Post Q E r
  Post-all (done a, s) q e = q a
  Post-all (raised x, s) q e = e
  Post-all (out_of_fuel, s) q e = e

module _ {S A : Type 0} (P Q : A → S → Type 0) (E : S → Type 0) where
  pub Post-weaken :
      (r : Outcome A × S) → ((a : A) (s : S) → P a s → Q a s) → Post P E r → Post Q E r
  Post-weaken (done a, s) k p = k a s p
  Post-weaken (raised e, s) k p = p
  Post-weaken (out_of_fuel, s) k p = p
