-- ===== src/Base/Ends.antt =====
-- Total correctness: a method ends, by a return or an exception, and never for want of fuel.
use conductor_engine.Base.Exec.{Outcome, done, raised, out_of_fuel, Exec, ◌>>=◌}

module _ {S A : Type 0} where
  abbrev pub Ends : (A → S → Type 0) → (S → Type 0) → Outcome A × S → Type 0
  Ends Q E (done a, s) = Q a s
  Ends Q E (raised e, s) = E s
  Ends Q E (out_of_fuel, s) = ⊥

module _ {S A B : Type 0} (P : A → S → Type 0) (Q : B → S → Type 0) (E : S → Type 0) where
  Ends-continue :
      (r : Outcome A × S) (f : A → Exec S B)
      → Ends P E r
      → ((a : A) (u : S) → P a u → Ends Q E (f a u))
      → Ends Q E (((λ (_ : S). r) >>= f) r.1)
  Ends-continue (done a, u) f p k = k a u p
  Ends-continue (raised e, u) f p k = p
  Ends-continue (out_of_fuel, u) f p k = absurd p

  pub Ends-bind :
      (m : Exec S A) (f : A → Exec S B) (s : S)
      → Ends P E (m s)
      → ((a : A) (u : S) → P a u → Ends Q E (f a u))
      → Ends Q E ((m >>= f) s)
  Ends-bind m f s p k = Ends-continue (m s) f p k

module _ {S A : Type 0} (P Q : A → S → Type 0) (E F : S → Type 0) where
  pub Ends-weaken :
      (r : Outcome A × S)
      → ((a : A) (s : S) → P a s → Q a s)
      → ((s : S) → E s → F s)
      → Ends P E r
      → Ends Q F r
  Ends-weaken (done a, s) k l p = k a s p
  Ends-weaken (raised e, s) k l p = l s p
  Ends-weaken (out_of_fuel, s) k l p = absurd p
