-- ===== src/Base/Sorting.antt =====
-- Python's `sorted`: stable, by a test that says when one value is strictly less than another.
use mathlib.Core.Bool.{Bool, true, false}
use mathlib.Core.List.{List, [], ◌∷◌}
use Prim.Native.String.{String, compare}
use Prim.Native.Nat.{Ordering}
use conductor_engine.Base.Tests.{if◌then◌else◌}

-- The order of texts, by code points.
abbrev pub str_lt : String → String → Bool
str_lt a b = elim (compare a b) [ Ordering.lt ↦ true | _ ↦ false ]

module _ {ℓ} {A : Type ℓ} (less : A → A → Bool) where
  -- Before the first that is greater, and behind those that are equal.
  unfoldable pub place : A → List A → List A
  place x [] = x ∷ []
  place x (y ∷ rest) = if less x y then x ∷ y ∷ rest else y ∷ place x rest

  unfoldable pub sort_onto : List A → List A → List A
  unfolding place
  sort_onto acc [] = acc
  sort_onto acc (x ∷ rest) = sort_onto (place x acc) rest

  unfoldable pub sorted : List A → List A
  unfolding sort_onto
  sorted xs = sort_onto [] xs
