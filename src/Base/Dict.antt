-- ===== src/Base/Dict.antt =====
-- Python's `dict` with text keys, in insertion order: assigning to a key that is there keeps its
-- place, and a new key goes to the end.
use Prim.Native.String.{String}
use mathlib.Core.Path.{◌≡◌, refl}
use mathlib.Core.Bool.{Bool}
use mathlib.Core.Option.{Option, none, some}
use mathlib.Core.List.{List, [], ◌∷◌}
use native.Mathlib.Omega.{arith}
use text.Mathlib.TextEquality.{eq_iff}
use text.Mathlib.TextPositions.{eq_refl}
use conductor_engine.Base.Tests.{if◌then◌else◌, is_some}
use conductor_engine.Base.Text.{str_eq}

abbrev pub Assoc {ℓ} : Type ℓ → Type ℓ
Assoc V = List (String × V)

module _ {ℓ} {V : Type ℓ} where
  unfoldable pub lookup : (key : String) → Assoc V → Option V
  lookup key [] = none
  lookup key ((name, value) ∷ rest) = if str_eq name key then some value else lookup key rest

  unfoldable pub insert : (key : String) → V → Assoc V → Assoc V
  insert key new [] = (key, new) ∷ []
  insert key new ((name, value) ∷ rest) =
      if str_eq name key then (key, new) ∷ rest else (name, value) ∷ insert key new rest

  unfoldable pub erase : (key : String) → Assoc V → Assoc V
  erase key [] = []
  erase key ((name, value) ∷ rest) =
      let others = erase key rest in if str_eq name key then others else (name, value) ∷ others

  abbrev pub values : Assoc V → List V
  values [] = []
  values ((name, value) ∷ rest) = value ∷ values rest

  abbrev pub has_key : String → Assoc V → Bool
  has_key key entries = is_some (lookup key entries)

  pub lookup-insert :
      (key other : String) (new : V) (entries : Assoc V)
      → lookup other (insert key new entries)
        ≡ (if str_eq key other then some new else lookup other entries)
  unfolding lookup insert
  lookup-insert key other new [] = refl
  lookup-insert key other new ((name, value) ∷ rest) = ground (
    arith,
    lookup-insert key other new rest,
    eq_iff name key,
    eq_iff key other,
    eq_iff name other,
  )

  pub lookup-insert_self :
      (key : String) (new : V) (entries : Assoc V) → lookup key (insert key new entries) ≡ some new
  lookup-insert_self key new entries = simp (lookup-insert, eq_refl)

  pub lookup-erase :
      (key other : String) (entries : Assoc V)
      → lookup other (erase key entries) ≡ (if str_eq key other then none else lookup other entries)
  unfolding lookup erase
  lookup-erase key other [] = ground arith
  lookup-erase key other ((name, value) ∷ rest) =
      ground
        (arith, eq_iff key other, lookup-erase key other rest, eq_iff name other, eq_iff name key)
