-- ===== src/Base/Ranked.antt =====
-- Lists sorted by a measure, the greatest first, as `sorted(…, key=…, reverse=True)` returns them.
use conductor_engine.Base.{
  ℕ, ◌+◌, ◌≤◌, ◌≡◌, refl, List, [], ◌∷◌, Bool, true, false, ◌&&◌, all, keep, length, arith, leb,
  ltb, if◌then◌else◌, place, sort_onto, sorted,
}

module _ {ℓ} {A : Type ℓ} where
  -- How many values of a list pass a test.
  abbrev pub count : (A → Bool) → List A → ℕ
  count p l = length (keep p l)

module _ {ℓ} {A : Type ℓ} (less : A → A → Bool) where
  count-place :
      (p : A → Bool) (x : A) (l : List A)
      → count p (place less x l) ≡ (if p x then 1 else 0) + count p l
  unfolding place
  count-place p x [] = ground arith
  count-place p x (y ∷ rest) = ground (arith, count-place p x rest)

  count-sort_onto :
      (p : A → Bool) (acc l : List A) → count p (sort_onto less acc l) ≡ count p acc + count p l
  unfolding sort_onto
  count-sort_onto p acc [] = omega arith
  count-sort_onto p acc (x ∷ rest) =
      ground (arith, count-sort_onto p (place less x acc) rest, count-place p x acc)

  -- Sorting loses and adds nothing.
  pub count-sorted : (p : A → Bool) (l : List A) → count p (sorted less l) ≡ count p l
  unfolding sorted
  count-sorted p l = omega (arith, count-sort_onto p [] l)

  pub all-place : (p : A → Bool) (x : A) (l : List A) → all p (place less x l) ≡ (p x && all p l)
  unfolding place
  all-place p x [] = refl
  all-place p x (y ∷ rest) = ground (arith, all-place p x rest)

  all-sort_onto :
      (p : A → Bool) (acc l : List A)
      → all p acc ≡ true
      → all p l ≡ true
      → all p (sort_onto less acc l) ≡ true
  unfolding sort_onto
  all-sort_onto p acc [] h e = h
  all-sort_onto p acc (x ∷ rest) h e =
      all-sort_onto p (place less x acc) rest (ground (arith, all-place p x acc)) (ground arith)

  pub all-sorted : (p : A → Bool) (l : List A) → all p l ≡ true → all p (sorted less l) ≡ true
  unfolding sorted
  all-sorted p l e = all-sort_onto p [] l refl e

module _ {ℓ} {A : Type ℓ} (measure : A → ℕ) where
  -- No value of the list measures more than `n`.
  abbrev pub below : ℕ → List A → Bool
  below n l = all (λ s. leb (measure s) n) l

  -- Each value measures no less than all that follow it.
  abbrev pub IsDescending : List A → Type 0
  IsDescending [] = Unit {0}
  IsDescending (s ∷ rest) = (below (measure s) rest ≡ true) × IsDescending rest

  abbrev before : A → A → Bool
  before a b = ltb (measure b) (measure a)

  below-weaken : (n m : ℕ) (l : List A) → n ≤ m → below n l ≡ true → below m l ≡ true
  below-weaken n m [] le e = refl
  below-weaken n m (s ∷ rest) le e = ground (arith, below-weaken n m rest le)

  placed :
      (b : Bool) (x y : A) (rest later : List A)
      → before x y ≡ b
      → IsDescending (y ∷ rest)
      → IsDescending later
      → below (measure y) later ≡ (leb (measure x) (measure y) && below (measure y) rest)
      → IsDescending (if b then x ∷ y ∷ rest else y ∷ later)
  placed true x y rest later e (top, ranked) held same =
      (ground (arith, below-weaken (measure y) (measure x) rest), (top, ranked))
  placed false x y rest later e (top, ranked) held same = (ground arith, held)

  place-IsDescending : (x : A) (l : List A) → IsDescending l → IsDescending (place before x l)
  unfolding place
  place-IsDescending x [] h = (refl, tt)
  place-IsDescending x (y ∷ rest) (top, ranked) =
      placed _ x y rest (place before x rest) refl (top, ranked) (place-IsDescending x rest ranked)
        (all-place before (λ s. leb (measure s) (measure y)) x rest)

  sort_onto-IsDescending :
      (acc l : List A) → IsDescending acc → IsDescending (sort_onto before acc l)
  unfolding sort_onto
  sort_onto-IsDescending acc [] h = h
  sort_onto-IsDescending acc (x ∷ rest) h =
      sort_onto-IsDescending (place before x acc) rest (place-IsDescending x acc h)

  pub sorted-IsDescending :
      (l : List A) → IsDescending (sorted (λ a b. ltb (measure b) (measure a)) l)
  unfolding sorted
  sorted-IsDescending l = sort_onto-IsDescending [] l tt
