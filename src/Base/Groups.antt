-- ===== src/Base/Groups.antt =====
-- Grouping by a key, as `groups.setdefault(key, []).append(x)` does, and sums over the groups.
use conductor_engine.Base.{
  ℕ, ◌+◌, String, Bool, ◌≡◌, refl, List, [], ◌∷◌, ◌++◌, arith, length, Assoc, str_eq, eq_iff,
  str_lt, place, sort_onto, sorted, if◌then◌else◌,
}

module _ {A : Type 0} where
  -- `groups.setdefault(key, []).append(x)`
  unfoldable pub append_to : String → A → Assoc (List A) → Assoc (List A)
  append_to key x [] = (key, x ∷ []) ∷ []
  append_to key x ((name, group) ∷ rest) =
      if str_eq name key
      then (name, group ++ x ∷ []) ∷ rest
      else (name, group) ∷ append_to key x rest

  -- `sorted(groups.items())`, whose keys are all different.
  abbrev pub by_key : String × List A → String × List A → Bool
  by_key a b = str_lt a.0 b.0

  abbrev pub sum : (A → ℕ) → List A → ℕ
  sum f [] = 0
  sum f (x ∷ rest) = f x + sum f rest

  -- The sum over all groups.
  abbrev pub total : (A → ℕ) → Assoc (List A) → ℕ
  total f [] = 0
  total f ((key, l) ∷ rest) = sum f l + total f rest

  pub sum-length : (l : List A) → sum (λ x. 1) l ≡ length l
  sum-length [] = refl
  sum-length (x ∷ rest) = omega (arith, sum-length rest)

  sum-append : (f : A → ℕ) (l m : List A) → sum f (l ++ m) ≡ sum f l + sum f m
  sum-append f [] m = omega arith
  sum-append f (x ∷ rest) m = omega (arith, sum-append f rest m)

  pub total-append_to :
      (f : A → ℕ) (key : String) (x : A) (g : Assoc (List A))
      → total f (append_to key x g) ≡ f x + total f g
  unfolding append_to
  total-append_to f key x [] = omega arith
  total-append_to f key x ((name, l) ∷ rest) =
      ground (arith, sum-append f l (x ∷ []), total-append_to f key x rest)

  total-place :
      (f : A → ℕ) (x : String × List A) (g : Assoc (List A))
      → total f (place by_key x g) ≡ sum f x.1 + total f g
  unfolding place
  total-place f (key, l) [] = omega arith
  total-place f (key, l) ((name, m) ∷ rest) = ground (arith, total-place f (key, l) rest)

  total-sort_onto :
      (f : A → ℕ) (acc g : Assoc (List A))
      → total f (sort_onto by_key acc g) ≡ total f acc + total f g
  unfolding sort_onto
  total-sort_onto f acc [] = omega arith
  total-sort_onto f acc ((key, l) ∷ rest) =
      omega (arith, total-sort_onto f (place by_key (key, l) acc) rest, total-place f (key, l) acc)

  pub total-sorted : (f : A → ℕ) (g : Assoc (List A)) → total f (sorted by_key g) ≡ total f g
  unfolding sorted
  total-sorted f g = omega (arith, total-sort_onto f [] g)

  -- The sum over the groups of one key.
  abbrev pub total_of : (key : String) → (A → ℕ) → Assoc (List A) → ℕ
  total_of key f [] = 0
  total_of key f ((name, l) ∷ rest) = (if str_eq name key then sum f l else 0) + total_of key f rest

  pub total_of-append_to :
      (id : String) (f : A → ℕ) (key : String) (x : A) (g : Assoc (List A))
      → total_of id f (append_to key x g) ≡ (if str_eq key id then f x else 0) + total_of id f g
  unfolding append_to
  total_of-append_to id f key x [] = ground arith
  total_of-append_to id f key x ((name, l) ∷ rest) =
      ground (arith, eq_iff name key, sum-append f l (x ∷ []), total_of-append_to id f key x rest)

  total_of-place :
      (id : String) (f : A → ℕ) (x : String × List A) (g : Assoc (List A))
      → total_of id f (place by_key x g)
        ≡ (if str_eq x.0 id then sum f x.1 else 0) + total_of id f g
  unfolding place
  total_of-place id f (key, l) [] = ground arith
  total_of-place id f (key, l) ((name, m) ∷ rest) =
      ground (arith, total_of-place id f (key, l) rest)

  total_of-sort_onto :
      (id : String) (f : A → ℕ) (acc g : Assoc (List A))
      → total_of id f (sort_onto by_key acc g) ≡ total_of id f acc + total_of id f g
  unfolding sort_onto
  total_of-sort_onto id f acc [] = omega arith
  total_of-sort_onto id f acc ((key, l) ∷ rest) = ground (
    arith,
    total_of-sort_onto id f (place by_key (key, l) acc) rest,
    total_of-place id f (key, l) acc,
  )

  pub total_of-sorted :
      (id : String) (f : A → ℕ) (g : Assoc (List A))
      → total_of id f (sorted by_key g) ≡ total_of id f g
  unfolding sorted
  total_of-sorted id f g = omega (arith, total_of-sort_onto id f [] g)
