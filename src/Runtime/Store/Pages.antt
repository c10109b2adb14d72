-- ===== src/Runtime/Store/Pages.antt =====
-- Pagination: what `_filter_records` of engine/runtime/store.py returns.
use conductor_engine.Base.{
  ℕ, zero, suc, ◌+◌, ◌≤◌, String, ◌≡◌, refl, ap, List, [], ◌∷◌, ◌++◌, Option, none, some, take,
  drop, Bool, true, ◌&&◌, length, arith, str_eq,
}
use conductor_engine.Base.Ranked.{count}
use conductor_engine.Interfaces.Task.{TaskRecord, status_value}
use conductor_engine.Runtime.Store.{filter_records}
use Prim.Native.Nat.add
use native.Mathlib.Nat.{zero-add}

module _ {ℓ} {A : Type ℓ} where
  drop-nil : (n : ℕ) → ◌≡◌ {A = List A} [] (drop n [])
  drop-nil zero = refl
  drop-nil (suc n) = refl

  drop-add : (o l : ℕ) (xs : List A) → drop (o + l) xs ≡ drop l (drop o xs)
  drop-add zero l xs = rw zero-add
  drop-add (suc o) l [] = rw add.suc (drop-nil l)
  drop-add (suc o) l (x ∷ xs) = rw add.suc (drop-add o l xs)

take-drop {ℓ} : {A : Type ℓ} (n : ℕ) (xs : List A) → take n xs ++ drop n xs ≡ xs
take-drop zero xs = refl
take-drop (suc n) [] = refl
take-drop (suc n) (x ∷ xs) = ap (λ t. x ∷ t) (take-drop n xs)

length-take {ℓ} : {A : Type ℓ} (n : ℕ) (xs : List A) → length (take n xs) ≤ n
length-take zero xs = omega arith
length-take (suc n) [] = omega arith
length-take (suc n) (x ∷ xs) = omega (arith, length-take n xs)

pages-bounded :
    (n o : ℕ) (status : Option String) (records : List TaskRecord)
    → length (filter_records (some n) o status records) ≤ n
unfolding filter_records
pages-bounded n o status records = length-take n _

pages-whole :
    (n o : ℕ) (status : Option String) (records : List TaskRecord)
    → filter_records (some o) 0 status records
        ++ (filter_records (some n) o status records ++ filter_records none (o + n) status records)
      ≡ filter_records none 0 status records
unfolding filter_records
pages-whole n o status records = simp (drop-add, take-drop) refl

-- The status that is asked for, if one is.
abbrev pub is_asked : Option String → TaskRecord → Bool
is_asked none r = true
is_asked (some status) r = str_eq (status_value r.status) status

count-with_status :
    (p : TaskRecord → Bool) (status : Option String) (l : List TaskRecord)
    → count p (filter_records none 0 status l) ≡ count (λ r. is_asked status r && p r) l
unfolding filter_records
count-with_status p none [] = refl
count-with_status p none (r ∷ rest) = ground (arith, count-with_status p none rest)
count-with_status p (some status) [] = refl
count-with_status p (some status) (r ∷ rest) =
    ground (arith, count-with_status p (some status) rest)

-- A page of `n` records behind the first `o`, for any status or none: it has at most `n` records,
-- and with the page of the `o` records before it and the page without a limit behind it, it has,
-- in that order, what the call without limit and offset returns, which are the records with the
-- status asked for, each as often as in the list, and no others; `p` stands for any test of a
-- record.
pub filter_records-pages :
    (p : TaskRecord → Bool) (n o : ℕ) (status : Option String) (records : List TaskRecord)
    → (length (filter_records (some n) o status records) ≤ n)
      × (filter_records (some o) 0 status records
            ++ (filter_records (some n) o status records
                ++ filter_records none (o + n) status records)
          ≡ filter_records none 0 status records)
      × (count p (filter_records none 0 status records)
          ≡ count (λ r. is_asked status r && p r) records)
filter_records-pages p n o status records = (
  pages-bounded n o status records,
  pages-whole n o status records,
  count-with_status p status records,
)
