-- ===== src/Base/Parse/Digits.antt =====
-- `int(str(n))` is `n`.
use Prim.Native.String.{String, ◌++◌ as str_append}
use text.Mathlib.TextLemmas.{cons-append, nil-append}
use conductor_engine.Base.{
  ℕ, zero, suc, ◌+◌, ◌*◌, ◌/◌, ◌%◌, ◌<◌, ◌≡◌, refl, ◌∙◌, true, ◌&&◌, arith, ltb, List, [], ◌∷◌,
  length, digits, nth_text, show, decimal, digit, Bool-cases, ltb→lt, inl, inr,
}
use conductor_engine.Base.Parse.{all_digits, number_from, int_of}

all_digits-append : (s t : String) → all_digits (str_append s t) ≡ (all_digits s && all_digits t)
unfolding all_digits
all_digits-append String.[] t = rw nil-append
all_digits-append (String.◌∷◌ c s) t = rw cons-append (ground (arith, all_digits-append s t))

number_from-append :
    (s t : String) (n : ℕ) → number_from n (str_append s t) ≡ number_from (number_from n s) t
unfolding number_from
number_from-append String.[] t n = rw nil-append
number_from-append (String.◌∷◌ c s) t n = rw cons-append (number_from-append s t _)

-- A text of one digit, and the texts of the digits from one on.
abbrev IsDigit : ℕ → String → Type 0
IsDigit d t = (all_digits t ≡ true) × ((n : ℕ) → number_from n t ≡ 10 * n + d)

abbrev AreDigits : ℕ → List String → Type 0
AreDigits d [] = Unit {0}
AreDigits d (t ∷ rest) = IsDigit d t × AreDigits (d + 1) rest

digits-AreDigits : AreDigits 0 digits
unfolding all_digits number_from
digits-AreDigits = (
  (refl, λ n. omega arith),
  (
    (refl, λ n. omega arith),
    (
      (refl, λ n. omega arith),
      (
        (refl, λ n. omega arith),
        (
          (refl, λ n. omega arith),
          (
            (refl, λ n. omega arith),
            (
              (refl, λ n. omega arith),
              (
                (refl, λ n. omega arith),
                ((refl, λ n. omega arith), ((refl, λ n. omega arith), tt)),
              ),
            ),
          ),
        ),
      ),
    ),
  ),
)

nth_text-IsDigit :
    (rest : List String) (d k : ℕ)
    → AreDigits k rest
    → d < length rest
    → IsDigit (k + d) (nth_text rest d)
unfolding nth_text
nth_text-IsDigit [] d k h lt = absurd (omega arith)
nth_text-IsDigit (t ∷ rest) zero k ((digit_, value), more) lt = (digit_, λ n. value n ∙ omega arith)
nth_text-IsDigit (t ∷ rest) (suc d) k (one, more) lt =
    let (digit_, value) = nth_text-IsDigit rest d (k + 1) more (omega arith) in
    (digit_, λ n. value n ∙ omega arith)

digit_lem : (d : ℕ) → d < 10 → IsDigit d (digit d)
unfolding digit
digit_lem d lt =
    let (digit_, value) = nth_text-IsDigit digits d 0 digits-AreDigits (omega arith) in
    (digit_, λ n. value n ∙ omega arith)

decimal_lem :
    (fuel n : ℕ)
    → n < fuel
    → (all_digits (decimal fuel n) ≡ true) × (number_from 0 (decimal fuel n) ≡ n)
unfolding decimal
decimal_lem zero n enough = absurd (omega arith)
decimal_lem (suc fuel) n enough = elim (Bool-cases (ltb n 10)) [
  | inl small ↦
      simp small
        ((digit_lem n (ltb→lt n 10 small)).0, (digit_lem n (ltb→lt n 10 small)).1 0 ∙ omega arith)
  | inr large ↦
      let (digits, value) = decimal_lem fuel (n / 10) (ground arith) in
      let (last, added) = digit_lem (n % 10) (omega arith) in
      simp large (
        all_digits-append _ _ ∙ rw (digits, last) refl,
        number_from-append _ _ 0 ∙ rw value (added (n / 10) ∙ omega arith),
      )
]

-- The text of a number is made of digits, and `int` reads the number back.
pub show_lem : (n : ℕ) → (all_digits (show n) ≡ true) × (int_of (show n) ≡ n)
unfolding show
show_lem n = decimal_lem (suc n) n (omega arith)
