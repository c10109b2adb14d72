-- ===== src/Base/Parse/Pieces.antt =====
-- Splitting and stripping texts without separators and blanks, such as the digits of numbers.
use Prim.Native.String.{String, ◌++◌ as str_append}
use Prim.Native.Char.{Char, code}
use text.Mathlib.TextLemmas.{cons-append, nil-append}
use conductor_engine.Base.{
  ℕ, ◌≡◌, refl, ap, ◌∙◌, List, [], ◌∷◌, Bool, true, false, not, ◌&&◌, arith, ◌==◌, is_space, show,
  map,
}
use conductor_engine.Base.Parse.{
  split_where, split_commas, strip_left, strip_right, strip, is_digit, all_digits,
}
use conductor_engine.Base.Parse.Digits.{show_lem}

-- No character of the text passes the test.
unfoldable pub free : (ℕ → Bool) → String → Bool
free p String.[] = true
free p (String.◌∷◌ c s) = not (p (code c)) && free p s

free-all_digits :
    (p : ℕ → Bool) (s : String)
    → ((c : ℕ) → is_digit c ≡ true → p c ≡ false)
    → all_digits s ≡ true
    → free p s ≡ true
unfolding free all_digits
free-all_digits p String.[] h e = refl
free-all_digits p (String.◌∷◌ c s) h e = ground (arith, h (code c), free-all_digits p s h)

free-cons :
    (p : ℕ → Bool) (c : Char) (s : String)
    → free p (String.◌∷◌ c s) ≡ true
    → (p (code c) ≡ false) × (free p s ≡ true)
unfolding free
free-cons p c s e = (ground arith, ground arith)

pub split_where-free : (p : ℕ → Bool) (s : String) → free p s ≡ true → split_where p s ≡ s ∷ []
unfolding split_where free
split_where-free p String.[] e = refl
split_where-free p (String.◌∷◌ c s) e =
    let (other, rest) = free-cons p c s e in simp (other, split_where-free p s rest) refl

pub split_where-append :
    (p : ℕ → Bool) (s : String) (c : Char) (t : String)
    → free p s ≡ true
    → p (code c) ≡ true
    → split_where p (str_append s (String.◌∷◌ c t)) ≡ s ∷ split_where p t
unfolding split_where free
split_where-append p String.[] c t e sep = rw nil-append (ground arith)
split_where-append p (String.◌∷◌ d s) c t e sep =
    let (other, rest) = free-cons p d s e in
    rw cons-append (simp (other, split_where-append p s c t rest sep) refl)

strip_right-free : (s : String) → free is_space s ≡ true → strip_right s ≡ s
unfolding strip_right free
strip_right-free String.[] e = refl
strip_right-free (String.◌∷◌ c s) e =
    let (other, rest) = free-cons is_space c s e in simp (other, strip_right-free s rest) refl

pub strip-free : (s : String) → free is_space s ≡ true → strip s ≡ s
unfolding strip_left free
strip-free String.[] e = unfold strip_right in refl
strip-free (String.◌∷◌ c s) e =
    simp (free-cons is_space c s e).0 (strip_right-free (String.◌∷◌ c s) e)

-- The digits of a number hold no separator that is not a digit, and no blank.
pub show-free :
    (p : ℕ → Bool) (n : ℕ) → ((c : ℕ) → is_digit c ≡ true → p c ≡ false) → free p (show n) ≡ true
show-free p n h = free-all_digits p (show n) h (show_lem n).0

pub strip-show : (n : ℕ) → strip (show n) ≡ show n
strip-show n = strip-free (show n) (show-free is_space n (λ c e. unfold is_space in ground arith))

-- Numbers behind each other with commas between them, as in a list of a cron field.
unfoldable pub listed : ℕ → List ℕ → String
listed n [] = show n
listed n (m ∷ rest) = str_append (show n) (String.◌∷◌ "," (listed m rest))

pub split_commas-listed :
    (n : ℕ) (rest : List ℕ) → split_commas (listed n rest) ≡ show n ∷ map show rest
unfolding listed
split_commas-listed n [] =
    split_where-free (λ c. c == b',') (show n) (show-free (λ c. c == b',') n (λ c e. ground arith))
split_commas-listed n (m ∷ rest) =
    split_where-append (λ c. c == b',') (show n) "," (listed m rest)
      (show-free (λ c. c == b',') n (λ c e. ground arith)) refl
    ∙ ap (λ l. show n ∷ l) (split_commas-listed m rest)
