-- ===== src/Base/Parse.antt =====
-- Reading text: Python's `str.split`, `str.strip`, `str.isdigit` and `int` of decimal digits.
pub mod Digits
pub mod Pieces
use Prim.Native.String.{String}
use Prim.Native.Char.{Char, code}
use conductor_engine.Base.{
  ℕ, ◌+◌, ◌-◌, ◌*◌, List, [], ◌∷◌, Bool, true, false, not, ◌&&◌, leb, ◌==◌, str_eq, keep, fstring,
  is_space, if◌then◌else◌,
}

abbrev pub is_empty : String → Bool
is_empty s = str_eq s ""

-- A character before the first of some pieces.
abbrev pub onto_first : Char → List String → List String
onto_first c [] = String.◌∷◌ c "" ∷ []
onto_first c (piece ∷ rest) = String.◌∷◌ c piece ∷ rest

-- `s.split(sep)`, where the separators are the characters that pass a test.
unfoldable pub split_where : (ℕ → Bool) → String → List String
split_where p String.[] = "" ∷ []
split_where p (String.◌∷◌ c s) =
    let rest = split_where p s in if p (code c) then "" ∷ rest else onto_first c rest

abbrev pub split_commas : String → List String
split_commas = split_where (λ c. c == b',')

-- `s.split()`
abbrev pub words : String → List String
words s = keep (λ w. not (is_empty w)) (split_where is_space s)

unfoldable pub strip_left : String → String
strip_left String.[] = ""
strip_left (String.◌∷◌ c s) =
    let rest = strip_left s in if is_space (code c) then rest else String.◌∷◌ c s

unfoldable pub strip_right : String → String
strip_right String.[] = ""
strip_right (String.◌∷◌ c s) =
    let rest = strip_right s in if is_space (code c) && is_empty rest then "" else String.◌∷◌ c rest

abbrev pub strip : String → String
strip s = strip_right (strip_left s)

abbrev pub is_digit : ℕ → Bool
is_digit c = leb 48 c && leb c 57

unfoldable pub all_digits : String → Bool
all_digits String.[] = true
all_digits (String.◌∷◌ c s) = is_digit (code c) && all_digits s

-- `s.isdigit()`, for texts whose digits are the decimal ones of ASCII.
abbrev pub isdigit : String → Bool
isdigit s = not (is_empty s) && all_digits s

-- The number that digits stand for, behind those that were read.
unfoldable pub number_from : ℕ → String → ℕ
number_from n String.[] = n
number_from n (String.◌∷◌ c s) = number_from (10 * n + (code c - 48)) s

-- `int(s)` of a text of digits.
abbrev pub int_of : String → ℕ
int_of = number_from 0

-- `repr` of a text without quotes, backslashes and control characters.
abbrev pub quoted : String → String
quoted s = fstring ("'" ∷ s ∷ "'" ∷ [])
