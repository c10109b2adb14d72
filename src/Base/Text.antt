-- ===== src/Base/Text.antt =====
-- Text: f-strings as lists of parts, `str` of a number, and the tests on texts.
use Prim.Native.Nat.{ℕ, zero, suc, ◌/◌, ◌%◌}
use Prim.Native.String.{String, ◌++◌ as str_append}
use mathlib.Core.Bool.{Bool, true, ◌&&◌, ◌||◌}
use Prim.Native.Char.{code}
use mathlib.Core.Option.{Option, none, some}
use mathlib.Core.List.{List, [], ◌∷◌}
use text.Mathlib.Text.{◌==◌}
use conductor_engine.Base.Tests.{ltb, leb, if◌then◌else◌, ◌==◌ as nat_eq}

abbrev pub str_eq : String → String → Bool
str_eq a b = a == b

-- The parts of an f-string, joined.
unfoldable pub fstring : List String → String
fstring [] = ""
fstring (part ∷ rest) = str_append part (fstring rest)

unfoldable pub nth_text : List String → ℕ → String
nth_text [] n = ""
nth_text (t ∷ rest) zero = t
nth_text (t ∷ rest) (suc n) = nth_text rest n

abbrev pub digits : List String
digits = "0" ∷ "1" ∷ "2" ∷ "3" ∷ "4" ∷ "5" ∷ "6" ∷ "7" ∷ "8" ∷ "9" ∷ []

unfoldable pub digit : ℕ → String
unfolding nth_text
digit d = nth_text digits d

unfoldable pub decimal : ℕ → ℕ → String
decimal zero n = ""
decimal (suc fuel) n =
    let high = decimal fuel (n / 10) in
    if ltb n 10 then digit n else str_append high (digit (n % 10))

-- `str(n)`: a number has no more digits than its value plus one.
unfoldable pub show : ℕ → String
unfolding decimal digit
show n = decimal (suc n) n

-- The characters that Python's `str.isspace` accepts, by code point.
unfoldable pub is_space : ℕ → Bool
is_space c =
    (leb 9 c && leb c 13)
    || (leb 28 c && leb c 32)
    || nat_eq c 133
    || nat_eq c 160
    || nat_eq c 5760
    || (leb 8192 c && leb c 8202)
    || (leb 8232 c && leb c 8233)
    || nat_eq c 8239
    || nat_eq c 8287
    || nat_eq c 12288

-- `not s.strip()`
unfoldable pub is_blank : String → Bool
unfolding is_space
is_blank String.[] = true
is_blank (String.◌∷◌ c s) = is_space (code c) && is_blank s

-- Python's `s or d`: the empty text is falsy.
abbrev pub or_text : Option String → String → String
or_text none d = d
or_text (some s) d = if str_eq s "" then d else s
