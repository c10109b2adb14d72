-- ===== src/Scheduler/Cron/Fields.antt =====
-- The cron expressions that engine/runtime/scheduler.py supports, and what their fields match.
use Prim.Native.String.{String}
use text.Mathlib.TextLemmas.{cons≢nil, tail-eq_of_cons-eq}
use conductor_engine.Base.{
  ℕ, zero, suc, ◌%◌, ◌+◌, ◌≡◌, ◌≢◌, refl, sym, ap, ◌∙◌, List, [], ◌∷◌, none, some, Bool, true,
  false, not, ◌&&◌, leb, ◌==◌, any, all, map, arith, str_eq, eq_iff, show, inl, inr, Bool-cases,
  is_space,
}
use conductor_engine.Base.Exec.{ok}
use conductor_engine.Base.Parse.{
  all_digits, number_from, int_of, split_where, strip_left, strip_right,
}
use conductor_engine.Base.Parse.Digits.{show_lem}
use conductor_engine.Base.Parse.Pieces.{
  free, split_where-free, split_commas-listed, listed, strip-free, strip-show, show-free,
}
use conductor_engine.Scheduler.Cron.{
  Range, every, literal, step_text, read_step, read_token, candidate_of, test_token, match_tokens,
  field_matches, CronSchedule, Calendar, range, matches, and_also,
}

-- A field as the documentation of `CronSchedule` has it: `*`, `*/n`, or values with commas.
pub data Field : Type 0 where
  star : Field
  steps : ℕ → Field
  values : ℕ → List ℕ → Field

unfoldable pub print : Field → String
print star = "*"
print (steps n) = String.◌∷◌ "*" (String.◌∷◌ "/" (show n))
print (values n rest) = listed n rest

-- What a field means.
unfoldable pub holds : (value : ℕ) → Range → Field → Bool
holds value range star = true
holds value range (steps n) = value % n == 0
holds value range (values n rest) = any (λ m. value == candidate_of range m) (n ∷ rest)

-- A value that a range allows, and a field all of whose numbers are allowed.
abbrev pub allows : Range → ℕ → Bool
allows range n =
    leb range.minimum (candidate_of range n) && leb (candidate_of range n) range.maximum

abbrev pub is_valid : Range → Field → Bool
is_valid range star = true
is_valid range (steps n) = not (n == 0)
is_valid range (values n rest) = all (allows range) (n ∷ rest)

differs : (s t : String) → s ≢ t → str_eq s t ≡ false
differs s t ne = elim (Bool-cases (str_eq s t)) [
  | inl same ↦ absurd (ne ((eq_iff s t).0 same))
  | inr other ↦ other
]

show-ne : (n : ℕ) (t : String) → all_digits t ≡ false → str_eq (show n) t ≡ false
show-ne n t no_digits = differs (show n) t (λ e. cc (ap all_digits e, (show_lem n).0, no_digits))

show_nonempty : (n : ℕ) → str_eq (show n) "" ≡ false
show_nonempty zero = unfold show in refl
show_nonempty (suc n) = differs (show (suc n)) "" (λ e.
    let read : suc n ≡ int_of "" = sym (show_lem (suc n)).1 ∙ ap int_of e in
    unfold number_from in omega (arith, read))

step_text-all_digits : (s : String) → all_digits s ≡ true → step_text s ≡ none
unfolding step_text
step_text-all_digits String.[] e = refl
step_text-all_digits (String.◌∷◌ a String.[]) e = refl
step_text-all_digits (String.◌∷◌ a (String.◌∷◌ b rest)) e =
    let other : str_eq (String.◌∷◌ a (String.◌∷◌ b "")) "*/" ≡ false = differs _ "*/" (λ p.
      let same : all_digits (String.◌∷◌ a (String.◌∷◌ b "")) ≡ all_digits "*/" = ap all_digits p in
      unfold all_digits in ground (arith, same, e)) in
    simp other refl

read_token-show : (n : ℕ) → read_token (show n) ≡ ok (literal n)
unfolding read_token all_digits
read_token-show n =
    let (digits, value) = show_lem n in
    simp (show_nonempty n, show-ne n "*" refl, step_text-all_digits (show n) digits, digits, value)
      refl

-- The star and the slash of a step are no blanks, no commas and no digits.
starred : (n : ℕ) → str_eq (print (steps n)) "" ≡ false
unfolding print
starred n = differs _ "" cons≢nil

starred_ne : (n : ℕ) → str_eq (print (steps n)) "*" ≡ false
unfolding print
starred_ne n = differs _ "*" (λ e. cons≢nil (tail-eq_of_cons-eq e))

starred-free :
    (p : ℕ → Bool) (n : ℕ)
    → p b'*' ≡ false
    → p b'/' ≡ false
    → free p (show n) ≡ true
    → free p (print (steps n)) ≡ true
unfolding print free
starred-free p n star_ slash rest = simp (star_, slash, rest) refl

step_text-steps : (n : ℕ) → step_text (print (steps n)) ≡ some (show n)
unfolding step_text print
step_text-steps n = refl

read_step-show :
    (token : String) (n : ℕ) → not (n == 0) ≡ true → read_step token (show n) ≡ ok (every n)
unfolding read_step
read_step-show token n positive =
    let (digits, value) = show_lem n in
    simp (show_nonempty n, digits, value) (ground (arith, positive))

read_token-steps : (n : ℕ) → not (n == 0) ≡ true → read_token (print (steps n)) ≡ ok (every n)
unfolding read_token
read_token-steps n positive =
    simp (starred n, starred_ne n, step_text-steps n, read_step-show (print (steps n)) n positive)
      refl

-- The tokens of a list of allowed values are tried one after the other.
match_tokens-values :
    (v : ℕ) (r : Range) (spec : String) (l : List ℕ)
    → all (allows r) l ≡ true
    → match_tokens v r spec (map show l) ≡ ok (any (λ m. v == candidate_of r m) l)
unfolding match_tokens test_token
match_tokens-values v r spec [] e = refl
match_tokens-values v r spec (n ∷ rest) e =
    let later = match_tokens-values v r spec rest (ground arith) in
    simp (strip-show, read_token-show, later) (ground (arith, e))

field_matches-steps :
    (v : ℕ) (r : Range) (n : ℕ)
    → not (n == 0) ≡ true
    → field_matches v (print (steps n)) r ≡ ok (v % n == 0)
unfolding field_matches match_tokens test_token
field_matches-steps v r n positive =
    let whole =
      split_where-free (λ c. c == b',') (print (steps n))
        (starred-free (λ c. c == b',') n refl refl (show-free _ n (λ c e. ground arith))) in
    let bare = strip-free (print (steps n)) (
      unfold is_space in
      starred-free is_space n refl refl (show-free is_space n (λ c e. ground arith))) in
    simp (whole, bare, read_token-steps n positive) refl

-- What `_field_matches` says of a printed field is what the field means.
pub field_matches-print :
    (v : ℕ) (r : Range) (f : Field)
    → is_valid r f ≡ true
    → field_matches v (print f) r ≡ ok (holds v r f)
unfolding holds
field_matches-print v r star e =
    unfold field_matches print match_tokens test_token read_token split_where strip_left strip_right
      is_space in
    refl
field_matches-print v r (steps n) e = field_matches-steps v r n e
field_matches-print v r (values n rest) e =
    unfold field_matches print in
    (simp split_commas-listed (match_tokens-values v r _ (n ∷ rest) e))

-- A schedule of printed fields.
abbrev pub printed : (minute hour day month weekday : Field) → CronSchedule
printed minute hour day month weekday = record {
  expression = "";
  minute = print minute;
  hour = print hour;
  day = print day;
  month = print month;
  weekday = print weekday;
}

abbrev pub weekdays : Range
weekdays = record { minimum = 0; maximum = 6; allow_weekday_7 = true }

and_also-ok : (a b : Bool) → and_also (ok a) (ok b) ≡ ok (a && b)
and_also-ok true b = refl
and_also-ok false b = refl

-- A schedule whose five fields are printed, with numbers that are allowed, matches a time exactly
-- if each field holds of its part of the time, with Sunday as weekday 0, and raises nothing.
pub matches-print :
    (minute hour day month weekday : Field) (at : Calendar)
    → is_valid (range 0 59) minute ≡ true
    → is_valid (range 0 23) hour ≡ true
    → is_valid (range 1 31) day ≡ true
    → is_valid (range 1 12) month ≡ true
    → is_valid weekdays weekday ≡ true
    → matches (printed minute hour day month weekday) at
      ≡ ok (
          holds at.minute (range 0 59) minute
          && (holds at.hour (range 0 23) hour
              && (holds at.day (range 1 31) day
                  && (holds at.month (range 1 12) month
                      && holds ((at.weekday + 1) % 7) weekdays weekday))))
unfolding matches
matches-print minute hour day month weekday at m h d mo w =
    simp
      (
        field_matches-print at.minute (range 0 59) minute m,
        field_matches-print at.hour (range 0 23) hour h,
        field_matches-print at.day (range 1 31) day d,
        field_matches-print at.month (range 1 12) month mo,
        field_matches-print ((at.weekday + 1) % 7) weekdays weekday w,
        and_also-ok,
      )
      refl
