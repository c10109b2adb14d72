-- ===== src/Scheduler/Cron.antt =====
-- `CronSchedule` of engine/runtime/scheduler.py and its matching of fields.
pub mod Fields
pub mod Checks
use conductor_engine.Base.{
  ℕ, ◌%◌, ◌+◌, String, List, [], ◌∷◌, Option, none, some, Bool, true, false, ◌&&◌, ◌||◌, ltb, leb,
  ◌==◌, str_eq, fstring, show, if◌then◌else◌,
}
use conductor_engine.Base.Exec.{Exn, Result, ok, err, value_error, and_then}
use conductor_engine.Base.Parse.{split_commas, words, strip, isdigit, int_of, quoted}

-- The keyword arguments of `_field_matches`.
pub record Range : Type 0 where
  pub minimum : ℕ
  pub maximum : ℕ
  pub allow_weekday_7 : Bool

-- What a token of a field says: nothing, every value, the multiples of a step, or one value.
pub data Token : Type 0 where
  empty : Token
  any_value : Token
  every : ℕ → Token
  literal : ℕ → Token

-- The text behind `*/`, if a token starts so.
unfoldable pub step_text : String → Option String
step_text String.[] = none
step_text (String.◌∷◌ a String.[]) = none
step_text (String.◌∷◌ a (String.◌∷◌ b rest)) =
    if str_eq (String.◌∷◌ a (String.◌∷◌ b "")) "*/" then some rest else none

unfoldable pub read_step : (token step_str : String) → Result Token
read_step token step_str =
    if isdigit step_str
    then (if int_of step_str == 0
        then err (value_error (fstring ("Step must be > 0 in " ∷ quoted token ∷ [])))
        else ok (every (int_of step_str)))
    else err (value_error (fstring ("Invalid step value " ∷ quoted token ∷ [])))

-- The branch of `_field_matches` that a stripped token takes.
unfoldable pub read_token : String → Result Token
unfolding step_text read_step
read_token token =
    if str_eq token ""
    then ok empty
    else if str_eq token "*"
    then ok any_value
    else elim (step_text token) [
      | some step_str ↦ read_step token step_str
      | none ↦
          if isdigit token
          then ok (literal (int_of token))
          else err (value_error (fstring ("Unsupported cron token " ∷ quoted token ∷ [])))
    ]

-- `if allow_weekday_7 and candidate == 7: candidate = 0`
abbrev pub candidate_of : Range → ℕ → ℕ
candidate_of range n = if range.allow_weekday_7 && n == 7 then 0 else n

abbrev pub out_of_range : ℕ → String → Exn
out_of_range candidate field_spec =
    value_error
      (fstring ("Value " ∷ show candidate ∷ " out of range for field " ∷ quoted field_spec ∷ []))

-- What a token makes of a value, where `later` is what the tokens behind it make of it.
unfoldable pub test_token :
    (value : ℕ) → Range → String → (later : Result Bool) → Token → Result Bool
test_token value range field_spec later empty = later
test_token value range field_spec later any_value = ok true
test_token value range field_spec later (every step) = ok (value % step == 0)
test_token value range field_spec later (literal n) =
    let candidate = candidate_of range n in
    if ltb candidate range.minimum || ltb range.maximum candidate
    then err (out_of_range candidate field_spec)
    else if value == candidate
    then ok true
    else later

-- The loop over the tokens.
unfoldable pub match_tokens : (value : ℕ) → Range → String → List String → Result Bool
match_tokens value range field_spec [] = ok false
match_tokens value range field_spec (part ∷ rest) =
    let later = match_tokens value range field_spec rest in
    and_then (read_token (strip part)) (test_token value range field_spec later)

-- `_field_matches`
unfoldable pub field_matches : (value : ℕ) → (field_spec : String) → Range → Result Bool
field_matches value field_spec range = match_tokens value range field_spec (split_commas field_spec)

pub record CronSchedule : Type 0 where
  pub expression : String
  pub minute : String
  pub hour : String
  pub day : String
  pub month : String
  pub weekday : String

-- The fields of a datetime in UTC that the schedule reads, with Monday as weekday 0.
pub record Calendar : Type 0 where
  pub year : ℕ
  pub month : ℕ
  pub day : ℕ
  pub hour : ℕ
  pub minute : ℕ
  pub weekday : ℕ

abbrev pub range : ℕ → ℕ → Range
range minimum maximum = record { minimum = minimum; maximum = maximum; allow_weekday_7 = false }

-- `a and b`, where `b` is asked only if `a` is true.
abbrev pub and_also : Result Bool → Result Bool → Result Bool
and_also (ok true) r = r
and_also (ok false) r = ok false
and_also (err e) r = err e

-- `CronSchedule.matches`
unfoldable pub matches : CronSchedule → Calendar → Result Bool
matches self check = and_also (field_matches check.minute self.minute (range 0 59)) (
    and_also (field_matches check.hour self.hour (range 0 23)) (
      and_also (field_matches check.day self.day (range 1 31)) (
        and_also (field_matches check.month self.month (range 1 12)) (
          field_matches ((check.weekday + 1) % 7) self.weekday
            (record { minimum = 0; maximum = 6; allow_weekday_7 = true })))))

abbrev pub wrong_fields : Exn
wrong_fields = value_error "Cron expression must have 5 fields: minute hour day month weekday"

-- The date of the early check, a Thursday.
abbrev pub check_date : Calendar
check_date = record { year = 2026; month = 1; day = 1; hour = 0; minute = 0; weekday = 3 }

-- The unpacking of the five fields.
unfoldable pub fields_of : String → List String → Result CronSchedule
fields_of expression (minute ∷ hour ∷ day ∷ month ∷ weekday ∷ []) = ok (record {
  expression = expression;
  minute = minute;
  hour = hour;
  day = day;
  month = month;
  weekday = weekday;
})
fields_of expression _ = err wrong_fields

-- `CronSchedule.__init__`
unfoldable pub cron_schedule : String → Result CronSchedule
cron_schedule expression =
    and_then (fields_of expression (words expression))
      (λ self. and_then (matches self check_date) (λ _. ok self))
