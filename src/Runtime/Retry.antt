-- ===== src/Runtime/Retry.antt =====
-- engine/runtime/retry.py: the retry strategies. A strategy object is a record of its attributes,
-- and `decide` of each class is a function of that record.
pub mod Bounds
pub mod Delays
use conductor_engine.Base.{
  ℕ, zero, suc, ◌≤◌, String, ◌≡◌, List, [], ◌∷◌, Option, none, some, Bool, true, false, ◌&&◌, leb,
  ltb, if◌then◌else◌, fstring, show,
}
use conductor_engine.Base.Exec.{Result, ok, err, value_error, and_then}
use conductor_engine.Json.{Json}
use conductor_engine.Interfaces.Task.{TaskRecord}
use conductor_engine.Interfaces.Retry.{FailureContext, RetryDecision, RetryStrategy}

-- The floats of Python that are not NaN: `growth m n` is `m ** (n - 1)`, which raises OverflowError
-- where the power of finite floats is beyond their range, `micros` the microseconds that a delay in
-- seconds stands for, and the last two are the formats `.2f` and `.3f`.
pub record Floats : Type 1 where
  pub Float : Type 0
  pub zero_ : Float
  pub one : Float
  pub times : Float → Float → Float
  pub plus : Float → Float → Float
  pub growth : Float → ℕ → Result Float
  pub at_most : Float → Float → Bool
  pub micros : Float → ℕ
  pub two_places : Float → String
  pub three_places : Float → String

-- What the strategies share: `should_escalate` of an attempt beyond the limit.
abbrev past_threshold : Option ℕ → ℕ → Bool
past_threshold none attempt = true
past_threshold (some n) attempt = leb n attempt

abbrev exhausted : (enable : Bool) (threshold : Option ℕ) → FailureContext → RetryDecision
exhausted enable threshold failure = record {
  should_retry = false;
  delay_seconds = none;
  adjusted_input = none;
  reason = some "Retry attempts exhausted";
  escalate = enable && past_threshold threshold failure.attempt;
}

abbrev pub attempt_of : FailureContext → List String → String
attempt_of failure more =
    fstring ("Retry " ∷ show failure.attempt ∷ " of " ∷ show failure.max_retries ∷ more)

abbrev retry_after : Option ℕ → Option Json → Option String → RetryDecision
retry_after delay adjusted reason = record {
  should_retry = true;
  delay_seconds = delay;
  adjusted_input = adjusted;
  reason = reason;
  escalate = false;
}

pub record DefaultRetryStrategy : Type 0 where
  pub enable_escalation : Bool
  pub escalation_threshold : Option ℕ

unfoldable pub decide_default : DefaultRetryStrategy → RetryStrategy
decide_default self task failure =
    if ltb failure.max_retries failure.attempt
    then exhausted self.enable_escalation self.escalation_threshold failure
    else retry_after none none (some (attempt_of failure []))

-- A `decide` that may raise.
abbrev pub Deciding : Type 0
Deciding = TaskRecord → FailureContext → Result RetryDecision

-- `adjuster` looks at the failure only and does not raise. `base` is the `decide` of the wrapped
-- strategy.
pub record InputAdjustingRetryStrategy : Type 0 where
  pub adjuster : FailureContext → Option Json
  pub base : Option Deciding
  pub enable_escalation : Bool
  pub escalation_threshold : Option ℕ

-- The delay and the reason, from the wrapped strategy if there is one.
abbrev pub delay_and_reason :
    Option Deciding → TaskRecord → FailureContext → Result (Option ℕ × Option String)
delay_and_reason none task failure = ok (none, some (attempt_of failure (" (adjusted input)" ∷ [])))
delay_and_reason (some decide) task failure =
    and_then (decide task failure) (λ decision. ok (decision.delay_seconds, decision.reason))

unfoldable pub decide_adjusting : InputAdjustingRetryStrategy → Deciding
decide_adjusting self task failure =
    if ltb failure.max_retries failure.attempt
    then ok (exhausted self.enable_escalation self.escalation_threshold failure)
    else and_then (delay_and_reason self.base task failure)
        (λ found. ok (retry_after found.0 (self.adjuster failure) found.1))

module _ (floats : Floats) where
  open floats use {Float, one, zero_, times, growth, at_most, micros, two_places, three_places}

  -- `ExponentialBackoffRetryStrategy` and `JitteredBackoffRetryStrategy` have the same attributes,
  -- the second also a `random_fn`.
  pub record Backoff : Type 0 where
    pub base_delay : Float
    pub multiplier : Float
    pub max_delay : Float
    pub enable_escalation : Bool
    pub escalation_threshold : Option ℕ

  -- `__init__` of both classes.
  unfoldable pub backoff : Backoff → Result Backoff
  backoff self =
      if at_most self.base_delay zero_
      then err (value_error "base_delay must be > 0")
      else if at_most one self.multiplier
      then (if at_most self.base_delay self.max_delay
          then ok self
          else err (value_error "max_delay must be >= base_delay"))
      else err (value_error "multiplier must be >= 1.0")

  abbrev pub smaller : Float → Float → Float
  smaller raw limit = if at_most raw limit then raw else limit

  -- `min(base_delay * multiplier ** (attempt - 1), max_delay)`: the power is computed first, and
  -- raises before the minimum is taken.
  unfoldable pub capped : Backoff → ℕ → Result Float
  capped self attempt =
      and_then (growth self.multiplier attempt)
        (λ power. ok (smaller (times self.base_delay power) self.max_delay))

  unfoldable pub decide_exponential : Backoff → Deciding
  decide_exponential self task failure =
      if ltb failure.max_retries failure.attempt
      then ok (exhausted self.enable_escalation self.escalation_threshold failure)
      else and_then (capped self failure.attempt) (λ delay. ok (
          retry_after (some (micros delay)) none
            (some (attempt_of failure (" after " ∷ two_places delay ∷ "s" ∷ [])))))

  -- `drawn` is what `random_fn()` returns in this call.
  unfoldable pub jittered_delay : Backoff → (drawn : Float) → ℕ → Result Float
  jittered_delay self drawn attempt = and_then (capped self attempt) (λ cap_. ok (times drawn cap_))

  unfoldable pub decide_jittered : Backoff → (drawn : Float) → Deciding
  decide_jittered self drawn task failure =
      if ltb failure.max_retries failure.attempt
      then ok (exhausted self.enable_escalation self.escalation_threshold failure)
      else and_then (jittered_delay self drawn failure.attempt) (λ delay. ok (
          retry_after (some (micros delay)) none
            (some (attempt_of failure (" after " ∷ three_places delay ∷ "s (jittered)" ∷ [])))))
