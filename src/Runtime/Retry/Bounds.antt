-- ===== src/Runtime/Retry/Bounds.antt =====
-- The limits that the strategies of engine/runtime/retry.py keep: how often they retry, and when
-- they raise instead of deciding.
use conductor_engine.Base.{
  ℕ, ◌≤◌, ◌≡◌, refl, sym, String, [], ◌∷◌, Option, none, some, arith, true, false, leb, ltb, ◌&&◌,
  if◌then◌else◌, Bool-cases, inl, inr,
}
use conductor_engine.Base.Exec.{Result, ok, err, and_then}
use conductor_engine.Interfaces.Task.{TaskRecord}
use conductor_engine.Interfaces.Retry.{FailureContext, RetryDecision}
use conductor_engine.Runtime.Retry.{
  attempt_of, delay_and_reason, Floats, DefaultRetryStrategy, decide_default, Deciding,
  InputAdjustingRetryStrategy, decide_adjusting, Backoff, capped, jittered_delay,
  decide_exponential, decide_jittered,
}

-- A decision on a failure that retries it if its attempt is within the limit, and not otherwise,
-- and that does not ask for a retry and an escalation at once.
abbrev pub IsLimited : FailureContext → RetryDecision → Type 0
IsLimited failure decision =
    (decision.should_retry ≡ leb failure.attempt failure.max_retries)
    × (decision.should_retry && decision.escalate ≡ false)

-- What `decide` does if it needs what `needed` returns before it can ask for a retry: an exception
-- is that of `needed`, on a failure within the limit, and a decision is limited, and asks for a
-- retry only where `needed` has returned.
abbrev pub Judged : {A : Type 0} → Result A → FailureContext → Result RetryDecision → Type 0
Judged {A} needed failure (ok decision) =
    IsLimited failure decision × (decision.should_retry ≡ true → (a : A) × (needed ≡ ok a))
Judged needed failure (err e) = (needed ≡ err e) × (failure.attempt ≤ failure.max_retries)

-- What the strategy with an adjuster needs: the decision of the strategy that it wraps.
abbrev pub wrapped : Option Deciding → TaskRecord → FailureContext → Result (Option RetryDecision)
wrapped none task failure = ok none
wrapped (some decide) task failure = and_then (decide task failure) (λ decision. ok (some decision))

-- The shape of the three: past the limit they give up, and else they decide by what they need.
module _ {A : Type 0} (failure : FailureContext) (stop : RetryDecision) (go : A → RetryDecision)
    (ends : stop.should_retry ≡ false)
    (goes : (a : A) → ((go a).should_retry ≡ true) × ((go a).escalate ≡ false)) where
  abbrev decided : Result RetryDecision → Result RetryDecision
  decided later = if ltb failure.max_retries failure.attempt then ok stop else later

  decided-Judged :
      (needed : Result A) → Judged needed failure (decided (and_then needed (λ a. ok (go a))))
  decided-Judged (ok a) = elim (Bool-cases (ltb failure.max_retries failure.attempt)) [
    | inl past ↦ rw past ((ground arith, rw ends refl), (λ asks. (a, refl)))
    | inr within ↦ rw within ((ground (arith, goes a), ground (arith, goes a)), (λ asks. (a, refl)))
  ]
  decided-Judged (err e) = elim (Bool-cases (ltb failure.max_retries failure.attempt)) [
    | inl past ↦ rw past ((ground arith, rw ends refl), (λ asks. absurd (cc)))
    | inr within ↦ rw within (refl, ground arith)
  ]

and_then_assoc :
    {A B C : Type 0} (r : Result A) (f : A → Result B) (g : B → Result C)
    → and_then (and_then r f) g ≡ and_then r (λ a. and_then (f a) g)
and_then_assoc (ok a) f g = refl
and_then_assoc (err e) f g = refl

-- The delay and the reason that a wrapped decision gives.
abbrev given : FailureContext → Option RetryDecision → Option ℕ × Option String
given failure none = (none, some (attempt_of failure (" (adjusted input)" ∷ [])))
given failure (some d) = (d.delay_seconds, d.reason)

delay_and_reason-wrapped :
    (o : Option Deciding) (task : TaskRecord) (failure : FailureContext)
    → delay_and_reason o task failure
      ≡ and_then (wrapped o task failure) (λ d. ok (given failure d))
delay_and_reason-wrapped none task failure = refl
delay_and_reason-wrapped (some decide) task failure = sym (and_then_assoc (decide task failure) _ _)

module _ (floats : Floats) where
  exponential-Judged :
      (self : Backoff floats) (task : TaskRecord) (failure : FailureContext)
      → Judged
          (floats.growth self.multiplier failure.attempt)
          failure
          (decide_exponential floats self task failure)
  unfolding decide_exponential capped
  exponential-Judged self task failure =
      rw (and_then_assoc (floats.growth self.multiplier failure.attempt))
        (decided-Judged failure _ (λ power. _) refl (λ power. (refl, refl)) _)

  jittered-Judged :
      (self : Backoff floats) (drawn : floats.Float) (task : TaskRecord) (failure : FailureContext)
      → Judged
          (floats.growth self.multiplier failure.attempt)
          failure
          (decide_jittered floats self drawn task failure)
  unfolding decide_jittered jittered_delay capped
  jittered-Judged self drawn task failure =
      rw
        (
          and_then_assoc (capped floats self failure.attempt),
          and_then_assoc (floats.growth self.multiplier failure.attempt),
        )
        (decided-Judged failure _ (λ power. _) refl (λ power. (refl, refl)) _)

  adjusting-Judged :
      (self : InputAdjustingRetryStrategy) (task : TaskRecord) (failure : FailureContext)
      → Judged (wrapped self.base task failure) failure (decide_adjusting self task failure)
  unfolding decide_adjusting
  adjusting-Judged self task failure =
      rw (delay_and_reason-wrapped, and_then_assoc)
        (decided-Judged failure _ (λ d. _) refl (λ d. (refl, refl)) _)

  -- The four strategies, whatever they wrap or draw, on any failure. The default strategy decides:
  -- it retries exactly if the attempt is within the limit of the task, and never asks for both a
  -- retry and an escalation. The three others decide likewise, unless the attempt is within the
  -- limit and what they compute first raises, and then they raise the same exception: for the two
  -- backoffs the power of the multiplier, whose OverflowError `max_delay` does not prevent, and for
  -- the adjusting strategy the strategy that it wraps.
  pub decide-IsLimited :
      (plain : DefaultRetryStrategy) (adjusting : InputAdjustingRetryStrategy)
      (timed : Backoff floats) (drawn : floats.Float) (task : TaskRecord) (failure : FailureContext)
      → IsLimited failure (decide_default plain task failure)
        × Judged
            (wrapped adjusting.base task failure)
            failure
            (decide_adjusting adjusting task failure)
        × Judged
            (floats.growth timed.multiplier failure.attempt)
            failure
            (decide_exponential floats timed task failure)
        × Judged
            (floats.growth timed.multiplier failure.attempt)
            failure
            (decide_jittered floats timed drawn task failure)
  unfolding decide_default
  decide-IsLimited plain adjusting timed drawn task failure = (
    (ground arith, ground arith),
    adjusting-Judged adjusting task failure,
    exponential-Judged timed task failure,
    jittered-Judged timed drawn task failure,
  )
