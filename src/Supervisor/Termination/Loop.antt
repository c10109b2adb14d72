-- ===== src/Supervisor/Termination/Loop.antt =====
-- The loop of `run_task` ends, for a strategy that stops at the retry limit, after as many runs of
-- the capability as there are attempts left.
use mathlib.Core.Bool.{false≢true}
use mathlib.Core.Path.{subst₂}
use native.Mathlib.Decide.{dec_le}
use conductor_engine.Base.{
  sym, ◌≢◌, ℕ, zero, suc, ◌+◌, ◌≤◌, ◌<◌, String, ◌≡◌, refl, ap, ◌∙◌, List, Option, none, arith,
  Bool, true, false, ◌||◌, inl, inr, Bool-cases,
}
use conductor_engine.Base.Exec.{Exn, Result, ok, err, Outcome, done, raised, out_of_fuel, Exec}
use conductor_engine.Base.Ends.{Ends, Ends-bind, Ends-weaken}
use conductor_engine.Interfaces.Task.{TaskRecord}
use conductor_engine.Interfaces.Retry.{FailureContext, RetryDecision, RetryStrategy}
use conductor_engine.Interfaces.Policy.{Capability, CapabilityExecutionControls}
use conductor_engine.Supervisor.State.{Config, State}
use conductor_engine.Supervisor.Record.{
  append_audit, save_task, publish_failures, do_escalate, finish_failed,
}
use conductor_engine.Supervisor.Execution.{
  Turn, finished, again, exhausted, failure_context, record_failure, next_attempt, mark_retry,
  should_escalate, escalate_turn, give_up, retry, follow, except_block, after_try, turn, after_turn,
  loop,
}
use conductor_engine.Supervisor.Termination.{
  try_block-TryCost, runs-record_failure, runs-mark_retry, runs-mark_escalated, runs-mark_failed,
  runs-publish_failures,
}

-- The strategy does not retry an attempt beyond the limit.
abbrev pub IsBounded : RetryStrategy → Type 0
IsBounded strategy =
    (t : TaskRecord) (f : FailureContext)
    → f.max_retries < f.attempt
    → (strategy t f).should_retry ≡ false

module _ {S G : Type 0} (config : Config S G) where
  abbrev pub Within : ℕ → State S G → Type 0
  Within n s = s.runs ≤ n

  -- After a turn of a task at `attempt` of `max_retries`, with `n` runs so far.
  abbrev Turned : (attempt max_retries n : ℕ) → Turn → State S G → Type 0
  Turned a m n (finished t) s = s.runs ≤ n
  Turned a m n (exhausted t h e) s = s.runs ≤ n
  Turned a m n (again t h) s = (s.runs ≤ n) × (a ≤ m) × (t.attempt ≡ a + 1) × (t.max_retries ≡ m)

  Ends-same :
      (n : ℕ) (r : Outcome (Unit {0}) × State S G) (h : r.1.runs ≤ n) (o : r.0 ≢ out_of_fuel)
      → Ends (λ _. Within n) (Within n) r
  Ends-same n (done a, s) h o = h
  Ends-same n (raised e, s) h o = h
  Ends-same n (out_of_fuel, s) h o = o refl

  publish_failures-Ends :
      (n : ℕ) (h : List FailureContext) (hint : String) (t : TaskRecord) (s : State S G)
      → s.runs ≤ n
      → Ends (λ _. Within n) (Within n) (publish_failures config h hint t s)
  publish_failures-Ends n h hint t s le =
      Ends-same n _ (omega (arith, runs-publish_failures config h hint t s))
        (unfold publish_failures in λ e. ground arith)

  escalate_turn-Turned :
      (a m n : ℕ) (h : List FailureContext) (k : ℕ) (e : Exn) (r : Option String) (t : TaskRecord)
      (s : State S G)
      → s.runs ≤ n
      → Ends (Turned a m n) (Within n) (escalate_turn config h k e r t s)
  unfolding escalate_turn do_escalate
  escalate_turn-Turned a m n h k e r t s le =
      Ends-bind (λ _. Within n) (Turned a m n) (Within n) (do_escalate config h k e r t) _ s
        (Ends-bind (λ _. Within n) (λ _. Within n) (Within n) (publish_failures config h _ _) _ _
          (publish_failures-Ends n h _ _ _ (omega (arith, runs-mark_escalated config h k e r t s)))
          (λ _ u held. held))
        (λ _ u held. held)

  finish_failed-Ends :
      (n : ℕ) (h : List FailureContext) (k : ℕ) (e : Exn) (t : TaskRecord) (s : State S G)
      → s.runs ≤ n
      → Ends (λ _. Within n) (Within n) (finish_failed config h k e t s)
  unfolding finish_failed
  finish_failed-Ends n h k e t s le =
      Ends-bind (λ _. Within n) (λ _. Within n) (Within n) (publish_failures config h _ t) _ s
        (publish_failures-Ends n h _ t s le)
        (λ _ u held. omega (arith, runs-mark_failed config k e t u))

  give_up-Turned :
      (a m n : ℕ) (h : List FailureContext) (k : ℕ) (e : Exn) (d : RetryDecision) (t : TaskRecord)
      (s : State S G)
      → s.runs ≤ n
      → Ends (Turned a m n) (Within n) (give_up config h k e d t s)
  unfolding give_up
  give_up-Turned a m n h k e d t s le =
      elim (Bool-cases (d.escalate || should_escalate config t h)) [
        | inl y ↦ rw y (escalate_turn-Turned a m n h k e _ t s le)
        | inr z ↦ rw z le
      ]

  next_attempt-attempt :
      (d : RetryDecision) (t : TaskRecord)
      → ((next_attempt config d t).attempt ≡ t.attempt + 1)
        × ((next_attempt config d t).max_retries ≡ t.max_retries)
  unfolding next_attempt
  next_attempt-attempt d t = (ground arith, ground arith)

  retry-Turned :
      (a m n : ℕ) (h : List FailureContext) (k : ℕ) (e : Exn) (d : RetryDecision) (t : TaskRecord)
      (s : State S G)
      → s.runs ≤ n
      → a ≤ m
      → t.attempt ≡ a + 1
      → t.max_retries ≡ m
      → Ends (Turned a m n) (Within n) (retry config h k e d t s)
  unfolding retry
  retry-Turned a m n h k e d t s le room next limit =
      elim (Bool-cases (should_escalate config t h)) [
        | inl y ↦ rw y (escalate_turn-Turned a m n h k e none t s le)
        | inr z ↦ rw z (
          omega (arith, runs-mark_retry config e d t s),
          room,
          unfold mark_retry append_audit save_task in next,
          unfold mark_retry append_audit save_task in limit,
        )
      ]

  follow-Turned :
      (a m n : ℕ) (h : List FailureContext) (k : ℕ) (e : Exn) (b : Bool) (d : RetryDecision)
      (t : TaskRecord) (s : State S G)
      → s.runs ≤ n
      → (b ≡ true → a ≤ m)
      → t.attempt ≡ a
      → t.max_retries ≡ m
      → Ends (Turned a m n) (Within n) (follow config h k e b d t s)
  unfolding follow
  follow-Turned a m n h k e true d t s le room now_ limit =
      let (next, kept) = next_attempt-attempt d t in
      retry-Turned a m n h k e d _ s le (room refl) (next ∙ ap (λ x. x + 1) now_) (kept ∙ limit)
  follow-Turned a m n h k e false d t s le room now_ limit = give_up-Turned a m n h k e d t s le

  module _ (bounded : IsBounded config.retry_strategy) where
    except_block-Turned :
        (n : ℕ) (h : List FailureContext) (k : ℕ) (e : Exn) (t : TaskRecord) (s : State S G)
        → s.runs ≤ n
        → Ends (Turned t.attempt t.max_retries n) (Within n) (except_block config h k e t s)
    unfolding except_block
    except_block-Turned n h k e t s le =
        let f = failure_context config e t in
        let (held, u) = record_failure config f t s in
        follow-Turned t.attempt t.max_retries n _ k e _ (config.retry_strategy held f) held u
          (omega (arith, runs-record_failure config f t s)) (room held)
          (unfold record_failure append_audit save_task in refl)
          (unfold record_failure append_audit save_task in refl)
      where
        room :
            (u : TaskRecord)
            → (config.retry_strategy u (failure_context config e t)).should_retry ≡ true
            → t.attempt ≤ t.max_retries
        room u again_ = elim (dec_le t.attempt t.max_retries) [
          | yes le' ↦ le'
          | no over ↦ absurd (
              false≢true (
                sym (bounded u (failure_context config e t) (unfold failure_context in omega arith))
                ∙ again_))
        ]

    after_try-Turned :
        (n : ℕ) (h : List FailureContext) (k : ℕ) (r : Result (Unit {0})) (t u : TaskRecord)
        (s : State S G)
        → s.runs ≤ n
        → u.attempt ≡ t.attempt
        → u.max_retries ≡ t.max_retries
        → Ends (Turned t.attempt t.max_retries n) (Within n) (after_try config h k r u s)
    unfolding after_try
    after_try-Turned n h k (ok _) t u s le a m = le
    after_try-Turned n h k (err e) t u s le a m =
        subst₂ (λ x y. Ends (Turned x y n) (Within n) (except_block config h k e u s)) a m
          (except_block-Turned n h k e u s le)

    turn-Turned :
        (c : Capability) (x : CapabilityExecutionControls) (k : ℕ) (t : TaskRecord)
        (h : List FailureContext) (s : State S G)
        → Ends
            (Turned t.attempt t.max_retries (suc s.runs))
            (Within (suc s.runs))
            (turn config c x k t h s)
    unfolding turn
    turn-Turned c x k t h s =
        let (le, a, m) = try_block-TryCost config c x k t s in
        after_try-Turned (suc s.runs) h k _ t _ _ le a m

    after_turn-Ends :
        (rerun : TaskRecord → List FailureContext → Exec (State S G) TaskRecord) (k a m n top : ℕ)
        → n ≤ top
        → ((t : TaskRecord) (h : List FailureContext) (s : State S G)
            → Turned a m n (again t h) s
            → Ends (λ _. Within top) (Within top) (rerun t h s))
        → (o : Turn) (s : State S G) → Turned a m n o s
        → Ends (λ _. Within top) (Within top) (after_turn config rerun k o s)
    unfolding after_turn
    after_turn-Ends rerun k a m n top fits next (finished t) s le = omega arith
    after_turn-Ends rerun k a m n top fits next (exhausted t h e) s le =
        finish_failed-Ends top h k e t s (omega arith)
    after_turn-Ends rerun k a m n top fits next (again t h) s turned = next t h s turned

    -- With the fuel for the attempts that are left, the loop ends, and the capability has run no
    -- more than that many times.
    pub loop-Ends :
        (fuel : ℕ) (c : Capability) (x : CapabilityExecutionControls) (k : ℕ) (t : TaskRecord)
        (h : List FailureContext) (s : State S G) (top : ℕ)
        → 0 < fuel
        → t.max_retries + 2 ≤ t.attempt + fuel
        → s.runs < top
        → s.runs + t.max_retries + 2 ≤ top + t.attempt
        → Ends (λ _. Within top) (Within top) (loop config fuel c x k t h s)
    unfolding loop
    loop-Ends zero c x k t h s top some_fuel enough room rest = absurd (omega arith)
    loop-Ends (suc fuel) c x k t h s top some_fuel enough room rest =
        Ends-bind (Turned t.attempt t.max_retries (suc s.runs)) (λ _. Within top) (Within top)
          (turn config c x k t h) _ s
          (Ends-weaken (Turned t.attempt t.max_retries (suc s.runs))
            (Turned t.attempt t.max_retries (suc s.runs)) (Within (suc s.runs)) (Within top)
            (turn config c x k t h s) (λ o u p. p) (λ u p. omega arith) (turn-Turned c x k t h s))
          (after_turn-Ends (loop config fuel c x k) k t.attempt t.max_retries (suc s.runs) top room
            (λ t' h' s' turned.
              loop-Ends fuel c x k t' h' s' top (omega arith) (omega arith) (omega arith)
                (omega arith)))
