-- ===== src/Supervisor/Termination/RunTask.antt =====
-- `run_task` ends, and runs the capability no more often than the retry limit allows.
use mathlib.Core.Path.{subst, ◌∙◌}
use conductor_engine.Base.{
  ℕ, suc, ◌+◌, ◌≤◌, ◌<◌, String, ◌≡◌, refl, [], some, arith, Bool, true, false, inl, inr,
  Bool-cases, if◌then◌else◌,
}
use conductor_engine.Base.Exec.{Result, ok, err, lift}
use conductor_engine.Base.Ends.{Ends, Ends-bind, Ends-weaken}
use conductor_engine.Interfaces.Task.{TaskRecord}
use conductor_engine.Interfaces.Policy.{Capability, CapabilityExecutionControls}
use conductor_engine.Supervisor.State.{Config, State, now, wait_for_execution_window}
use conductor_engine.Supervisor.Gate.{
  Gate, stopped, passed, is_pending, is_executable, gate, consult_policy,
  require_capability_approval, apply_suggestions,
}
use conductor_engine.Supervisor.Execution.{start}
use conductor_engine.Supervisor.Service.{found, get_task, run_task, run_executable, after_gate}
use conductor_engine.Supervisor.Termination.{
  runs-transition_status, runs-wait_for_execution_window, policy-Free, apply_suggestions-Free,
  mark_started-attempt,
}
use conductor_engine.Supervisor.Termination.Loop.{IsBounded, Within, loop-Ends}

module _ {S G : Type 0} (config : Config S G) where
  -- The gate runs nothing, and lets a task through with its attempts unchanged.
  abbrev Gated : (a m n : ℕ) → Gate → State S G → Type 0
  Gated a m n (stopped t) s = s.runs ≤ n
  Gated a m n (passed t) s = (s.runs ≤ n) × (t.attempt ≡ a) × (t.max_retries ≡ m)

  lift-Ends :
      {A : Type 0} (r : Result A) (n : ℕ) (s : State S G)
      → s.runs ≤ n
      → Ends (λ _. Within config n) (Within config n) (lift r s)
  lift-Ends (ok a) n s le = le
  lift-Ends (err e) n s le = le

  consult_policy-Gated :
      (c : Capability) (n : ℕ) (t : TaskRecord) (s : State S G)
      → s.runs ≤ n
      → Ends (Gated t.attempt t.max_retries n) (Within config n) (consult_policy config c t s)
  unfolding consult_policy
  consult_policy-Gated c n t s le =
      Ends-bind (λ _. Within config n) (Gated t.attempt t.max_retries n) (Within config n)
        (lift (
          config.policy.evaluate t
            (record { capability = c.descriptor; workdir = config.workdir })))
        _ s (lift-Ends _ n s le) (λ d u held. choose _ _ u _ held (policy-Free config d t u))
    where
      choose :
          (b : Bool) (d : TaskRecord) (u v : State S G)
          → u.runs ≤ n
          → (v.runs ≡ u.runs) × (d.attempt ≡ t.attempt) × (d.max_retries ≡ t.max_retries)
          → Gated t.attempt t.max_retries n (if b then passed d else stopped d) v
      choose true d u v held (same, a, m) = (omega arith, a, m)
      choose false d u v held (same, a, m) = omega arith

  gate-Gated :
      (c : Capability) (n : ℕ) (t : TaskRecord) (s : State S G)
      → s.runs ≤ n
      → Ends (Gated t.attempt t.max_retries n) (Within config n) (gate config c t s)
  unfolding gate require_capability_approval
  gate-Gated c n t s le = elim (Bool-cases (is_pending t.status)) [
    | inr other ↦ simp other (le, refl, refl)
    | inl e ↦ elim (Bool-cases c.descriptor.require_approval) [
      | inr open_ ↦ simp (e, open_) (consult_policy-Gated c n t s le)
      | inl closed ↦ simp (e, closed) (omega (arith, runs-transition_status config _ t s))
    ]
  ]

  module _ (bounded : IsBounded config.retry_strategy) where
    start-Ends :
        (fuel : ℕ) (c : Capability) (x : CapabilityExecutionControls) (t : TaskRecord)
        (s : State S G) (n : ℕ)
        → t.max_retries < fuel
        → s.runs ≤ n
        → Ends
            (λ _. Within config (n + t.max_retries + 1))
            (Within config (n + t.max_retries + 1))
            (start config fuel c x t s)
    unfolding start now
    start-Ends fuel c x t s n enough le =
        let u = wait_for_execution_window config t.capability x.min_interval_seconds s in
        let v = record u { reads = suc u.reads } in
        let k = config.env.wall u.reads in
        let waited = runs-wait_for_execution_window config t.capability x.min_interval_seconds s in
        let (same, next, limit) = mark_started-attempt config k t v in
        loop-Ends config bounded fuel c x k _ [] _ (n + t.max_retries + 1) (omega arith)
          (omega arith) (omega arith) (omega arith)

    after_gate-Ends :
        (fuel : ℕ) (c : Capability) (a m n : ℕ) (e : Gate) (s : State S G)
        → m < fuel
        → Gated a m n e s
        → Ends
            (λ _. Within config (n + m + 1))
            (Within config (n + m + 1))
            (after_gate config fuel c e s)
    unfolding after_gate
    after_gate-Ends fuel c a m n (stopped t) s enough le = omega arith
    after_gate-Ends fuel c a m n (passed t) s enough (le, _, limit) =
        let (same, _, kept) = apply_suggestions-Free config t s in
        let u = apply_suggestions config t s in
        Ends-bind {A = CapabilityExecutionControls} (λ _. Within config n)
          (λ _. Within config (n + m + 1)) (Within config (n + m + 1)) (lift _) _ u.1
          (Ends-weaken (λ _. Within config n) (λ _. Within config n) (Within config n)
            (Within config (n + m + 1)) (lift _ u.1) (λ _ v p. p) (λ v p. omega arith)
            (lift-Ends _ n u.1 (omega arith)))
          (λ x v held.
            subst
              (λ y.
                Ends (λ _. Within config (n + y + 1)) (Within config (n + y + 1))
                  (start config fuel c x u.0 v))
              (kept ∙ limit) (start-Ends fuel c x u.0 v n (omega arith) held))

    run_executable-Ends :
        (fuel : ℕ) (t : TaskRecord) (s : State S G) (n : ℕ)
        → t.max_retries < fuel
        → s.runs ≤ n
        → Ends
            (λ _. Within config (n + t.max_retries + 1))
            (Within config (n + t.max_retries + 1))
            (run_executable config fuel t s)
    unfolding run_executable
    run_executable-Ends fuel t s n enough le =
        let top = n + t.max_retries + 1 in
        Ends-bind (λ _. Within config n) (λ _. Within config top) (Within config top) (lift _) _ s
          (Ends-weaken (λ _. Within config n) (λ _. Within config n) (Within config n)
            (Within config top) (lift _ s) (λ _ v p. p) (λ v p. omega arith) (lift-Ends _ n s le))
          (λ c u held.
            Ends-bind (Gated t.attempt t.max_retries n) (λ _. Within config top) (Within config top)
              (gate config c t) _ u
              (Ends-weaken (Gated t.attempt t.max_retries n) (Gated t.attempt t.max_retries n)
                (Within config n) (Within config top) (gate config c t u) (λ e v p. p)
                (λ v p. omega arith) (gate-Gated c n t u held))
              (λ e v gated. after_gate-Ends fuel c t.attempt t.max_retries n e v enough gated))

    -- For a retry strategy that does not retry beyond the limit, `run_task` of a stored task
    -- returns or raises, with fuel for one turn more than its `max_retries`, and whichever it does
    -- it has run the capability at most `max_retries + 1` times.
    pub run_task-Ends :
        (fuel : ℕ) (id : String) (t : TaskRecord) (s : State S G)
        → config.store.get id s.tasks ≡ some t
        → t.max_retries < fuel
        → Ends
            (λ _. Within config (s.runs + t.max_retries + 1))
            (Within config (s.runs + t.max_retries + 1))
            (run_task config fuel id s)
    unfolding run_task get_task found
    run_task-Ends fuel id t s e enough = elim (Bool-cases (is_executable t.status)) [
      | inl ready ↦ simp (e, ready) (run_executable-Ends fuel t s s.runs enough (omega arith))
      | inr rest ↦ simp (e, rest) (omega arith)
    ]
