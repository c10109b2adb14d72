-- ===== src/Supervisor/Termination.antt =====
-- How often a capability runs: what each part of engine/supervisor/service.py adds to the count of
-- runs and to the attempts of the task.
pub mod Loop
pub mod RunTask
use conductor_engine.Base.{
  ℕ, zero, suc, ◌+◌, ◌≤◌, ◌<◌, String, ◌≡◌, refl, ◌∙◌, List, [], ◌∷◌, ◌++◌, Option, none, some,
  arith, Bool, true, false,
}
use conductor_engine.Base.Exec.{Exn, Result, ok, err}
use conductor_engine.Json.{Json}
use conductor_engine.Interfaces.Task.{TaskRecord}
use conductor_engine.Interfaces.Retry.{FailureContext, RetryDecision}
use conductor_engine.Interfaces.Policy.{
  Capability, CapabilityResult, CapabilityExecutionControls, PolicyDecision, PolicyDecisionType,
  allow, deny, require_approval,
}
use conductor_engine.Interfaces.Event.{EventType}
use conductor_engine.Interfaces.Guild.{GuildSuggestion}
use conductor_engine.Supervisor.State.{
  Config, State, now, stamp, sleep, monotonic, wait_after, take_window, wait_for_execution_window,
}
use conductor_engine.Supervisor.Record.{
  Move, Audit, append_audit, save_task, emit_event, transition_status, build_record,
  publish_failures, mark_escalated, mark_failed,
}
use conductor_engine.Supervisor.Gate.{
  apply_policy, allow_task, deny_task, require_capability_approval, apply_best, apply_suggestion,
  apply_suggestions,
}
use conductor_engine.Supervisor.Execution.{
  run_capability, publish_success, mark_completed, after_run, try_block, record_failure, mark_retry,
  pause, mark_started,
}

module _ {S G : Type 0} (config : Config S G) where
  pub runs-stamp : (o : Option ℕ) (s : State S G) → (stamp config o s).1.runs ≡ s.runs
  unfolding stamp now
  runs-stamp none s = refl
  runs-stamp (some t) s = refl

  pub runs-emit_event :
      (y : EventType) (t : TaskRecord) (e : Option String) (m : Json) (s : State S G)
      → (emit_event config y t e m s).runs ≡ s.runs
  unfolding emit_event now
  runs-emit_event y t e m s = ground arith

  pub runs-transition_status :
      (m : Move) (t : TaskRecord) (s : State S G) → (transition_status config m t s).1.runs ≡ s.runs
  unfolding transition_status append_audit save_task stamp
  runs-transition_status m t s = runs-emit_event _ _ _ _ _ ∙ runs-stamp m.timestamp s

  runs-build_record :
      (h : List FailureContext) (t : TaskRecord) (s : State S G)
      → (build_record config h t s).1.runs ≡ s.runs
  unfolding build_record now
  runs-build_record h t s = ground arith

  pub runs-mark_escalated :
      (h : List FailureContext) (n : ℕ) (e : Exn) (r : Option String) (t : TaskRecord)
      (s : State S G)
      → (mark_escalated config h n e r t s).1.runs ≡ s.runs
  unfolding mark_escalated now
  runs-mark_escalated h n e r t s = runs-transition_status _ _ _ ∙ runs-build_record h t _

  pub runs-mark_failed :
      (n : ℕ) (e : Exn) (t : TaskRecord) (s : State S G)
      → (mark_failed config n e t s).1.runs ≡ s.runs
  unfolding mark_failed now
  runs-mark_failed n e t s = runs-transition_status _ _ _

  pub runs-publish_failures :
      (h : List FailureContext) (hint : String) (t : TaskRecord) (s : State S G)
      → (publish_failures config h hint t s).1.runs ≡ s.runs
  unfolding publish_failures
  runs-publish_failures h hint t s = ground arith

  pub runs-record_failure :
      (f : FailureContext) (t : TaskRecord) (s : State S G)
      → (record_failure config f t s).1.runs ≡ s.runs
  unfolding record_failure append_audit save_task stamp now
  runs-record_failure f t s = refl

  runs-pause : (d : Option ℕ) (s : State S G) → (pause config d s).runs ≡ s.runs
  unfolding pause sleep
  runs-pause d s = ground arith

  pub runs-mark_retry :
      (e : Exn) (d : RetryDecision) (t : TaskRecord) (s : State S G)
      → (mark_retry config e d t s).1.runs ≡ s.runs
  unfolding mark_retry append_audit save_task stamp now
  runs-mark_retry e d t s = runs-pause d.delay_seconds _ ∙ runs-emit_event _ _ _ _ _

  runs-publish_success :
      (t : TaskRecord) (s : State S G) → (publish_success config t s).1.runs ≡ s.runs
  unfolding publish_success
  runs-publish_success t s = ground arith

  runs-mark_completed :
      (n : ℕ) (r : CapabilityResult) (t : TaskRecord) (s : State S G)
      → (mark_completed config n r t s).1.runs ≡ s.runs
  unfolding mark_completed now
  runs-mark_completed n r t s = runs-transition_status _ _ _

  runs-run_capability :
      (c : Capability) (x : CapabilityExecutionControls) (t : TaskRecord) (s : State S G)
      → (run_capability config c x t s).1.runs ≤ suc s.runs
  unfolding run_capability
  runs-run_capability c x t s = ground arith

  -- The `try` block runs the capability once at most, and keeps the attempts of the task.
  abbrev pub TryCost : TaskRecord → ℕ → TaskRecord × Result (Unit {0}) × State S G → Type 0
  TryCost t n r = (r.2.runs ≤ n) × (r.0.attempt ≡ t.attempt) × (r.0.max_retries ≡ t.max_retries)

  after_run-TryCost :
      (n : ℕ) (r : Result CapabilityResult) (t : TaskRecord) (s : State S G)
      → TryCost t s.runs (after_run config n r t s)
  unfolding after_run
  after_run-TryCost n (err e) t s = (omega arith, refl, refl)
  after_run-TryCost n (ok r) t s = (
    omega (
      arith,
      runs-publish_success (mark_completed config n r t s).0 (mark_completed config n r t s).1,
      runs-mark_completed n r t s,
    ),
    unfold mark_completed transition_status append_audit save_task in refl,
    unfold mark_completed transition_status append_audit save_task in refl,
  )

  pub try_block-TryCost :
      (c : Capability) (x : CapabilityExecutionControls) (n : ℕ) (t : TaskRecord) (s : State S G)
      → TryCost t (suc s.runs) (try_block config c x n t s)
  unfolding try_block
  try_block-TryCost c x n t s =
      let (r, u) = run_capability config c x t s in
      let cost = after_run-TryCost n r t u in
      (omega (arith, cost.0, runs-run_capability c x t s), cost.1, cost.2)

  pub runs-wait_for_execution_window :
      (name : String) (i : Option ℕ) (s : State S G)
      → (wait_for_execution_window config name i s).runs ≡ s.runs
  unfolding wait_for_execution_window take_window wait_after monotonic sleep
  runs-wait_for_execution_window name i s = ground arith

  -- No run, and no change to the attempts.
  abbrev pub Free : TaskRecord → State S G → TaskRecord × State S G → Type 0
  Free t s r = (r.1.runs ≡ s.runs) × (r.0.attempt ≡ t.attempt) × (r.0.max_retries ≡ t.max_retries)

  apply_policy-Free :
      (a : PolicyDecisionType) (d : PolicyDecision) (t : TaskRecord) (s : State S G)
      → d.decision ≡ a
      → Free t s (apply_policy config d t s)
  unfolding apply_policy allow_task deny_task append_audit save_task now
  apply_policy-Free allow d t s e = rw e (unfold stamp in (refl, refl, refl))
  apply_policy-Free deny d t s e = rw e (
    runs-transition_status _ _ _,
    unfold transition_status in refl,
    unfold transition_status in refl,
  )
  apply_policy-Free require_approval d t s e = rw e (
    runs-transition_status _ _ _,
    unfold transition_status in refl,
    unfold transition_status in refl,
  )

  pub policy-Free :
      (d : PolicyDecision) (t : TaskRecord) (s : State S G) → Free t s (apply_policy config d t s)
  policy-Free d t s = apply_policy-Free d.decision d t s refl

  apply_best-Free :
      (l : List GuildSuggestion) (t : TaskRecord) (s : State S G)
      → Free t s (apply_best config l t s)
  unfolding apply_best apply_suggestion append_audit save_task stamp now
  apply_best-Free [] t s = (refl, refl, refl)
  apply_best-Free (best ∷ rest) t s = (refl, refl, refl)

  pub apply_suggestions-Free :
      (t : TaskRecord) (s : State S G) → Free t s (apply_suggestions config t s)
  unfolding apply_suggestions
  apply_suggestions-Free t s = apply_best-Free _ t s

  pub mark_started-attempt :
      (k : ℕ) (t : TaskRecord) (s : State S G)
      → ((mark_started config k t s).1.runs ≡ s.runs)
        × ((mark_started config k t s).0.attempt ≡ t.attempt + 1)
        × ((mark_started config k t s).0.max_retries ≡ t.max_retries)
  unfolding mark_started
  mark_started-attempt k t s = (
    runs-transition_status _ _ _,
    unfold transition_status append_audit save_task in refl,
    unfold transition_status append_audit save_task in refl,
  )
