-- ===== src/Supervisor/Authority.antt =====
-- A pending task that wants approval, or that the policy does not allow, is not executed.
use conductor_engine.Base.{ℕ, String, ◌≡◌, refl, ◌≢◌, some, true, false}
use conductor_engine.Base.Exec.{ok, Outcome, done}
use conductor_engine.Interfaces.Task.{TaskStatus, TaskRecord}
use conductor_engine.Interfaces.Policy.{
  Capability, PolicyDecision, PolicyDecisionType, allow, deny, require_approval,
}
use conductor_engine.Guardrails.{validate_task_submission}
use conductor_engine.Supervisor.State.{Config, State, now, stamp}
use conductor_engine.Supervisor.Record.{Move, append_audit, save_task, transition_status}
use conductor_engine.Supervisor.Gate.{
  build_submission, gate, consult_policy, apply_policy, deny_task, require_capability_approval,
  is_pending,
}
use conductor_engine.Supervisor.Service.{found, get_task, run_task, run_executable, after_gate}
use conductor_engine.Supervisor.Lifecycle.{get-save_self}
use conductor_engine.Supervisor.Steps.{tasks-emit_event}
use conductor_engine.Supervisor.Termination.{runs-transition_status, policy-Free}

module _ {S G : Type 0} (config : Config S G) where
  -- `run_task` returned the record `t`, which is the one in the store, has the status `a`, and for
  -- which no capability has run.
  abbrev pub Stops : TaskStatus → State S G → Outcome TaskRecord × State S G → Type 0
  Stops a s r =
      (t : TaskRecord) × (r.0 ≡ done t)
      × (t.status ≡ a)
      × (config.store.get t.task_id r.1.tasks ≡ some t)
      × (r.1.runs ≡ s.runs)

  stored-transition :
      (m : Move) (t : TaskRecord) (s : State S G)
      → config.store.get
          (transition_status config m t s).0.task_id
          (transition_status config m t s).1.tasks
        ≡ some (transition_status config m t s).0
  unfolding transition_status save_task append_audit stamp
  stored-transition m t s = rw tasks-emit_event (get-save_self config.store _ _)

  -- A pending task of a capability that requires approval is put in AWAITING_APPROVAL and saved,
  -- and its capability does not run, whatever the policy engine would say.
  pub run_task-require_approval :
      (fuel : ℕ) (id : String) (t : TaskRecord) (s : State S G) (c : Capability)
      → config.store.get id s.tasks ≡ some t
      → t.status ≡ TaskStatus.pending
      → validate_task_submission (build_submission t) config.registry ≡ ok c
      → c.descriptor.require_approval ≡ true
      → Stops TaskStatus.awaiting_approval s (run_task config fuel id s)
  unfolding run_task get_task found run_executable after_gate gate
  run_task-require_approval fuel id t s c e pending valid closed =
      simp (e, pending, valid, closed)
        (
          _,
          refl,
          unfold require_capability_approval transition_status save_task append_audit in refl,
          unfold require_capability_approval in stored-transition _ t s,
          unfold require_capability_approval in runs-transition_status config _ t s,
        )

  -- The status in which a decision leaves a pending task.
  abbrev pub held_by : PolicyDecisionType → TaskStatus
  held_by allow = TaskStatus.pending
  held_by deny = TaskStatus.policy_denied
  held_by require_approval = TaskStatus.awaiting_approval

  apply_policy-Stops :
      (a : PolicyDecisionType) (d : PolicyDecision) (t : TaskRecord) (s : State S G)
      → d.decision ≡ a
      → a ≢ allow
      → ((apply_policy config d t s).0.status ≡ held_by a)
        × (config.store.get
              (apply_policy config d t s).0.task_id
              (apply_policy config d t s).1.tasks
            ≡ some (apply_policy config d t s).0)
  unfolding apply_policy deny_task now
  apply_policy-Stops allow d t s e other = absurd (other refl)
  apply_policy-Stops deny d t s e other =
      rw e (unfold transition_status append_audit save_task in refl, stored-transition _ _ _)
  apply_policy-Stops require_approval d t s e other =
      rw e (unfold transition_status append_audit save_task in refl, stored-transition _ _ _)

  not_pending_by : (a : PolicyDecisionType) → a ≢ allow → is_pending (held_by a) ≡ false
  not_pending_by allow other = absurd (other refl)
  not_pending_by deny other = refl
  not_pending_by require_approval other = refl

  -- A pending task that the policy engine denies is put in POLICY_DENIED, and one for which it
  -- requires approval in AWAITING_APPROVAL; the record is saved, and the capability does not run.
  pub run_task-policy :
      (fuel : ℕ) (id : String) (t : TaskRecord) (s : State S G) (c : Capability)
      (d : PolicyDecision)
      → config.store.get id s.tasks ≡ some t
      → t.status ≡ TaskStatus.pending
      → validate_task_submission (build_submission t) config.registry ≡ ok c
      → c.descriptor.require_approval ≡ false
      → config.policy.evaluate t (record { capability = c.descriptor; workdir = config.workdir })
        ≡ ok d
      → d.decision ≢ allow
      → Stops (held_by d.decision) s (run_task config fuel id s)
  unfolding run_task get_task found run_executable gate consult_policy
  run_task-policy fuel id t s c d e pending valid open_ decided other =
      let (status, stored) = apply_policy-Stops d.decision d t s refl other in
      let closed : is_pending (apply_policy config d t s).0.status ≡ false =
        rw status (not_pending_by d.decision other) in
      simp (e, pending, valid, open_, decided, closed)
        (unfold after_gate in (_, refl, status, stored, (policy-Free config d t s).0))
