-- ===== src/Supervisor/Soundness/Entry.antt =====
-- Soundness of what `run_task` does before its loop, and of `run_task`.
use conductor_engine.Base.{
  ℕ, String, ◌≡◌, refl, sym, ap, List, [], ◌∷◌, Option, some, true, false, arith, inl, inr, ◌⊎◌,
  Bool-cases, if◌then◌else◌,
}
use conductor_engine.Base.Exec.{Result, ok, err, lift}
use conductor_engine.Base.Post.{Post, Post-bind}
use conductor_engine.Interfaces.Task.{TaskStatus, TaskRecord}
use conductor_engine.Interfaces.Policy.{
  Capability, CapabilityExecutionControls, PolicyDecision, PolicyDecisionType, allow, deny,
  require_approval,
}
use conductor_engine.Interfaces.Guild.{GuildSuggestion}
use conductor_engine.Supervisor.State.{
  Config, State, now, monotonic, wait_after, wait_for_execution_window, take_window, sleep,
}
use conductor_engine.Supervisor.Record.{append_audit, save_task, transition_status}
use conductor_engine.Supervisor.Gate.{
  Gate, stopped, passed, is_pending, is_executable, gate, consult_policy, apply_policy, allow_task,
  deny_task, require_capability_approval, apply_suggestions, apply_best, apply_suggestion,
}
use conductor_engine.Supervisor.Execution.{mark_started, start}
use conductor_engine.Supervisor.Service.{after_gate, run_executable}
use conductor_engine.Supervisor.Lifecycle
use conductor_engine.Supervisor.Lifecycle.{Allowed, IsSound, IsLegal, IsFine}
use conductor_engine.Supervisor.Steps.{transition_status-IsFine, note-IsFine, renew-IsFine}
use conductor_engine.Supervisor.Soundness.{
  IsQuiet, Settles, Legal, IsSettled, is_completed, is_failed, is_escalated, is_awaiting_approval,
  is_policy_denied,
}
use conductor_engine.Supervisor.Soundness.Loop.{loop-Settles}

-- The statuses from which a task starts.
pub data IsReady : TaskStatus → Type 0 where
  is_pending_ : IsReady TaskStatus.pending
  is_approved : IsReady TaskStatus.approved

IsReady-of_executable : (a : TaskStatus) → is_executable a ≡ true → IsReady a
IsReady-of_executable TaskStatus.pending e = is_pending_
IsReady-of_executable TaskStatus.approved e = is_approved
IsReady-of_executable TaskStatus.running e = absurd (cc)
IsReady-of_executable TaskStatus.completed e = absurd (cc)
IsReady-of_executable TaskStatus.failed e = absurd (cc)
IsReady-of_executable TaskStatus.awaiting_approval e = absurd (cc)
IsReady-of_executable TaskStatus.policy_denied e = absurd (cc)
IsReady-of_executable TaskStatus.cancelled e = absurd (cc)
IsReady-of_executable TaskStatus.escalated e = absurd (cc)

Allowed-begin : (a : TaskStatus) → IsReady a → Allowed a TaskStatus.running
Allowed-begin a is_pending_ = Lifecycle.begin_pending
Allowed-begin a is_approved = Lifecycle.begin_approved

eq_pending : (a : TaskStatus) → is_pending a ≡ true → a ≡ TaskStatus.pending
eq_pending a e = ground arith

module _ {S G : Type 0} (config : Config S G) where
  -- A task that may start.
  record Waits (id : String) (t : TaskRecord) (s : State S G) : Type 0 where
    fine : IsFine config t s
    ready : IsReady t.status
    named : t.task_id ≡ id

  abbrev AfterGate : String → Gate → State S G → Type 0
  AfterGate id (stopped t) s = Settles config id t s
  AfterGate id (passed t) s = Waits id t s

  -- Before the policy decides, the task is pending.
  abbrev Decided : String → TaskRecord → State S G → Type 0
  Decided id t s = Settles config id t s ⊎ (Waits id t s × (t.status ≡ TaskStatus.pending))

  apply_policy-Decided :
      (d : PolicyDecisionType) (x : PolicyDecision) (id : String) (t : TaskRecord) (s : State S G)
      → x.decision ≡ d
      → t.status ≡ TaskStatus.pending
      → Waits id t s
      → Decided id (apply_policy config x t s).0 (apply_policy config x t s).1
  unfolding apply_policy allow_task deny_task now
  apply_policy-Decided allow x id t s e pending waits = rw e (
      inr (
        record {
          fine =
              renew-IsFine config _ t s (ap some (sym pending)) (ap some (sym pending))
                (rw pending Lifecycle.allow) waits.fine.sound waits.fine.legal;
          ready = unfold append_audit save_task in waits.ready;
          named = unfold append_audit save_task in waits.named;
        },
        unfold append_audit save_task in pending,
      ))
  apply_policy-Decided deny x id t s e pending waits = rw e (
      inl (record {
        fine =
            transition_status-IsFine config _ _ _ (rw pending Lifecycle.deny) waits.fine.sound
              waits.fine.legal;
        settled = unfold transition_status append_audit save_task in is_policy_denied;
        named = unfold transition_status append_audit save_task in waits.named;
      }))
  apply_policy-Decided require_approval x id t s e pending waits = rw e (
      inl (record {
        fine =
            transition_status-IsFine config _ _ _ (rw pending Lifecycle.hold) waits.fine.sound
              waits.fine.legal;
        settled = unfold transition_status append_audit save_task in is_awaiting_approval;
        named = unfold transition_status append_audit save_task in waits.named;
      }))

  not_pending : (a : TaskStatus) → IsSettled a → is_pending a ≡ false
  not_pending a is_completed = refl
  not_pending a is_failed = refl
  not_pending a is_escalated = refl
  not_pending a is_awaiting_approval = refl
  not_pending a is_policy_denied = refl

  Decided-AfterGate :
      (id : String) (t : TaskRecord) (s : State S G)
      → Decided id t s
      → AfterGate id (if is_pending t.status then passed t else stopped t) s
  Decided-AfterGate id t s (inl settles) = simp (not_pending t.status settles.settled) settles
  Decided-AfterGate id t s (inr (waits, pending)) = simp pending waits

  lift-keep :
      {A : Type 0} (r : Result A) (id : String) (t : TaskRecord) (s : State S G)
      → Waits id t s
      → Post (λ _ u. Waits id t u) (Legal config) (lift r s)
  lift-keep (ok d) id t s waits = waits
  lift-keep (err e) id t s waits = waits.fine.legal

  consult_policy-AfterGate :
      (c : Capability) (id : String) (t : TaskRecord) (s : State S G)
      → t.status ≡ TaskStatus.pending
      → Waits id t s
      → Post (AfterGate id) (Legal config) (consult_policy config c t s)
  unfolding consult_policy
  consult_policy-AfterGate c id t s pending waits =
      let r =
        config.policy.evaluate t (record { capability = c.descriptor; workdir = config.workdir }) in
      Post-bind {A = PolicyDecision} (λ _. Waits id t) (AfterGate id) (Legal config) (lift r) _ s
        (lift-keep r id t s waits)
        (λ d u held.
          Decided-AfterGate id _ _ (apply_policy-Decided d.decision d id t u refl pending held))

  gate-AfterGate :
      (c : Capability) (id : String) (t : TaskRecord) (s : State S G)
      → Waits id t s
      → Post (AfterGate id) (Legal config) (gate config c t s)
  unfolding gate require_capability_approval
  gate-AfterGate c id t s waits = elim (Bool-cases (is_pending t.status)) [
    | inr other ↦ simp other waits
    | inl e ↦
        let pending = eq_pending t.status e in
        elim (Bool-cases c.descriptor.require_approval) [
          | inr open_ ↦ simp (e, open_) (consult_policy-AfterGate c id t s pending waits)
          | inl closed ↦
              simp (e, closed)
                (record {
                  fine =
                      transition_status-IsFine config _ t s (rw pending Lifecycle.hold)
                        waits.fine.sound waits.fine.legal;
                  settled = unfold transition_status append_audit save_task in is_awaiting_approval;
                  named = unfold transition_status append_audit save_task in waits.named;
                })
        ]
  ]

  apply_best-Waits :
      (l : List GuildSuggestion) (id : String) (t : TaskRecord) (s : State S G)
      → Waits id t s
      → Waits id (apply_best config l t s).0 (apply_best config l t s).1
  unfolding apply_best apply_suggestion
  apply_best-Waits [] id t s waits = waits
  apply_best-Waits (best ∷ rest) id t s waits = record {
    fine = note-IsFine config _ _ s refl waits.fine.sound waits.fine.legal;
    ready = unfold append_audit save_task in waits.ready;
    named = unfold append_audit save_task in waits.named;
  }

  apply_suggestions-Waits :
      (id : String) (t : TaskRecord) (s : State S G)
      → Waits id t s
      → Waits id (apply_suggestions config t s).0 (apply_suggestions config t s).1
  unfolding apply_suggestions
  apply_suggestions-Waits id t s waits = apply_best-Waits _ id t s waits

  tasks-wait_for_execution_window :
      (name : String) (i : Option ℕ) (s : State S G)
      → (wait_for_execution_window config name i s).tasks ≡ s.tasks
  unfolding wait_for_execution_window take_window wait_after monotonic sleep
  tasks-wait_for_execution_window name i s = ground arith

  module _ (quiet : IsQuiet config) where
    start-Settles :
        (fuel : ℕ) (c : Capability) (x : CapabilityExecutionControls) (id : String) (t : TaskRecord)
        (s : State S G)
        → Waits id t s
        → Post (Settles config id) (Legal config) (start config fuel c x t s)
    unfolding start mark_started now
    start-Settles fuel c x id t s waits =
        let legal : Legal config
            (wait_for_execution_window config t.capability x.min_interval_seconds s) =
          rw tasks-wait_for_execution_window waits.fine.legal in
        loop-Settles config quiet fuel c x _ id _ [] _ (record {
          fine =
              transition_status-IsFine config _ _ _ (Allowed-begin t.status waits.ready)
                waits.fine.sound legal;
          running = unfold transition_status append_audit save_task in refl;
          named = unfold transition_status append_audit save_task in waits.named;
        })

    after_gate-Settles :
        (fuel : ℕ) (c : Capability) (id : String) (e : Gate) (s : State S G)
        → AfterGate id e s
        → Post (Settles config id) (Legal config) (after_gate config fuel c e s)
    unfolding after_gate
    after_gate-Settles fuel c id (stopped t) s settles = settles
    after_gate-Settles fuel c id (passed t) s waits =
        Post-bind (λ _ u. Waits id _ u) (Settles config id) (Legal config) (lift _) _ _
          (lift-keep _ id _ _ (apply_suggestions-Waits id t s waits))
          (λ x u held. start-Settles fuel c x id _ u held)

    pub run_executable-Settles :
        (fuel : ℕ) (id : String) (t : TaskRecord) (s : State S G)
        → is_executable t.status ≡ true
        → IsFine config t s
        → t.task_id ≡ id
        → Post (Settles config id) (Legal config) (run_executable config fuel t s)
    unfolding run_executable
    run_executable-Settles fuel id t s ready fine named =
        let waits : Waits id t s = record {
          fine = fine;
          ready = IsReady-of_executable t.status ready;
          named = named;
        } in
        Post-bind (λ _ u. Waits id t u) (Settles config id) (Legal config) (lift _) _ s
          (lift-keep _ id t s waits)
          (λ c u held.
            Post-bind (AfterGate id) (Settles config id) (Legal config) (gate config c t) _ u
              (gate-AfterGate c id t u held) (λ e v after. after_gate-Settles fuel c id e v after))
