-- ===== src/Supervisor/Soundness.antt =====
-- The execution loop keeps every trail sound, and stores the record that it returns.
pub mod Loop
pub mod Entry
pub mod Service
pub mod Calls
use conductor_engine.Base.{
  ℕ, zero, suc, String, ◌≡◌, refl, sym, ap, ◌∙◌, List, [], ◌∷◌, ◌++◌, Option, none, some, arith,
  Bool, true, false, if◌then◌else◌, ◌||◌, ◌⊎◌, inl, inr,
}
use conductor_engine.Base.Exec.{
  Exn, Result, ok, err, Outcome, done, raised, out_of_fuel, Exec, ◌>>=◌,
}
use conductor_engine.Base.Post.{Post, Post-bind, Post-if, Post-all}
use conductor_engine.Json.{Json}
use conductor_engine.Interfaces.Task.{TaskStatus, TaskRecord}
use conductor_engine.Interfaces.Retry.{FailureContext, RetryDecision}
use conductor_engine.Interfaces.Policy.{Capability, CapabilityResult, CapabilityExecutionControls}
use conductor_engine.Interfaces.Guild.{KnowledgeBase}
use conductor_engine.Supervisor.State.{
  Config, State, now, sleep, wait_for_execution_window, wait_after, monotonic,
}
use conductor_engine.Supervisor.Record.{
  append_audit, save_task, transition_status, mark_escalated, mark_failed, publish_failures,
  do_escalate, finish_failed,
}
use conductor_engine.Supervisor.Execution.{
  Turn, finished, again, exhausted, run_capability, publish_success, mark_completed, after_run,
  try_block, failure_context, record_failure, next_attempt, mark_retry, escalate_turn, retry,
  except_block, after_try, turn, after_turn, loop, mark_started, start, pause,
}
use conductor_engine.Supervisor.Lifecycle
use conductor_engine.Supervisor.Lifecycle.{IsSound, IsLegal, IsFine}
use conductor_engine.Supervisor.Steps.{
  transition_status-IsFine, note-IsFine, renew-IsFine, mark_escalated-IsFine, mark_failed-IsFine,
  IsFine-tasks, tasks-emit_event,
}

-- The statuses in which `run_task` leaves a task that it executed or stopped at the gate.
pub data IsSettled : TaskStatus → Type 0 where
  is_completed : IsSettled TaskStatus.completed
  is_failed : IsSettled TaskStatus.failed
  is_escalated : IsSettled TaskStatus.escalated
  is_awaiting_approval : IsSettled TaskStatus.awaiting_approval
  is_policy_denied : IsSettled TaskStatus.policy_denied

module _ {S G : Type 0} (config : Config S G) where
  -- The guild takes each report of a success.
  abbrev pub IsQuiet : Type 0
  IsQuiet =
      (kb : KnowledgeBase G) (c : String) (i : Json) (g : G)
      → config.guild_knowledge ≡ some kb
      → (kb.publish_success c i g).0 ≡ ok tt

  -- A task that is being executed, under the id `id`.
  pub record Runs (id : String) (t : TaskRecord) (s : State S G) : Type 0 where
    pub fine : IsFine config t s
    pub running : t.status ≡ TaskStatus.running
    pub named : t.task_id ≡ id

  -- A task with which `run_task` may return.
  pub record Settles (id : String) (t : TaskRecord) (s : State S G) : Type 0 where
    pub fine : IsFine config t s
    pub settled : IsSettled t.status
    pub named : t.task_id ≡ id

  abbrev pub Legal : State S G → Type 0
  Legal s = IsLegal config.store s.tasks

  -- A task that is being executed, as it stands between two saves.
  pub record Live (id : String) (t : TaskRecord) (s : State S G) : Type 0 where
    pub running : t.status ≡ TaskStatus.running
    pub named : t.task_id ≡ id
    pub sound : IsSound t
    pub legal : Legal s

  abbrev pub AfterTurn : String → Turn → State S G → Type 0
  AfterTurn id (finished t) s = Settles id t s
  AfterTurn id (again t h) s = Runs id t s
  AfterTurn id (exhausted t h e) s = Runs id t s

  abbrev pub AfterTry :
      String → TaskRecord → State S G → TaskRecord × Result (Unit {0}) × State S G → Type 0
  AfterTry id task s (t, ok _, u) = Settles id t u
  AfterTry id task s (t, err e, u) = (t ≡ task) × (u.tasks ≡ s.tasks)

  mark_completed-Settles :
      (t : ℕ) (r : CapabilityResult) (id : String) (task : TaskRecord) (s : State S G)
      → Live id task s
      → Settles id (mark_completed config t r task s).0 (mark_completed config t r task s).1
  unfolding mark_completed now
  mark_completed-Settles t r id task s live = record {
    fine =
        transition_status-IsFine config _ _ _ (rw live.running Lifecycle.complete) live.sound
          live.legal;
    settled = unfold transition_status append_audit save_task in is_completed;
    named = unfold transition_status append_audit save_task in live.named;
  }

  tasks-publish_success :
      (t : TaskRecord) (s : State S G) → (publish_success config t s).1.tasks ≡ s.tasks
  unfolding publish_success
  tasks-publish_success t s = ground arith

  publish_success-ok :
      IsQuiet → (t : TaskRecord) (s : State S G) → (publish_success config t s).0 ≡ ok tt
  unfolding publish_success
  publish_success-ok quiet t s = grind (arith, quiet)

  tasks-run_capability :
      (c : Capability) (x : CapabilityExecutionControls) (t : TaskRecord) (s : State S G)
      → (run_capability config c x t s).1.tasks ≡ s.tasks
  unfolding run_capability
  tasks-run_capability c x t s = ground arith

  module _ (quiet : IsQuiet) where
    after_run-AfterTry :
        (t : ℕ) (r : Result CapabilityResult) (id : String) (task : TaskRecord) (s u : State S G)
        → u.tasks ≡ s.tasks
        → Runs id task s
        → AfterTry id task s (after_run config t r task u)
    unfolding after_run
    after_run-AfterTry t (err e) id task s u same runs = (refl, same)
    after_run-AfterTry t (ok r) id task s u same runs =
        let completed = mark_completed-Settles t r id task u (record {
          running = runs.running;
          named = runs.named;
          sound = runs.fine.sound;
          legal = rw same runs.fine.legal;
        }) in
        rw (publish_success-ok quiet) (record {
          fine = IsFine-tasks config completed.fine (tasks-publish_success _ _);
          settled = completed.settled;
          named = completed.named;
        })

    pub try_block-AfterTry :
        (c : Capability) (x : CapabilityExecutionControls) (t : ℕ) (id : String) (task : TaskRecord)
        (s : State S G)
        → Runs id task s
        → AfterTry id task s (try_block config c x t task s)
    unfolding try_block
    try_block-AfterTry c x t id task s runs =
        after_run-AfterTry t _ id task s _ (tasks-run_capability c x task s) runs

  pub record_failure-Runs :
      (f : FailureContext) (id : String) (task : TaskRecord) (s : State S G)
      → Runs id task s
      → Runs id (record_failure config f task s).0 (record_failure config f task s).1
  unfolding record_failure
  record_failure-Runs f id task s runs = record {
    fine = note-IsFine config _ task s refl runs.fine.sound runs.fine.legal;
    running = unfold append_audit save_task in runs.running;
    named = unfold append_audit save_task in runs.named;
  }

  tasks-pause : (d : Option ℕ) (s : State S G) → (pause config d s).tasks ≡ s.tasks
  unfolding pause sleep
  tasks-pause d s = ground arith

  pub mark_retry-Runs :
      (e : Exn) (d : RetryDecision) (id : String) (task : TaskRecord) (s : State S G)
      → Live id task s
      → Runs id (mark_retry config e d task s).0 (mark_retry config e d task s).1
  unfolding mark_retry
  mark_retry-Runs e d id task s live = record {
    fine =
        IsFine-tasks config
          (renew-IsFine config _ task s (ap some (sym live.running)) (ap some (sym live.running))
            (rw live.running Lifecycle.retry) live.sound live.legal)
          (tasks-pause d.delay_seconds _ ∙ tasks-emit_event config _ _ _ _ _);
    running = unfold append_audit save_task in live.running;
    named = unfold append_audit save_task in live.named;
  }

  tasks-publish_failures :
      (h : List FailureContext) (hint : String) (t : TaskRecord) (s : State S G)
      → (publish_failures config h hint t s).1.tasks ≡ s.tasks
  unfolding publish_failures
  tasks-publish_failures h hint t s = ground arith

  -- An escalation settles the task; an exception of the guild leaves the store legal.
  pub do_escalate-Settles :
      (h : List FailureContext) (t : ℕ) (e : Exn) (r : Option String) (id : String)
      (task : TaskRecord) (s : State S G)
      → Live id task s
      → Post (Settles id) Legal (do_escalate config h t e r task s)
  unfolding do_escalate
  do_escalate-Settles h t e r id task s live =
      let fine = mark_escalated-IsFine config h t e r task s live.running live.sound live.legal in
      Post-bind (λ _. Settles id (mark_escalated config h t e r task s).0) (Settles id) Legal
        (publish_failures config h _ _) _ _
        (Post-all (λ _. Settles id (mark_escalated config h t e r task s).0) Legal
          (publish_failures config h _ _ _)
          (λ _. record {
            fine = IsFine-tasks config fine (tasks-publish_failures _ _ _ _);
            settled =
                unfold mark_escalated transition_status append_audit save_task in is_escalated;
            named = unfold mark_escalated transition_status append_audit save_task in live.named;
          })
          (rw tasks-publish_failures fine.legal))
        (λ _ u settles. settles)

  pub finish_failed-Settles :
      (h : List FailureContext) (t : ℕ) (e : Exn) (id : String) (task : TaskRecord) (s : State S G)
      → Runs id task s
      → Post (Settles id) Legal (finish_failed config h t e task s)
  unfolding finish_failed
  finish_failed-Settles h t e id task s runs =
      Post-bind (λ _. Legal) (Settles id) Legal (publish_failures config h _ _) _ _
        (Post-all (λ _. Legal) Legal (publish_failures config h _ task s)
          (λ _. rw tasks-publish_failures runs.fine.legal)
          (rw tasks-publish_failures runs.fine.legal))
        (λ _ u legal. record {
          fine = mark_failed-IsFine config t e task u runs.running runs.fine.sound legal;
          settled = unfold mark_failed transition_status append_audit save_task in is_failed;
          named = unfold mark_failed transition_status append_audit save_task in runs.named;
        })

  pub escalate_turn-AfterTurn :
      (h : List FailureContext) (t : ℕ) (e : Exn) (r : Option String) (id : String)
      (task : TaskRecord) (s : State S G)
      → Live id task s
      → Post (AfterTurn id) Legal (escalate_turn config h t e r task s)
  unfolding escalate_turn
  escalate_turn-AfterTurn h t e r id task s live =
      Post-bind (Settles id) (AfterTurn id) Legal (do_escalate config h t e r task) _ s
        (do_escalate-Settles h t e r id task s live) (λ _ u settles. settles)
