-- ===== src/Supervisor/Execution.antt =====
-- The execution loop of `run_task`: one run of the capability, what a failure leads to, and the
-- `while True` around them.
use conductor_engine.Base.{
  ℕ, zero, suc, ◌+◌, ◌-◌, String, Bool, true, false, List, [], ◌∷◌, ◌++◌, Option, none, some,
  insert, ltb, fstring, is_some, if◌then◌else◌, ◌||◌,
}
use conductor_engine.Base.Exec.{Exn, Result, ok, err, out_of_fuel, Exec, pure, total, ◌>>=◌}
use conductor_engine.Json.{boolean, int, str, opt_str, Json}
use conductor_engine.Interfaces.Task.{TaskStatus, TaskResult, TaskRecord}
use conductor_engine.Interfaces.Retry.{FailureContext, RetryDecision}
use conductor_engine.Interfaces.Policy.{
  Capability, CapabilityResult, CapabilityExecutionControls, Run,
}
use conductor_engine.Interfaces.Event.{EventType}
use conductor_engine.Supervisor.State.{Config, State, now, sleep, wait_for_execution_window}
use conductor_engine.Supervisor.Record.{
  Move, Audit, append_audit, save_task, emit_event, transition_status, failure_dump, do_escalate,
  finish_failed,
}

-- What one turn of the loop leads to: the task is finished, or it is to run again, or its retries
-- are exhausted.
pub data Turn : Type 0 where
  finished : TaskRecord → Turn
  again : TaskRecord → List FailureContext → Turn
  exhausted : TaskRecord → List FailureContext → Exn → Turn

module _ {S G : Type 0} (config : Config S G) where
  open config use {env, retry_strategy, escalation_policy, guild_knowledge, workdir}

  -- `_execute_with_timeout`: the outcome of a run under an optional limit on its time.
  pub execute_with_timeout : Option ℕ → Run → Result CapabilityResult
  execute_with_timeout none run = run.outcome
  execute_with_timeout (some limit) run =
      if ltb limit run.duration
      then err (record {
        error_type = "TimeoutError";
        message = fstring (
            "Capability execution exceeded "
            ∷ env.two_places limit
            ∷ "s soft timeout; work may continue in the background"
            ∷ []);
      })
      else run.outcome

  -- `capability.validate_input` and the run of `capability.execute`
  unfoldable pub run_capability :
      Capability
      → CapabilityExecutionControls
      → TaskRecord
      → State S G
      → Result CapabilityResult × State S G
  run_capability capability controls task s = elim (capability.validate_input task.input) [
    | err e ↦ (err e, s)
    | ok payload ↦
        let run =
          capability.execute payload
            (record { task_id = task.task_id; task_name = task.name; workdir = workdir }) s.runs in
        (execute_with_timeout controls.timeout_seconds run, record s { runs = suc s.runs })
  ]

  unfoldable pub publish_success : TaskRecord → State S G → Result (Unit {0}) × State S G
  publish_success task s = elim guild_knowledge [
    | none ↦ (ok tt, s)
    | some kb ↦
        if kb.enabled
        then (let (r, g) = kb.publish_success task.capability task.input s.guild in
            (r, record s { guild = g }))
        else (ok tt, s)
  ]

  -- The part of the success path that writes the task.
  unfoldable pub mark_completed :
      (started_at : ℕ) → CapabilityResult → TaskRecord → State S G → TaskRecord × State S G
  mark_completed started_at result task s =
      let (completed_at, s) = now config s in
      let task_result : TaskResult = record {
        success = true;
        output = result.output;
        error = none;
        metadata = result.metadata;
        started_at = some started_at;
        completed_at = some completed_at;
      } in
      let move : Move = record {
        to_status = TaskStatus.completed;
        actor = "supervisor";
        action = "completed";
        event_type = EventType.task_completed;
        metadata = ("attempt", int task.attempt) ∷ [];
        error = none;
        timestamp = some completed_at;
      } in
      transition_status config move (record task { result = some task_result }) s

  -- The `try` block behind the run: the task as it leaves it, and what was raised in it. The guild
  -- is told inside the block, so an exception of the guild is caught as one of the capability is.
  unfoldable pub after_run :
      (started_at : ℕ)
      → Result CapabilityResult
      → TaskRecord
      → State S G
      → TaskRecord × Result (Unit {0}) × State S G
  after_run started_at (err e) task s = (task, err e, s)
  after_run started_at (ok result) task s =
      let (task, s) = mark_completed started_at result task s in
      let (r, s) = publish_success task s in (task, r, s)

  -- The `try` block.
  unfoldable pub try_block :
      Capability
      → CapabilityExecutionControls
      → (started_at : ℕ) → TaskRecord
      → State S G
      → TaskRecord × Result (Unit {0}) × State S G
  try_block capability controls started_at task s =
      let (r, s) = run_capability capability controls task s in after_run started_at r task s

  unfoldable pub failure_context : Exn → TaskRecord → FailureContext
  failure_context exc task = record {
    task_id = task.task_id;
    capability = task.capability;
    attempt = task.attempt;
    max_retries = task.max_retries;
    error_type = exc.error_type;
    error_message = exc.message;
    input_fingerprint = some (env.fingerprint task.input);
    metadata = [];
  }

  unfoldable pub record_failure : FailureContext → TaskRecord → State S G → TaskRecord × State S G
  record_failure failure task s =
      let audit : Audit = record {
        actor = "supervisor";
        action = "failure_recorded";
        from_status = none;
        to_status = none;
        metadata = failure_dump failure;
      } in
      let (task, s) = append_audit config audit none task s in save_task config none task s

  -- `self._escalation_policy and self._escalation_policy.should_escalate(...)`
  unfoldable pub should_escalate : TaskRecord → List FailureContext → Bool
  should_escalate task history = elim escalation_policy [
    | none ↦ false
    | some policy ↦ policy.should_escalate task history
  ]

  -- `task.attempt += 1`, and the strategy's new input if it has one.
  unfoldable pub next_attempt : RetryDecision → TaskRecord → TaskRecord
  next_attempt decision task = elim decision.adjusted_input [
    | none ↦ record task { attempt = task.attempt + 1 }
    | some input ↦ record task { attempt = task.attempt + 1; input = input }
  ]

  abbrev retry_metadata : Exn → RetryDecision → TaskRecord → Json
  retry_metadata exc decision task =
      let base : Json =
        ("attempt", int task.attempt)
        ∷ ("previous_attempt", int (task.attempt - 1))
        ∷ ("max_retries", int task.max_retries)
        ∷ ("error", str exc.message)
        ∷ ("retry_reason", opt_str decision.reason)
        ∷ [] in
      if is_some decision.adjusted_input then insert "input_adjusted" (boolean true) base else base

  unfoldable pub pause : Option ℕ → State S G → State S G
  pause none s = s
  pause (some d) s = if ltb 0 d then sleep config d s else s

  -- The audit entry, the save, the event and the delay of a retry.
  unfoldable pub mark_retry : Exn → RetryDecision → TaskRecord → State S G → TaskRecord × State S G
  mark_retry exc decision task s =
      let metadata = retry_metadata exc decision task in
      let audit : Audit = record {
        actor = "supervisor";
        action = "retry";
        from_status = some TaskStatus.running;
        to_status = some TaskStatus.running;
        metadata = metadata;
      } in
      let (task, s) = append_audit config audit none task s in
      let (task, s) = save_task config none task s in
      let s = emit_event config EventType.task_retry task (some exc.message) metadata s in
      (task, pause decision.delay_seconds s)

  -- `self._do_escalate(...)` and the end of the loop.
  unfoldable pub escalate_turn :
      List FailureContext
      → (started_at : ℕ) → Exn
      → (reason : Option String) → TaskRecord
      → Exec (State S G) Turn
  escalate_turn history started_at exc reason task = do
    task ← do_escalate config history started_at exc reason task
    pure (finished task)

  -- `if not decision.should_retry:`
  unfoldable pub give_up :
      List FailureContext
      → (started_at : ℕ) → Exn
      → RetryDecision
      → TaskRecord
      → Exec (State S G) Turn
  give_up history started_at exc decision task =
      if decision.escalate || should_escalate task history
      then escalate_turn history started_at exc
          (if decision.escalate then decision.reason else none) task
      else pure (exhausted task history exc)

  -- Would retry: the escalation policy may still step in.
  unfoldable pub retry :
      List FailureContext
      → (started_at : ℕ) → Exn
      → RetryDecision
      → TaskRecord
      → Exec (State S G) Turn
  retry history started_at exc decision task =
      if should_escalate task history
      then escalate_turn history started_at exc none task
      else (do task ← total (mark_retry exc decision task); pure (again task history))

  -- The two ways on from the decision.
  unfoldable pub follow :
      List FailureContext
      → (started_at : ℕ) → Exn
      → (should_retry : Bool) → RetryDecision
      → TaskRecord
      → Exec (State S G) Turn
  follow history started_at exc true decision task =
      retry history started_at exc decision (next_attempt decision task)
  follow history started_at exc false decision task = give_up history started_at exc decision task

  -- The `except` block.
  unfoldable pub except_block :
      List FailureContext → (started_at : ℕ) → Exn → TaskRecord → Exec (State S G) Turn
  except_block history started_at exc task = do
    let failure = failure_context exc task
    let history = history ++ failure ∷ []
    task ← total (record_failure failure task)
    let decision = retry_strategy task failure
    follow history started_at exc decision.should_retry decision task

  unfoldable pub after_try :
      List FailureContext
      → (started_at : ℕ) → Result (Unit {0})
      → TaskRecord
      → Exec (State S G) Turn
  after_try history started_at (ok _) task = pure (finished task)
  after_try history started_at (err exc) task = except_block history started_at exc task

  -- One turn of `while True`.
  unfoldable pub turn :
      Capability
      → CapabilityExecutionControls
      → (started_at : ℕ) → TaskRecord
      → List FailureContext
      → Exec (State S G) Turn
  turn capability controls started_at task history s =
      let (task, r, s) = try_block capability controls started_at task s in
      after_try history started_at r task s

  -- What follows a turn, where `rerun` is the next one.
  unfoldable pub after_turn :
      (rerun : TaskRecord → List FailureContext → Exec (State S G) TaskRecord)
      → (started_at : ℕ) → Turn
      → Exec (State S G) TaskRecord
  after_turn rerun started_at (finished task) = pure task
  after_turn rerun started_at (exhausted task history exc) =
      finish_failed config history started_at exc task
  after_turn rerun started_at (again task history) = rerun task history

  -- `while True`, with fuel for its turns, and what follows it.
  unfoldable pub loop :
      (fuel : ℕ)
      → Capability
      → CapabilityExecutionControls
      → (started_at : ℕ) → TaskRecord
      → List FailureContext
      → Exec (State S G) TaskRecord
  loop zero capability controls started_at task history = λ s. (out_of_fuel, s)
  loop (suc fuel) capability controls started_at task history =
      turn capability controls started_at task history
      >>= after_turn (loop fuel capability controls started_at) started_at

  unfoldable pub mark_started : (started_at : ℕ) → TaskRecord → State S G → TaskRecord × State S G
  mark_started started_at task =
      let task = record task { attempt = task.attempt + 1 } in
      let move : Move = record {
        to_status = TaskStatus.running;
        actor = "supervisor";
        action = "started";
        event_type = EventType.task_started;
        metadata = ("attempt", int task.attempt) ∷ ("max_retries", int task.max_retries) ∷ [];
        error = none;
        timestamp = some started_at;
      } in
      transition_status config move task

  -- From the wait for the execution window to the end of `run_task`.
  unfoldable pub start :
      (fuel : ℕ)
      → Capability
      → CapabilityExecutionControls
      → TaskRecord
      → Exec (State S G) TaskRecord
  start fuel capability controls task s =
      let s = wait_for_execution_window config task.capability controls.min_interval_seconds s in
      let (started_at, s) = now config s in
      let (task, s) = mark_started started_at task s in
      loop fuel capability controls started_at task [] s
