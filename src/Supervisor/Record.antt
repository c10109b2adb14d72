-- ===== src/Supervisor/Record.antt =====
-- The helpers of `TaskSupervisor` that write a task record: audit entries, saves, events, status
-- transitions and the escalation record.
use conductor_engine.Base.{
  ℕ, String, false, List, [], ◌∷◌, ◌++◌, Option, none, some, length, if◌then◌else◌,
}
use conductor_engine.Base.Exec.{Exn, Exec, done, raised, ok, err, pure, total, ◌>>=◌, ◌>>◌}
use conductor_engine.Json.{
  null, int, str, time, array, object, Items, nil, cons, Json, fields, opt_str,
}
use conductor_engine.Interfaces.Task.{TaskStatus, TaskResult, AuditEntry, TaskRecord}
use conductor_engine.Interfaces.Retry.{FailureContext, EscalationRecord}
use conductor_engine.Interfaces.Event.{EventType, TaskEvent}
use conductor_engine.Supervisor.State.{Config, State, now, stamp}

-- `failure.model_dump()`
pub failure_dump : FailureContext → Json
failure_dump f =
    ("task_id", str f.task_id)
    ∷ ("capability", str f.capability)
    ∷ ("attempt", int f.attempt)
    ∷ ("max_retries", int f.max_retries)
    ∷ ("error_type", str f.error_type)
    ∷ ("error_message", str f.error_message)
    ∷ ("input_fingerprint", opt_str f.input_fingerprint)
    ∷ ("metadata", object (fields f.metadata))
    ∷ []

failure_dumps : List FailureContext → Items
failure_dumps [] = nil
failure_dumps (f ∷ rest) = cons (object (fields (failure_dump f))) (failure_dumps rest)

-- `escalation_record.model_dump()`
pub record_dump : EscalationRecord → Json
unfolding failure_dumps
record_dump r =
    ("task_id", str r.task_id)
    ∷ ("capability", str r.capability)
    ∷ ("total_attempts", int r.total_attempts)
    ∷ ("failure_history", array (failure_dumps r.failure_history))
    ∷ ("escalated_at", time r.escalated_at)
    ∷ ("reason", opt_str r.reason)
    ∷ []

-- What `_append_audit` is told besides the task and the time.
pub record Audit : Type 0 where
  pub actor : String
  pub action : String
  pub from_status : Option TaskStatus
  pub to_status : Option TaskStatus
  pub metadata : Json

-- The audit entry, at a time.
abbrev pub entry_at : Audit → ℕ → AuditEntry
entry_at a t = record {
  timestamp = t;
  actor = a.actor;
  action = a.action;
  from_status = a.from_status;
  to_status = a.to_status;
  metadata = a.metadata;
}

-- What `_transition_status` is told besides the task.
pub record Move : Type 0 where
  pub to_status : TaskStatus
  pub actor : String
  pub action : String
  pub event_type : EventType
  pub metadata : Json
  pub error : Option String
  pub timestamp : Option ℕ

-- The result of a task that did not succeed.
abbrev pub failed_result :
    (error : String) → Json → (started_at : Option ℕ) → (completed_at : ℕ) → TaskResult
failed_result error metadata started_at completed_at = record {
  success = false;
  output = null;
  error = some error;
  metadata = metadata;
  started_at = started_at;
  completed_at = some completed_at;
}

module _ {S G : Type 0} (config : Config S G) where
  open config use {env, store, escalation_policy, guild_knowledge}

  -- `_append_audit`
  unfoldable pub append_audit :
      Audit → (timestamp : Option ℕ) → TaskRecord → State S G → TaskRecord × State S G
  append_audit a timestamp task s =
      let (t, s) = stamp config timestamp s in
      (record task { audit_trail = task.audit_trail ++ entry_at a t ∷ [] }, s)

  -- `_save_task`
  unfoldable pub save_task :
      (timestamp : Option ℕ) → TaskRecord → State S G → TaskRecord × State S G
  save_task timestamp task s =
      let (t, s) = stamp config timestamp s in
      let saved = record task { updated_at = t } in
      (saved, record s { tasks = store.save saved s.tasks })

  -- `_emit_event`: an event bus that raises is ignored.
  unfoldable pub emit_event :
      EventType → TaskRecord → (error : Option String) → Json → State S G → State S G
  emit_event event_type task error metadata s =
      let (t, s) = now config s in
      let event : TaskEvent = record {
        event_type = event_type;
        task_id = task.task_id;
        task_name = task.name;
        capability = task.capability;
        status = task.status;
        attempt = task.attempt;
        timestamp = t;
        workflow_id = task.workflow_id;
        error = error;
        metadata = metadata;
      } in
      if env.bus_raises event then s else record s { events = s.events ++ event ∷ [] }

  -- `_transition_status`
  unfoldable pub transition_status : Move → TaskRecord → State S G → TaskRecord × State S G
  transition_status m task s =
      let (t, s) = stamp config m.timestamp s in
      let moved = record task { status = m.to_status } in
      let audit : Audit = record {
        actor = m.actor;
        action = m.action;
        from_status = some task.status;
        to_status = some m.to_status;
        metadata = m.metadata;
      } in
      let (task, s) = append_audit audit (some t) moved s in
      let (task, s) = save_task (some t) task s in
      (task, emit_event m.event_type task m.error m.metadata s)

  -- The escalation record, if there is a policy that builds one.
  unfoldable pub build_record :
      List FailureContext → TaskRecord → State S G → Option EscalationRecord × State S G
  build_record history task s = elim escalation_policy [
    | none ↦ (none, s)
    | some policy ↦ let (t, s) = now config s in (some (policy.build_record t task history), s)
  ]

  escalation_metadata : Option EscalationRecord → (reason : Option String) → Json
  escalation_metadata (some r) reason = ("escalation_record", object (fields (record_dump r))) ∷ []
  escalation_metadata none (some reason) = ("escalation_reason", str reason) ∷ []
  escalation_metadata none none = []

  -- `if self._guild_knowledge is not None and self._guild_knowledge.enabled: ...publish(...)`
  unfoldable pub publish_failures :
      List FailureContext → (hint : String) → TaskRecord → Exec (State S G) (Unit {0})
  publish_failures history hint task s = elim guild_knowledge [
    | none ↦ (done tt, s)
    | some kb ↦
        if kb.enabled
        then (let (r, g) = kb.publish task.capability history hint s.guild in
            let s = record s { guild = g } in
            elim r [ ok _ ↦ (done tt, s) | err e ↦ (raised e, s) ])
        else (done tt, s)
  ]

  -- The part of `_do_escalate` that writes the task.
  unfoldable pub mark_escalated :
      List FailureContext
      → (started_at : ℕ) → Exn
      → (reason : Option String) → TaskRecord
      → State S G
      → TaskRecord × State S G
  unfolding escalation_metadata
  mark_escalated history started_at exc reason task s =
      let (escalated_at, s) = now config s in
      let (escalation, s) = build_record history task s in
      let result =
        failed_result exc.message (escalation_metadata escalation reason) (some started_at)
          escalated_at in
      let move : Move = record {
        to_status = TaskStatus.escalated;
        actor = "supervisor";
        action = "escalated";
        event_type = EventType.task_escalated;
        metadata = ("attempt", int task.attempt) ∷ ("total_failures", int (length history)) ∷ [];
        error = some exc.message;
        timestamp = some escalated_at;
      } in
      transition_status move (record task { result = some result }) s

  -- `_do_escalate`
  unfoldable pub do_escalate :
      List FailureContext
      → (started_at : ℕ) → Exn
      → (reason : Option String) → TaskRecord
      → Exec (State S G) TaskRecord
  do_escalate history started_at exc reason task = do
    task ← total (mark_escalated history started_at exc reason task)
    publish_failures history "Escalated — no further retries attempted" task
    pure task

  -- The part of the end of `run_task` that writes a task whose retries are exhausted.
  unfoldable pub mark_failed :
      (started_at : ℕ) → Exn → TaskRecord → State S G → TaskRecord × State S G
  mark_failed started_at exc task s =
      let (failed_at, s) = now config s in
      let result = failed_result exc.message [] (some started_at) failed_at in
      let move : Move = record {
        to_status = TaskStatus.failed;
        actor = "supervisor";
        action = "failed";
        event_type = EventType.task_failed;
        metadata = ("attempt", int task.attempt) ∷ [];
        error = some exc.message;
        timestamp = some failed_at;
      } in
      transition_status move (record task { result = some result }) s

  -- `if last_exc is not None:` at the end of `run_task`. The guild hears of the failures first.
  unfoldable pub finish_failed :
      List FailureContext → (started_at : ℕ) → Exn → TaskRecord → Exec (State S G) TaskRecord
  finish_failed history started_at exc task = do
    publish_failures history "All retries exhausted — task failed" task
    total (mark_failed started_at exc task)
