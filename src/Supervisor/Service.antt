-- ===== src/Supervisor/Service.antt =====
-- The public methods of `TaskSupervisor`.
use conductor_engine.Base.{
  ℕ, suc, String, Bool, true, false, List, [], ◌∷◌, Option, none, some, fstring, or_text,
  if◌then◌else◌,
}
use conductor_engine.Base.Exec.{Exn, done, Exec, pure, raise, total, lift, value_error, ◌>>=◌, ◌>>◌}
use conductor_engine.Json.{int, Json}
use conductor_engine.Interfaces.Task.{TaskStatus, TaskSubmission, TaskRecord, status_value}
use conductor_engine.Interfaces.Event.{EventType}
use conductor_engine.Interfaces.Policy.{Capability}
use conductor_engine.Registry
use conductor_engine.Guardrails.{validate_task_submission}
use conductor_engine.Runtime.Queue.{enqueue, dequeue}
use conductor_engine.Supervisor.State.{Config, State, now}
use conductor_engine.Supervisor.Record.{Move, Audit, append_audit, transition_status, failed_result}
use conductor_engine.Supervisor.Gate.{
  Gate, stopped, passed, is_executable, build_submission, gate, apply_suggestions, with_reason,
}
use conductor_engine.Supervisor.Execution.{start}

abbrev pub is_awaiting : TaskStatus → Bool
is_awaiting TaskStatus.awaiting_approval = true
is_awaiting _ = false

abbrev pub not_found : String → Exn
not_found task_id = value_error (fstring ("Task '" ∷ task_id ∷ "' was not found" ∷ []))

abbrev pub not_awaiting : String → Exn
not_awaiting task_id =
    value_error (fstring ("Task '" ∷ task_id ∷ "' is not awaiting approval" ∷ []))

abbrev pub not_cancellable : String → TaskStatus → Exn
not_cancellable task_id status = value_error (
    fstring
      ("Task '" ∷ task_id ∷ "' cannot be cancelled from status '" ∷ status_value status ∷ "'" ∷ []))

module _ {S G : Type 0} (config : Config S G) where
  open config use {env, registry, store}

  unfoldable pub found : String → Option TaskRecord → Exec (State S G) TaskRecord
  found task_id none = raise (not_found task_id)
  found task_id (some task) = pure task

  -- `get_task`
  unfoldable pub get_task : String → Exec (State S G) TaskRecord
  unfolding found
  get_task task_id s = found task_id (store.get task_id s.tasks) s

  -- A new `TaskRecord`, with a fresh id and the defaults of its fields.
  abbrev new_record : TaskSubmission → (id : String) → (created_at updated_at : ℕ) → TaskRecord
  new_record submission id created_at updated_at = record {
    task_id = id;
    name = submission.name;
    capability = submission.capability;
    input = submission.input;
    metadata = submission.metadata;
    status = TaskStatus.pending;
    result = none;
    attempt = 0;
    max_retries = submission.max_retries;
    workflow_id = submission.workflow_id;
    archived_at = none;
    audit_trail = [];
    created_at = created_at;
    updated_at = updated_at;
  }

  -- The record that a valid submission becomes, with its first audit entry, saved.
  unfoldable pub store_submission : TaskSubmission → State S G → TaskRecord × State S G
  store_submission submission s =
      let id = env.uuid4 s.ids in
      let s = record s { ids = suc s.ids } in
      let (created_at, s) = now config s in
      let (updated_at, s) = now config s in
      let task = new_record submission id created_at updated_at in
      let audit : Audit = record {
        actor = "supervisor";
        action = "submitted";
        from_status = none;
        to_status = some TaskStatus.pending;
        metadata = ("max_retries", int task.max_retries) ∷ [];
      } in
      let (task, s) = append_audit config audit (some task.created_at) task s in
      (task, record s { tasks = store.save task s.tasks })

  -- `self.queue.enqueue(task_id)`
  unfoldable pub push : String → Exec (State S G) (Unit {0})
  push task_id s = let (r, queue) = enqueue task_id s.queue in (r, record s { queue = queue })

  -- `_create_task_record`
  unfoldable pub create_task_record : TaskSubmission → (queued : Bool) → Exec (State S G) TaskRecord
  create_task_record submission queued = do
    lift (validate_task_submission submission registry)
    task ← total (store_submission submission)
    if queued then (do push task.task_id; pure task) else pure task

  -- `submit`
  unfoldable pub submit : TaskSubmission → Exec (State S G) TaskRecord
  submit submission = create_task_record submission true

  -- `run_task` behind the gate.
  unfoldable pub after_gate : (fuel : ℕ) → Capability → Gate → Exec (State S G) TaskRecord
  after_gate fuel capability (stopped task) = pure task
  after_gate fuel capability (passed task) = do
    task ← total (apply_suggestions config task)
    controls ← lift (Registry.execution_controls task.capability registry)
    start config fuel capability controls task

  -- `run_task` after the status check.
  unfoldable pub run_executable : (fuel : ℕ) → TaskRecord → Exec (State S G) TaskRecord
  run_executable fuel task = do
    capability ← lift (validate_task_submission (build_submission task) registry)
    entry ← gate config capability task
    after_gate fuel capability entry

  -- `run_task`
  unfoldable pub run_task : (fuel : ℕ) → String → Exec (State S G) TaskRecord
  run_task fuel task_id = do
    task ← get_task task_id
    if is_executable task.status then run_executable fuel task else pure task

  -- `run_submission`
  unfoldable pub run_submission : (fuel : ℕ) → TaskSubmission → Exec (State S G) TaskRecord
  run_submission fuel submission = do
    task ← create_task_record submission false
    run_task fuel task.task_id

  unfoldable pub pop : Exec (State S G) (Option String)
  pop s = let (id, queue) = dequeue s.queue in (done id, record s { queue = queue })

  unfoldable pub run_popped_task : (fuel : ℕ) → Option String → Exec (State S G) TaskRecord
  run_popped_task fuel none = raise (value_error "No queued tasks are available")
  run_popped_task fuel (some task_id) = run_task fuel task_id

  -- `run_next`
  unfoldable pub run_next : (fuel : ℕ) → Exec (State S G) TaskRecord
  run_next fuel = do next ← pop; run_popped_task fuel next

  abbrev pub approval : (actor : String) → Json → Move
  approval actor metadata = record {
    to_status = TaskStatus.approved;
    actor = actor;
    action = "approved";
    event_type = EventType.task_approved;
    metadata = metadata;
    error = none;
    timestamp = none;
  }

  -- `approve_task`
  unfoldable pub approve_task :
      (fuel : ℕ) → String → (actor : String) → Json → (run : Bool) → Exec (State S G) TaskRecord
  approve_task fuel task_id actor metadata run = do
    task ← get_task task_id
    if is_awaiting task.status
        then (do
          task ← total (transition_status config (approval actor metadata) task)
          if run then run_task fuel task_id else (do push task_id; pure task))
        else raise (not_awaiting task_id)

  unfoldable pub mark_cancelled :
      (actor : String)
      → (reason : Option String) → Json
      → TaskRecord
      → State S G
      → TaskRecord × State S G
  mark_cancelled actor reason metadata task s =
      let metadata = with_reason reason metadata in
      let (cancelled_at, s) = now config s in
      let error = or_text reason "Task cancelled" in
      let move : Move = record {
        to_status = TaskStatus.cancelled;
        actor = actor;
        action = "cancelled";
        event_type = EventType.task_cancelled;
        metadata = metadata;
        error = some error;
        timestamp = some cancelled_at;
      } in
      transition_status config move
        (record task { result = some (failed_result error metadata none cancelled_at) }) s

  -- `cancel_task`
  unfoldable pub cancel_task :
      String → (actor : String) → (reason : Option String) → Json → Exec (State S G) TaskRecord
  cancel_task task_id actor reason metadata = do
    task ← get_task task_id
    if is_awaiting task.status
        then total (mark_cancelled actor reason metadata task)
        else raise (not_cancellable task_id task.status)

  -- `list_tasks`
  unfoldable pub list_tasks :
      (limit : Option ℕ) → (offset : ℕ) → (status : Option String) → State S G → List TaskRecord
  list_tasks limit offset status s = store.list_tasks limit offset status s.tasks
