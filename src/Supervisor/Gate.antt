-- ===== src/Supervisor/Gate.antt =====
-- What `run_task` does before it executes: status check, validation, approval, policy, and the
-- suggestions of the guild.
use conductor_engine.Base.{
  String, Bool, true, false, List, [], ◌∷◌, Option, none, some, insert, has_key, or_text,
  if◌then◌else◌,
}
use conductor_engine.Base.Exec.{Exec, pure, total, lift, ◌>>=◌}
use conductor_engine.Json.{Value, str, tenths, Json, opt_str}
use conductor_engine.Interfaces.Task.{TaskStatus, TaskSubmission, TaskRecord}
use conductor_engine.Interfaces.Policy.{
  Capability, PolicyDecision, PolicyDecisionType, allow, deny, require_approval,
}
use conductor_engine.Interfaces.Event.{EventType}
use conductor_engine.Interfaces.Guild.{GuildSuggestion, to_key}
use conductor_engine.Supervisor.State.{Config, State, now}
use conductor_engine.Supervisor.Record.{
  Move, Audit, append_audit, save_task, transition_status, failed_result,
}

-- `task.status == TaskStatus.PENDING`
abbrev pub is_pending : TaskStatus → Bool
is_pending TaskStatus.pending = true
is_pending _ = false

-- `task.status in EXECUTABLE_STATUSES`
abbrev pub is_executable : TaskStatus → Bool
is_executable TaskStatus.pending = true
is_executable TaskStatus.approved = true
is_executable _ = false

-- `_build_submission`
unfoldable pub build_submission : TaskRecord → TaskSubmission
build_submission task = record {
  name = task.name;
  capability = task.capability;
  input = task.input;
  metadata = task.metadata;
  max_retries = task.max_retries;
  workflow_id = task.workflow_id;
}

-- `dict.setdefault`
abbrev pub set_default : String → Value → Json → Json
set_default k v m = if has_key k m then m else insert k v m

abbrev pub with_reason : Option String → Json → Json
with_reason none m = m
with_reason (some reason) m = set_default "reason" (str reason) m

abbrev decision_type : PolicyDecisionType → String
decision_type allow = "allow"
decision_type deny = "deny"
decision_type require_approval = "require_approval"

-- The metadata that `_apply_policy` records of a decision.
unfoldable pub policy_metadata : String → PolicyDecision → Json
policy_metadata class_name d =
    insert "decision_type" (str (decision_type d.decision))
      (insert "policy_engine" (str class_name) (with_reason d.reason d.metadata))

-- `dict.update`
pub update : Json → Json → Json
update target [] = target
update target ((k, v) ∷ rest) = update (insert k v target) rest

-- What the gate lets through, or the record with which `run_task` returns.
pub data Gate : Type 0 where
  stopped : TaskRecord → Gate
  passed : TaskRecord → Gate

module _ {S G : Type 0} (config : Config S G) where
  open config use {policy, peer_suggestions, workdir}

  abbrev awaiting : Json → Move
  awaiting metadata = record {
    to_status = TaskStatus.awaiting_approval;
    actor = "policy";
    action = "awaiting_approval";
    event_type = EventType.task_awaiting_approval;
    metadata = metadata;
    error = none;
    timestamp = none;
  }

  unfoldable pub deny_task : Json → PolicyDecision → TaskRecord → State S G → TaskRecord × State S G
  deny_task metadata decision task s =
      let (denied_at, s) = now config s in
      let error = or_text decision.reason "Task denied by policy" in
      let move : Move = record {
        to_status = TaskStatus.policy_denied;
        actor = "policy";
        action = "denied";
        event_type = EventType.task_policy_denied;
        metadata = metadata;
        error = some error;
        timestamp = some denied_at;
      } in
      transition_status config move
        (record task { result = some (failed_result error metadata none denied_at) }) s

  unfoldable pub allow_task : Json → TaskRecord → State S G → TaskRecord × State S G
  allow_task metadata task s =
      let audit : Audit = record {
        actor = "policy";
        action = "allowed";
        from_status = some TaskStatus.pending;
        to_status = some TaskStatus.pending;
        metadata = metadata;
      } in
      let (task, s) = append_audit config audit none task s in save_task config none task s

  -- `_apply_policy`
  unfoldable pub apply_policy : PolicyDecision → TaskRecord → State S G → TaskRecord × State S G
  apply_policy decision task s =
      let metadata = policy_metadata policy.class_name decision in
      elim decision.decision [
        | deny ↦ deny_task metadata decision task s
        | require_approval ↦ transition_status config (awaiting metadata) task s
        | allow ↦ allow_task metadata task s
      ]

  unfoldable pub consult_policy : Capability → TaskRecord → Exec (State S G) Gate
  consult_policy capability task = do
    decision ←
        lift
          (policy.evaluate task (record { capability = capability.descriptor; workdir = workdir }))
    task ← total (apply_policy decision task)
    pure (if is_pending task.status then passed task else stopped task)

  -- The approval gate of the capability, which comes before the policy engine.
  unfoldable pub require_capability_approval : TaskRecord → State S G → TaskRecord × State S G
  require_capability_approval task =
      transition_status config
        (record (awaiting (
          ("reason", str "capability requires approval")
          ∷ ("capability", str task.capability)
          ∷ [])) { actor = "supervisor" })
        task

  -- `if task.status == TaskStatus.PENDING: ...`
  unfoldable pub gate : Capability → TaskRecord → Exec (State S G) Gate
  gate capability task =
      if is_pending task.status
      then (if capability.descriptor.require_approval
          then (do task ← total (require_capability_approval task); pure (stopped task))
          else consult_policy capability task)
      else pure (passed task)

  -- The best suggestion adjusts the input.
  unfoldable pub apply_suggestion :
      GuildSuggestion → TaskRecord → State S G → TaskRecord × State S G
  apply_suggestion best task s =
      let task = record task { input = update task.input best.approach_adjustment } in
      let audit : Audit = record {
        actor = "guild";
        action = "peer_suggestion_applied";
        from_status = none;
        to_status = none;
        metadata =
            ("fingerprint", str (to_key best.fingerprint))
            ∷ ("confidence", tenths best.confidence)
            ∷ ("resolution_hint", opt_str best.resolution_hint)
            ∷ ("source_role", opt_str best.source_role)
            ∷ ("source_project", opt_str best.source_project)
            ∷ [];
      } in
      let (task, s) = append_audit config audit none task s in save_task config none task s

  unfoldable pub apply_best : List GuildSuggestion → TaskRecord → State S G → TaskRecord × State S G
  apply_best [] task s = (task, s)
  apply_best (best ∷ rest) task s = apply_suggestion best task s

  -- What the guild suggests, if there is a peer engine and it is enabled.
  suggestions : TaskRecord → State S G → List GuildSuggestion
  suggestions task s = elim peer_suggestions [
    | none ↦ []
    | some peers ↦ if peers.enabled then peers.suggest task.capability task.input s.guild else []
  ]

  -- `if self._peer_suggestions is not None and self._peer_suggestions.enabled: ...`
  unfoldable pub apply_suggestions : TaskRecord → State S G → TaskRecord × State S G
  unfolding suggestions
  apply_suggestions task s = apply_best (suggestions task s) task s
