-- ===== src/ControlPlane.antt =====
-- engine/control_plane/contracts.py: the status of a workflow, and its trace.
pub mod Summary
pub mod Contracts
pub mod Snapshot
pub mod Grouping
mod Tests
use conductor_engine.Base.{
  ℕ, String, List, [], ◌∷◌, Bool, true, false, any, all, length, ltb, ◌==◌, str_lt, ◌||◌, ◌&&◌,
  sorted, if◌then◌else◌,
}
use conductor_engine.Interfaces.Task.{TaskStatus, TaskRecord, status_value}
use conductor_engine.Workflow.{WorkflowStatus}

-- The values of the statuses of workflows.
unfoldable pub workflow_status_value : WorkflowStatus → String
workflow_status_value WorkflowStatus.pending = "pending"
workflow_status_value WorkflowStatus.running = "running"
workflow_status_value WorkflowStatus.completed = "completed"
workflow_status_value WorkflowStatus.failed = "failed"
workflow_status_value WorkflowStatus.partial = "partial"

abbrev pub is_pending : TaskRecord → Bool
is_pending t = elim t.status [ TaskStatus.pending ↦ true | _ ↦ false ]

abbrev pub is_completed : TaskRecord → Bool
is_completed t = elim t.status [ TaskStatus.completed ↦ true | _ ↦ false ]

-- `active_statuses`
abbrev pub is_active : TaskRecord → Bool
is_active t = elim t.status [
  | TaskStatus.pending ↦ true
  | TaskStatus.running ↦ true
  | TaskStatus.approved ↦ true
  | TaskStatus.awaiting_approval ↦ true
  | _ ↦ false
]

-- `failed_statuses`
abbrev pub is_failure : TaskRecord → Bool
is_failure t = elim t.status [
  | TaskStatus.failed ↦ true
  | TaskStatus.policy_denied ↦ true
  | TaskStatus.cancelled ↦ true
  | TaskStatus.escalated ↦ true
  | _ ↦ false
]

-- `_workflow_status`. With records, `statuses == {s}` says that all have the status `s`, `statuses
-- & group` that some is in the group, and `statuses <= group` that all are.
unfoldable pub workflow_status : List TaskRecord → WorkflowStatus
workflow_status records =
    if length records == 0
    then WorkflowStatus.pending
    else if all is_pending records
    then WorkflowStatus.pending
    else if all is_completed records
    then WorkflowStatus.completed
    else if any is_active records
    then WorkflowStatus.running
    else if all is_failure records
    then WorkflowStatus.failed
    else WorkflowStatus.partial

pub record WorkflowStepV1 : Type 0 where
  pub task_id : String
  pub name : String
  pub capability : String
  pub status : String
  pub attempt : ℕ
  pub created_at : ℕ
  pub updated_at : ℕ

pub record WorkflowTraceV1 : Type 0 where
  pub workflow_id : String
  pub status : String
  pub task_count : ℕ
  pub tasks : List WorkflowStepV1

-- `ControlPlaneWorkflowStepV1.from_task`
unfoldable pub from_task : TaskRecord → WorkflowStepV1
from_task t = record {
  task_id = t.task_id;
  name = t.name;
  capability = t.capability;
  status = status_value t.status;
  attempt = t.attempt;
  created_at = t.created_at;
  updated_at = t.updated_at;
}

abbrev pub steps_of : List TaskRecord → List WorkflowStepV1
steps_of [] = []
steps_of (t ∷ rest) = from_task t ∷ steps_of rest

-- The order of the keys `(created_at, task_id)`.
abbrev pub earlier : TaskRecord → TaskRecord → Bool
earlier a b =
    ltb a.created_at b.created_at || (a.created_at == b.created_at && str_lt a.task_id b.task_id)

-- `ControlPlaneWorkflowTraceV1.from_records`
unfoldable pub from_records : (workflow_id : String) → List TaskRecord → WorkflowTraceV1
from_records workflow_id records =
    let ordered = sorted earlier records in
    record {
      workflow_id = workflow_id;
      status = workflow_status_value (workflow_status ordered);
      task_count = length ordered;
      tasks = steps_of ordered;
    }
