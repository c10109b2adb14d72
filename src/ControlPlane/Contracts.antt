-- ===== src/ControlPlane/Contracts.antt =====
-- The contracts of engine/control_plane/contracts.py for tasks, approvals, capabilities and events.
use conductor_engine.Base.{ℕ, String, List, [], Option, none, some, Bool, map, length, ◌==◌}
use conductor_engine.Json.{Value, Json}
use conductor_engine.Interfaces.Task.{
  TaskStatus, TaskRecord, TaskResult, AuditEntry, status_value, risk_value,
}
use conductor_engine.Interfaces.Event.{TaskEvent, event_value}
use conductor_engine.Interfaces.Policy.{CapabilityDescriptor, CapabilityExecutionControls}

pub record AuditEntryV1 : Type 0 where
  pub timestamp : ℕ
  pub actor : String
  pub action : String
  pub from_status : Option String
  pub to_status : Option String
  pub metadata : Json

-- `_status_value`
abbrev pub opt_status : Option TaskStatus → Option String
opt_status none = none
opt_status (some s) = some (status_value s)

-- `ControlPlaneAuditEntryV1.from_audit_entry`
unfoldable pub from_audit_entry : AuditEntry → AuditEntryV1
from_audit_entry e = record {
  timestamp = e.timestamp;
  actor = e.actor;
  action = e.action;
  from_status = opt_status e.from_status;
  to_status = opt_status e.to_status;
  metadata = e.metadata;
}

pub record TaskResultV1 : Type 0 where
  pub success : Bool
  pub output : Value
  pub error : Option String
  pub metadata : Json
  pub started_at : Option ℕ
  pub completed_at : Option ℕ

-- `ControlPlaneTaskResultV1.from_result`
unfoldable pub from_result : TaskResult → TaskResultV1
from_result r = record {
  success = r.success;
  output = r.output;
  error = r.error;
  metadata = r.metadata;
  started_at = r.started_at;
  completed_at = r.completed_at;
}

abbrev pub opt_result : Option TaskResult → Option TaskResultV1
opt_result none = none
opt_result (some r) = some (from_result r)

pub record TaskV1 : Type 0 where
  pub task_id : String
  pub name : String
  pub capability : String
  pub status : String
  pub attempt : ℕ
  pub max_retries : ℕ
  pub workflow_id : Option String
  pub input : Json
  pub metadata : Json
  pub result : Option TaskResultV1
  pub audit_trail : List AuditEntryV1
  pub created_at : ℕ
  pub updated_at : ℕ
  pub archived_at : Option ℕ

-- `ControlPlaneTaskV1.from_task`
unfoldable pub task_from : TaskRecord → TaskV1
task_from t = record {
  task_id = t.task_id;
  name = t.name;
  capability = t.capability;
  status = status_value t.status;
  attempt = t.attempt;
  max_retries = t.max_retries;
  workflow_id = t.workflow_id;
  input = t.input;
  metadata = t.metadata;
  result = opt_result t.result;
  audit_trail = map from_audit_entry t.audit_trail;
  created_at = t.created_at;
  updated_at = t.updated_at;
  archived_at = t.archived_at;
}

pub record ApprovalV1 : Type 0 where
  pub task_id : String
  pub task_name : String
  pub capability : String
  pub workflow_id : Option String
  pub requested_at : ℕ
  pub audit_entries : List AuditEntryV1

-- `ControlPlaneApprovalV1.from_task`
unfoldable pub approval_from : TaskRecord → ApprovalV1
approval_from t = record {
  task_id = t.task_id;
  task_name = t.name;
  capability = t.capability;
  workflow_id = t.workflow_id;
  requested_at = t.updated_at;
  audit_entries = map from_audit_entry t.audit_trail;
}

pub record ExecutionControlsV1 : Type 0 where
  pub timeout_seconds : Option ℕ
  pub min_interval_seconds : Option ℕ

-- `ControlPlaneCapabilityExecutionControlsV1.from_controls`
unfoldable pub from_controls : CapabilityExecutionControls → ExecutionControlsV1
from_controls c = record {
  timeout_seconds = c.timeout_seconds;
  min_interval_seconds = c.min_interval_seconds;
}

pub record CapabilityV1 : Type 0 where
  pub name : String
  pub description : String
  pub risk_level : String
  pub tags : List String
  pub execution_controls : ExecutionControlsV1

-- `ControlPlaneCapabilityV1.from_descriptor`
unfoldable pub from_descriptor : CapabilityDescriptor → CapabilityExecutionControls → CapabilityV1
from_descriptor d c = record {
  name = d.name;
  description = d.description;
  risk_level = risk_value d.risk_level;
  tags = d.tags;
  execution_controls = from_controls c;
}

pub record HealthComponentV1 : Type 0 where
  pub name : String
  pub healthy : Bool
  pub detail : String
  pub issues : List String

-- A component of `build_health_components`: its name, the issues that its `health_check` returns,
-- if it has that method, and its detail.
pub record Checked : Type 0 where
  pub name : String
  pub health_check : Option (List String)
  pub detail : String

-- `_component_issues`
abbrev pub component_issues : Option (List String) → List String
component_issues none = []
component_issues (some issues) = issues

-- `build_health_components`
unfoldable pub build_health_components : List Checked → List HealthComponentV1
build_health_components components =
    map
      (λ c. record {
        name = c.name;
        healthy = length (component_issues c.health_check) == 0;
        detail = c.detail;
        issues = component_issues c.health_check;
      })
      components

pub record EventV1 : Type 0 where
  pub timestamp : ℕ
  pub event_type : String
  pub task_id : String
  pub task_name : String
  pub capability : String
  pub status : String
  pub attempt : ℕ
  pub workflow_id : Option String
  pub error : Option String
  pub metadata : Json

-- `ControlPlaneEventV1.from_task_event`
unfoldable pub from_task_event : TaskEvent → EventV1
from_task_event e = record {
  timestamp = e.timestamp;
  event_type = event_value e.event_type;
  task_id = e.task_id;
  task_name = e.task_name;
  capability = e.capability;
  status = status_value e.status;
  attempt = e.attempt;
  workflow_id = e.workflow_id;
  error = e.error;
  metadata = e.metadata;
}
