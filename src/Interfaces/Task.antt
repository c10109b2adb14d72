-- ===== src/Interfaces/Task.antt =====
-- engine/interfaces/task.py
use conductor_engine.Base.{ℕ, String, Bool, List, Option}
use conductor_engine.Json.{Value, Json}

pub data TaskStatus : Type 0 where
  pending running completed failed awaiting_approval approved policy_denied : TaskStatus
  cancelled escalated : TaskStatus

-- The value of a status, as the program writes it in texts.
unfoldable pub status_value : TaskStatus → String
status_value TaskStatus.pending = "pending"
status_value TaskStatus.running = "running"
status_value TaskStatus.completed = "completed"
status_value TaskStatus.failed = "failed"
status_value TaskStatus.awaiting_approval = "awaiting_approval"
status_value TaskStatus.approved = "approved"
status_value TaskStatus.policy_denied = "policy_denied"
status_value TaskStatus.cancelled = "cancelled"
status_value TaskStatus.escalated = "escalated"

pub data RiskLevel : Type 0 where
  low medium high critical : RiskLevel

pub record TaskSubmission : Type 0 where
  pub name : String
  pub capability : String
  pub input : Json
  pub metadata : Json
  pub max_retries : ℕ
  pub workflow_id : Option String

pub record TaskResult : Type 0 where
  pub success : Bool
  pub output : Value
  pub error : Option String
  pub metadata : Json
  pub started_at : Option ℕ
  pub completed_at : Option ℕ

pub record AuditEntry : Type 0 where
  pub timestamp : ℕ
  pub actor : String
  pub action : String
  pub from_status : Option TaskStatus
  pub to_status : Option TaskStatus
  pub metadata : Json

pub record TaskRecord : Type 0 where
  pub task_id : String
  pub name : String
  pub capability : String
  pub input : Json
  pub metadata : Json
  pub status : TaskStatus
  pub result : Option TaskResult
  pub attempt : ℕ
  pub max_retries : ℕ
  pub workflow_id : Option String
  pub archived_at : Option ℕ
  pub audit_trail : List AuditEntry
  pub created_at : ℕ
  pub updated_at : ℕ

-- The value of a risk level.
unfoldable pub risk_value : RiskLevel → String
risk_value low = "low"
risk_value medium = "medium"
risk_value high = "high"
risk_value critical = "critical"
