-- ===== src/Interfaces/Retry.antt =====
-- engine/interfaces/retry.py and engine/interfaces/escalation.py. A strategy or a policy is the
-- function that its one method computes.
use conductor_engine.Base.{ℕ, String, Bool, List, Option}
use conductor_engine.Json.{Json}
use conductor_engine.Interfaces.Task.{TaskRecord}

pub record FailureContext : Type 0 where
  pub task_id : String
  pub capability : String
  pub attempt : ℕ
  pub max_retries : ℕ
  pub error_type : String
  pub error_message : String
  pub input_fingerprint : Option String
  pub metadata : Json

pub record RetryDecision : Type 0 where
  pub should_retry : Bool
  pub delay_seconds : Option ℕ
  pub adjusted_input : Option Json
  pub reason : Option String
  pub escalate : Bool

-- The `decide` of a strategy that does not raise.
abbrev pub RetryStrategy : Type 0
RetryStrategy = TaskRecord → FailureContext → RetryDecision

pub record EscalationConfig : Type 0 where
  pub max_retries_before_escalate : ℕ
  pub escalation_reason : Option String
  pub escalation_metadata : Json

pub record EscalationRecord : Type 0 where
  pub task_id : String
  pub capability : String
  pub total_attempts : ℕ
  pub failure_history : List FailureContext
  pub escalated_at : ℕ
  pub reason : Option String

-- `build_record` is handed the reading of `datetime.now()`.
pub record EscalationPolicy : Type 0 where
  pub should_escalate : TaskRecord → List FailureContext → Bool
  pub build_record : ℕ → TaskRecord → List FailureContext → EscalationRecord
