-- ===== src/Interfaces/Policy.antt =====
-- engine/interfaces/policy.py and the capability contracts of engine/interfaces/capability.py.
use conductor_engine.Base.{ℕ, String, Bool, List, Option}
use conductor_engine.Base.Exec.{Result}
use conductor_engine.Json.{Value, Json}
use conductor_engine.Interfaces.Task.{RiskLevel, TaskRecord}

pub record CapabilityDescriptor : Type 0 where
  pub name : String
  pub description : String
  pub risk_level : RiskLevel
  pub tags : List String
  pub require_approval : Bool

pub record CapabilityContext : Type 0 where
  pub task_id : String
  pub task_name : String
  pub workdir : String

pub record CapabilityResult : Type 0 where
  pub output : Value
  pub metadata : Json

pub record CapabilityExecutionControls : Type 0 where
  pub timeout_seconds : Option ℕ
  pub min_interval_seconds : Option ℕ

-- One run of `execute`: how long it takes, and what it returns or raises.
pub record Run : Type 0 where
  pub duration : ℕ
  pub outcome : Result CapabilityResult

-- A validated payload is the dictionary of its fields. `execute` may do anything outside the
-- engine, so its run depends on how many runs there were before.
pub record Capability : Type 0 where
  pub descriptor : CapabilityDescriptor
  pub validate_input : Json → Result Json
  pub execute : Json → CapabilityContext → ℕ → Run

pub data PolicyDecisionType : Type 0 where
  allow deny require_approval : PolicyDecisionType

pub record PolicyContext : Type 0 where
  pub capability : CapabilityDescriptor
  pub workdir : String

pub record PolicyDecision : Type 0 where
  pub decision : PolicyDecisionType
  pub reason : Option String
  pub metadata : Json

-- An engine is known to the supervisor by its class name and its method `evaluate`.
pub record PolicyEngine : Type 0 where
  pub class_name : String
  pub evaluate : TaskRecord → PolicyContext → Result PolicyDecision
