-- ===== src/Interfaces/Event.antt =====
-- engine/interfaces/event.py
use conductor_engine.Base.{ℕ, String, Option}
use conductor_engine.Json.{Json}
use conductor_engine.Interfaces.Task.{TaskStatus}

pub data EventType : Type 0 where
  task_started task_completed task_failed task_retry task_policy_denied : EventType
  task_awaiting_approval task_approved task_cancelled task_escalated : EventType
  guild_meeting_completed : EventType

pub record TaskEvent : Type 0 where
  pub event_type : EventType
  pub task_id : String
  pub task_name : String
  pub capability : String
  pub status : TaskStatus
  pub attempt : ℕ
  pub timestamp : ℕ
  pub workflow_id : Option String
  pub error : Option String
  pub metadata : Json

-- The value of a type of events.
unfoldable pub event_value : EventType → String
event_value EventType.task_started = "task_started"
event_value EventType.task_completed = "task_completed"
event_value EventType.task_failed = "task_failed"
event_value EventType.task_retry = "task_retry"
event_value EventType.task_policy_denied = "task_policy_denied"
event_value EventType.task_awaiting_approval = "task_awaiting_approval"
event_value EventType.task_approved = "task_approved"
event_value EventType.task_cancelled = "task_cancelled"
event_value EventType.task_escalated = "task_escalated"
event_value EventType.guild_meeting_completed = "guild_meeting_completed"
