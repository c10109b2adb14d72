-- ===== src/Interfaces/Trigger.antt =====
-- engine/interfaces/scheduler.py
use conductor_engine.Base.{ℕ, String}
use conductor_engine.Interfaces.Task.{TaskSubmission}

pub data TriggerSource : Type 0 where
  cron webhook : TriggerSource

unfoldable pub source_value : TriggerSource → String
source_value cron = "cron"
source_value webhook = "webhook"

pub record TriggerDispatch : Type 0 where
  pub dispatch_id : String
  pub source : TriggerSource
  pub trigger_name : String
  pub scheduled_for : ℕ
  pub emitted_at : ℕ
  pub submission : TaskSubmission
