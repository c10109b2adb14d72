-- ===== src/Runtime/Escalation.antt =====
-- engine/runtime/escalation.py
use conductor_engine.Base.{ℕ, List, [], ◌∷◌, some, Bool, length, leb, fstring, show, or_text}
use conductor_engine.Interfaces.Task.{TaskRecord}
use conductor_engine.Interfaces.Retry.{
  FailureContext, EscalationConfig, EscalationRecord, EscalationPolicy,
}

-- `ThresholdEscalationPolicy.should_escalate`
unfoldable pub should_escalate : EscalationConfig → TaskRecord → List FailureContext → Bool
should_escalate config task history = leb config.max_retries_before_escalate (length history)

-- `ThresholdEscalationPolicy.build_record`
unfoldable pub build_record :
    EscalationConfig → ℕ → TaskRecord → List FailureContext → EscalationRecord
build_record config now task history = record {
  task_id = task.task_id;
  capability = task.capability;
  total_attempts = task.attempt;
  failure_history = history;
  escalated_at = now;
  reason = some (
      or_text config.escalation_reason (
        fstring
          ("Escalation threshold reached after " ∷ show (length history) ∷ " failure(s)" ∷ [])));
}

abbrev pub threshold_policy : EscalationConfig → EscalationPolicy
threshold_policy config = record {
  should_escalate = should_escalate config;
  build_record = build_record config;
}
