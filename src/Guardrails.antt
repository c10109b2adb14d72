-- ===== src/Guardrails.antt =====
-- engine/guardrails/validation.py: `validate_task_submission`.
use conductor_engine.Base.{String, is_blank, if◌then◌else◌}
use conductor_engine.Base.Exec.{Result, ok, err, value_error}
use conductor_engine.Interfaces.Task.{TaskSubmission}
use conductor_engine.Interfaces.Policy.{Capability}
use conductor_engine.Registry
use conductor_engine.Registry.{CapabilityRegistry}

-- `except KeyError as exc: raise ValueError(str(exc))`
abbrev resolve : String → CapabilityRegistry → Result Capability
resolve name registry = elim (Registry.get name registry) [
  | ok capability ↦ ok capability
  | err e ↦ err (value_error e.message)
]

abbrev accept : TaskSubmission → Result Capability → Result Capability
accept submission (err e) = err e
accept submission (ok capability) = elim (capability.validate_input submission.input) [
  | ok _ ↦ ok capability
  | err e ↦ err e
]

unfoldable pub validate_task_submission : TaskSubmission → CapabilityRegistry → Result Capability
validate_task_submission submission registry =
    if is_blank submission.name
    then err (value_error "Task name must not be empty")
    else if is_blank submission.capability
    then err (value_error "Task capability must not be empty")
    else accept submission (resolve submission.capability registry)
