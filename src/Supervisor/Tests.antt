-- ===== src/Supervisor/Tests.antt =====
-- The theorems about engine/supervisor/service.py applied to a small supervisor.
use conductor_engine.Base.{◌⊎◌, ◌≡◌, refl, [], ◌∷◌, none, some, arith, true, lookup, is_blank, ◌++◌}
use conductor_engine.Base.Exec.{done, raised}
use conductor_engine.Base.Post.{Post}
use conductor_engine.Base.Ends.{Ends}
use conductor_engine.Interfaces.Task.{TaskStatus, TaskRecord}
use conductor_engine.Guardrails.{validate_task_submission}
use conductor_engine.Registry
use conductor_engine.Registry.{CapabilityRegistry}
use conductor_engine.Runtime.Queue.{queue_full}
use conductor_engine.Runtime.Store.{memory_get}
use conductor_engine.Runtime.Store.Law.{memory_store}
use conductor_engine.Runtime.Retry.{decide_default}
use conductor_engine.Supervisor.State.{wait_for_execution_window}
use conductor_engine.Supervisor.Gate.{build_submission}
use conductor_engine.Supervisor.Service.{run_task, submit, approve_task, cancel_task}
use conductor_engine.Supervisor.Soundness.{Legal, IsQuiet}
use conductor_engine.Supervisor.Soundness.Service.{Rests, run_task-Rests}
use conductor_engine.Supervisor.Soundness.Calls.{
  call_submit, call_run_next, call_approve, calls, calls-Legal,
}
use conductor_engine.Supervisor.Termination.Loop.{IsBounded, Within}
use conductor_engine.Supervisor.Termination.RunTask.{run_task-Ends}
use conductor_engine.Supervisor.Authority.{Stops, run_task-require_approval, run_task-policy}
use conductor_engine.Supervisor.Refusals.{
  Refused, IsAwaited, approve_task-cancel_task-Refused, submit-room, submit-full,
}
use conductor_engine.Supervisor.Window.{Apart, wait_for_execution_window-Apart}
use conductor_engine.Supervisor.Samples.{
  env, flaky, guarded, retries, config_with, decision, closed_policy, config, task, submission,
  fresh, holding, crowded,
}

quiet : IsQuiet config
quiet kb c i g e = cc

decide_default-IsBounded : IsBounded (decide_default retries)
unfolding decide_default
decide_default-IsBounded t f beyond = ground arith

fresh-Legal : Legal config fresh
unfolding memory_store memory_get lookup
fresh-Legal = record { at = λ id t e. cc }

calls-Legal_example : Legal config (
    calls config 3
      (call_submit (submission "flaky")
        ∷ call_submit (submission "guarded")
        ∷ call_run_next
        ∷ call_run_next
        ∷ call_approve "task-1" "user" [] true
        ∷ [])
      fresh)
calls-Legal_example = calls-Legal config quiet 3 _ fresh fresh-Legal

run_task-Rests_example :
    Post
      (Rests config "task-0")
      (Legal config)
      (run_task config 3 "task-0" (calls config 3 (call_submit (submission "flaky") ∷ []) fresh))
run_task-Rests_example =
    run_task-Rests config quiet 3 "task-0"
      (calls config 3 (call_submit (submission "flaky") ∷ []) fresh)
      (calls-Legal config quiet 3 (call_submit (submission "flaky") ∷ []) fresh fresh-Legal)

run_task-Ends_example :
    Ends (λ _. Within config 3) (Within config 3) (run_task config 3 "t" (holding "flaky"))
unfolding memory_store memory_get lookup
run_task-Ends_example =
    run_task-Ends config decide_default-IsBounded 3 "t" (task "flaky") (holding "flaky") refl
      (omega arith)

run_task-require_approval_example :
    Stops config TaskStatus.awaiting_approval
      (holding "guarded")
      (run_task config 3 "t" (holding "guarded"))
unfolding memory_store memory_get lookup validate_task_submission build_submission is_blank
    Registry.get
run_task-require_approval_example =
    run_task-require_approval config 3 "t" (task "guarded") (holding "guarded") guarded refl refl
      refl refl

run_task-policy_example :
    Stops
      (config_with closed_policy)
      TaskStatus.policy_denied
      (holding "flaky")
      (run_task (config_with closed_policy) 3 "t" (holding "flaky"))
unfolding memory_store memory_get lookup validate_task_submission build_submission is_blank
    Registry.get
run_task-policy_example =
    run_task-policy (config_with closed_policy) 3 "t" (task "flaky") (holding "flaky") flaky
      decision refl refl refl refl refl (λ e. cc)

approve_task-cancel_task-Refused_example :
    IsAwaited config "t" (holding "flaky")
    ⊎ (Refused config (approve_task config 3 "t" "user" [] true) (holding "flaky")
        × Refused config (cancel_task config "t" "user" none []) (holding "flaky"))
approve_task-cancel_task-Refused_example =
    approve_task-cancel_task-Refused config 3 "t" "user" [] true none (holding "flaky")

wait_for_execution_window-Apart_example :
    Apart config "flaky" "guarded" 3 10 fresh
      (wait_for_execution_window config "flaky" (some 10) fresh)
unfolding lookup
wait_for_execution_window-Apart_example =
    wait_for_execution_window-Apart config "flaky" "guarded" 3 10 fresh refl (omega arith)

submit-room_example :
    (t : TaskRecord) × ((submit config (submission "flaky") fresh).0 ≡ done t)
    × (t.task_id ≡ env.uuid4 0)
    × (t.status ≡ TaskStatus.pending)
    × (t.attempt ≡ 0)
    × (t.input ≡ [])
    × (config.store.get t.task_id (submit config (submission "flaky") fresh).1.tasks ≡ some t)
    × ((submit config (submission "flaky") fresh).1.queue.items ≡ [] ++ t.task_id ∷ [])
unfolding validate_task_submission is_blank Registry.get lookup
submit-room_example = submit-room config (submission "flaky") fresh flaky refl (λ n e. cc)

submit-full_example :
    (t : TaskRecord) × ((submit config (submission "flaky") crowded).0 ≡ raised (queue_full 1))
    × ((submit config (submission "flaky") crowded).1.queue ≡ crowded.queue)
    × (t.task_id ≡ env.uuid4 0)
    × (t.status ≡ TaskStatus.pending)
    × (config.store.get t.task_id (submit config (submission "flaky") crowded).1.tasks ≡ some t)
unfolding validate_task_submission is_blank Registry.get lookup
submit-full_example =
    submit-full config (submission "flaky") crowded flaky 1 refl refl (omega arith)
