-- ===== src/Supervisor/Soundness/Calls.antt =====
-- Any sequence of calls of the methods of engine/supervisor/service.py.
use conductor_engine.Base.{ℕ, String, List, [], ◌∷◌, Option, none, some, Bool, true, false}
use conductor_engine.Base.Exec.{Outcome, done, raised, out_of_fuel, Exec}
use conductor_engine.Base.Post.{Post, Post-bind, Post-weaken}
use conductor_engine.Json.{Json}
use conductor_engine.Interfaces.Task.{TaskSubmission, TaskRecord}
use conductor_engine.Supervisor.State.{Config, State}
use conductor_engine.Supervisor.Service.{
  submit, run_submission, run_next, run_task, approve_task, cancel_task, create_task_record, pop,
  run_popped_task,
}
use conductor_engine.Supervisor.Lifecycle.{IsFine}
use conductor_engine.Supervisor.Soundness.{IsQuiet, Legal}
use conductor_engine.Supervisor.Soundness.Service.{
  Returns, Rests, create_task_record-IsFine, cancel_task-Returns, run_task-Rests,
  approve_task-Legal,
}

-- The methods of the supervisor that change its state, with their arguments.
pub data Call : Type 0 where
  call_submit : TaskSubmission → Call
  call_run_submission : TaskSubmission → Call
  call_run_next : Call
  call_run_task : String → Call
  call_approve : (task_id actor : String) → Json → (run : Bool) → Call
  call_cancel : (task_id actor : String) → (reason : Option String) → Json → Call

module _ {S G : Type 0} (config : Config S G) where
  unfoldable pub call : (fuel : ℕ) → Call → Exec (State S G) TaskRecord
  call fuel (call_submit x) = submit config x
  call fuel (call_run_submission x) = run_submission config fuel x
  call fuel call_run_next = run_next config fuel
  call fuel (call_run_task id) = run_task config fuel id
  call fuel (call_approve id actor m run) = approve_task config fuel id actor m run
  call fuel (call_cancel id actor reason m) = cancel_task config id actor reason m

  -- The state after a sequence of calls; a call that raises ends only itself.
  unfoldable pub calls : (fuel : ℕ) → List Call → State S G → State S G
  calls fuel [] s = s
  calls fuel (c ∷ rest) s = calls fuel rest (call fuel c s).1

  Post-Legal :
      {A : Type 0} (r : Outcome A × State S G)
      → Post (λ _. Legal config) (Legal config) r
      → Legal config r.1
  Post-Legal (done a, s) p = p
  Post-Legal (raised e, s) p = p
  Post-Legal (out_of_fuel, s) p = p

  module _ (quiet : IsQuiet config) where
    run_task-Legal :
        (fuel : ℕ) (id : String) (s : State S G)
        → Legal config s
        → Post (λ _. Legal config) (Legal config) (run_task config fuel id s)
    run_task-Legal fuel id s legal =
        Post-weaken (Rests config id) (λ _. Legal config) (Legal config) (run_task config fuel id s)
          (λ t u rests. rests.returned.fine.legal) (run_task-Rests config quiet fuel id s legal)

    run_popped :
        (fuel : ℕ) (o : Option String) (s : State S G)
        → Legal config s
        → Post (λ _. Legal config) (Legal config) (run_popped_task config fuel o s)
    unfolding run_popped_task
    run_popped fuel none s legal = legal
    run_popped fuel (some id) s legal = run_task-Legal fuel id s legal

    call-Legal :
        (fuel : ℕ) (c : Call) (s : State S G)
        → Legal config s
        → Post (λ _. Legal config) (Legal config) (call fuel c s)
    unfolding call submit run_submission run_next pop
    call-Legal fuel (call_submit x) s legal =
        Post-weaken (IsFine config) (λ _. Legal config) (Legal config)
          (create_task_record config x true s) (λ t u fine. fine.legal)
          (create_task_record-IsFine config x true s legal)
    call-Legal fuel (call_run_submission x) s legal =
        Post-bind (IsFine config) (λ _. Legal config) (Legal config)
          (create_task_record config x false) _ s (create_task_record-IsFine config x false s legal)
          (λ t u fine. run_task-Legal fuel t.task_id u fine.legal)
    call-Legal fuel call_run_next s legal = run_popped fuel _ _ legal
    call-Legal fuel (call_run_task id) s legal = run_task-Legal fuel id s legal
    call-Legal fuel (call_approve id actor m run) s legal =
        approve_task-Legal config quiet fuel id actor m run s legal
    call-Legal fuel (call_cancel id actor reason m) s legal =
        Post-weaken (Returns config id) (λ _. Legal config) (Legal config)
          (cancel_task config id actor reason m s) (λ t u r. r.fine.legal)
          (cancel_task-Returns config id actor reason m s legal)

    -- Whatever methods are called, in whatever order and with whatever outcomes, a store whose
    -- records stand under their ids with audit trails that are runs of the life cycle stays such a
    -- store, if the guild takes reports of success.
    pub calls-Legal :
        (fuel : ℕ) (l : List Call) (s : State S G) → Legal config s → Legal config (calls fuel l s)
    unfolding calls
    calls-Legal fuel [] s legal = legal
    calls-Legal fuel (c ∷ rest) s legal =
        calls-Legal fuel rest _ (Post-Legal (call fuel c s) (call-Legal fuel c s legal))
