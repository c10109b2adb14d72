-- ===== src/Api/Tasks/Refused.antt =====
-- What the routes of engine/api/routes/tasks.py answer where the supervisor refuses a call.
use Prim.Native.String.{String, ◌++◌ as str_append}
use text.Mathlib.TextLemmas.{cons-append, nil-append}
use conductor_engine.Base.{
  ℕ, ◌≤◌, ◌≡◌, refl, ap, ◌∙◌, [], ◌∷◌, Option, none, some, Bool, true, false, arith, fstring,
}
use conductor_engine.Base.Exec.{Exn, Outcome, ok, done, raised}
use conductor_engine.Base.Parse.{quoted}
use conductor_engine.Interfaces.Task.{TaskStatus, TaskRecord}
use conductor_engine.Interfaces.Policy.{Capability}
use conductor_engine.Guardrails.{validate_task_submission}
use conductor_engine.Runtime.Queue.{size, queue_full}
use conductor_engine.Supervisor.State.{Config, State}
use conductor_engine.Supervisor.Service
use conductor_engine.Supervisor.Service.{not_found}
use conductor_engine.Supervisor.Refusals.{missing_task, submit-full}
use conductor_engine.ControlPlane.Contracts.{TaskV1}
use conductor_engine.Api.Http.{Response, failed}
use conductor_engine.Api.Auth.Middleware.{AuthContext}
use conductor_engine.Api.Tasks.{
  SubmitTaskRequest, ApproveTaskRequest, CancelTaskRequest, begins, occurs, http, actor_of,
  submission_from, answer, submit_failed, missing_as, decision_failed, submit_task, get_task,
  run_queued_task, approve_task, cancel_task,
}

-- A text is found behind whatever stands before it.
occurs-append :
    (needle a b : String) → occurs needle b ≡ true → occurs needle (str_append a b) ≡ true
unfolding occurs
occurs-append needle String.[] b h = rw nil-append h
occurs-append needle (String.◌∷◌ c a) b h =
    rw cons-append (ground (arith, occurs-append needle a b h))

tail_found : occurs "not found" (fstring ("' was not found" ∷ [])) ≡ true
unfolding occurs begins fstring
tail_found = refl

occurs-not_found : (id : String) → occurs "not found" (not_found id).message ≡ true
occurs-not_found id =
    unfold fstring in
    occurs-append "not found" "Task '" _ (occurs-append "not found" id _ tail_found)

-- What the theorems use of Python's classes: a class is a subclass of itself, and `QueueFull` is
-- neither a `ValueError` nor a `KeyError`.
pub record IsPython (is_subclass : String → String → Bool) : Type 0 where
  pub value_error : is_subclass "ValueError" "ValueError" ≡ true
  pub full : is_subclass "QueueFull" "QueueFull" ≡ true
  pub full-value : is_subclass "QueueFull" "ValueError" ≡ false
  pub full-key : is_subclass "QueueFull" "KeyError" ≡ false

module _ (is_subclass : String → String → Bool) (python : IsPython is_subclass) {S G : Type 0}
    (config : Config S G) where
  decision_failed-missing :
      (code id : String)
      → decision_failed is_subclass code (not_found id)
        ≡ failed (http 404 code (not_found id).message)
  unfolding decision_failed
  decision_failed-missing code id = rw python.value_error (rw (occurs-not_found id) refl)

  missing_as-missing :
      (message id : String)
      → missing_as is_subclass message (not_found id) ≡ failed (http 404 "not_found" message)
  unfolding missing_as
  missing_as-missing message id = rw python.value_error refl

  get_task-missing :
      (id : String) (s : State S G)
      → config.store.get id s.tasks ≡ none
      → Service.get_task config id s ≡ (raised (not_found id), s)
  unfolding Service.get_task Service.found
  get_task-missing id s e = rw e refl

  submit_failed-full :
      (n : ℕ)
      → submit_failed is_subclass (queue_full n)
        ≡ failed (http 429 "queue_full" (queue_full n).message)
  unfolding submit_failed
  submit_failed-full n = rw python.full-value (rw python.full-key (rw python.full refl))

  answer-raised :
      (except_ : Exn → Response TaskV1) (e : Exn) (r : Outcome TaskRecord × State S G)
      → r.0 ≡ raised e
      → answer is_subclass except_ r ≡ (done (except_ e), r.1)
  answer-raised except_ e (r, s) h =
      ap (λ (x : Outcome TaskRecord). answer is_subclass except_ (x, s)) h

  -- With Python's classes of exceptions: for an id that the store does not know, the routes to
  -- approve, to cancel, to run and to get a task answer 404, and change nothing.
  pub routes-missing :
      (fuel : ℕ) (id : String) (a : ApproveTaskRequest) (c : CancelTaskRequest) (auth : AuthContext)
      (s : State S G)
      → config.store.get id s.tasks ≡ none
      → (approve_task is_subclass config fuel id a auth s
          ≡ (done (failed (http 404 "approve_failed" (not_found id).message)), s))
        × (cancel_task is_subclass config id c auth s
            ≡ (done (failed (http 404 "cancel_failed" (not_found id).message)), s))
        × (run_queued_task is_subclass config fuel id s
            ≡ (done (failed (http 404 "not_found" (not_found id).message)), s))
        × (get_task is_subclass config id s ≡ (
          done (failed (http 404 "not_found" (fstring ("Task " ∷ quoted id ∷ " not found" ∷ [])))),
          s,
        ))
  unfolding approve_task cancel_task run_queued_task get_task
  routes-missing fuel id a c auth s e =
      let refused = λ (actor : String) (reason : Option String).
        missing_task config fuel id actor a.metadata a.run reason s e in
      let cancelled =
        missing_task config fuel id (actor_of c.actor auth) c.metadata true c.reason s e in
      (
        ap (answer is_subclass (decision_failed is_subclass "approve_failed"))
              (refused (actor_of a.actor auth) none).1
            ∙ ap (λ r. (done r, s)) (decision_failed-missing "approve_failed" id),
        ap (answer is_subclass (decision_failed is_subclass "cancel_failed")) cancelled.2
            ∙ ap (λ r. (done r, s)) (decision_failed-missing "cancel_failed" id),
        ap (answer is_subclass (λ x. missing_as is_subclass x.message x)) (refused "" none).0
            ∙ ap (λ r. (done r, s)) (missing_as-missing (not_found id).message id),
        ap
              (answer is_subclass
                (missing_as is_subclass (fstring ("Task " ∷ quoted id ∷ " not found" ∷ []))))
              (get_task-missing id s e)
            ∙ ap (λ r. (done r, s))
                (missing_as-missing (fstring ("Task " ∷ quoted id ∷ " not found" ∷ [])) id),
      )

  -- A valid submission that a full bounded queue refuses is answered by 429, although its record
  -- stays in the store, pending, and in no queue.
  pub submit_task-full :
      (b : SubmitTaskRequest) (auth : AuthContext) (s : State S G) (c : Capability) (n : ℕ)
      → validate_task_submission (submission_from b auth) config.registry ≡ ok c
      → s.queue.max_size ≡ some n
      → n ≤ size s.queue
      → (t : TaskRecord) × ((submit_task is_subclass config b auth s).0
          ≡ done (failed (http 429 "queue_full" (queue_full n).message)))
        × ((submit_task is_subclass config b auth s).1.queue ≡ s.queue)
        × (t.task_id ≡ config.env.uuid4 s.ids)
        × (t.status ≡ TaskStatus.pending)
        × (config.store.get t.task_id (submit_task is_subclass config b auth s).1.tasks ≡ some t)
  unfolding submit_task
  submit_task-full b auth s c n valid bound full =
      let (t, raises, queue, id, status, stored) =
        submit-full config (submission_from b auth) s c n valid bound full in
      let answered = answer-raised (submit_failed is_subclass) (queue_full n) _ raises in
      (
        t,
        ap (λ r. r.0) answered ∙ ap done (submit_failed-full n),
        ap (λ r. r.1.queue) answered ∙ queue,
        id,
        status,
        ap (λ r. config.store.get t.task_id r.1.tasks) answered ∙ stored,
      )
