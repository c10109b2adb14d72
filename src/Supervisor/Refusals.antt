-- ===== src/Supervisor/Refusals.antt =====
-- The calls of engine/supervisor/service.py that are refused, and what they leave behind.
use conductor_engine.Base.{
  ℕ, ◌≤◌, ◌++◌, [], ◌∷◌, String, ◌≡◌, refl, Option, none, some, Bool, true, ◌⊎◌, inl, inr,
  Bool-cases, arith,
}
use conductor_engine.Base.Exec.{Exn, Exec, ok, done, raised}
use conductor_engine.Json.{Json}
use conductor_engine.Interfaces.Task.{TaskStatus, TaskSubmission, TaskRecord}
use conductor_engine.Interfaces.Policy.{Capability}
use conductor_engine.Guardrails.{validate_task_submission}
use conductor_engine.Runtime.Queue.{size, queue_full}
use conductor_engine.Runtime.Queue.Fifo.{HasRoom, enqueue-full, enqueue-room}
use conductor_engine.Supervisor.State.{Config, State, now, stamp}
use conductor_engine.Supervisor.Record.{append_audit}
use conductor_engine.Supervisor.Lifecycle.{get-save_self}
use conductor_engine.Supervisor.Service.{
  found, get_task, run_task, approve_task, cancel_task, is_awaiting, not_found, not_awaiting,
  not_cancellable, submit, create_task_record, store_submission, push,
}

module _ {S G : Type 0} (config : Config S G) where
  -- An id that the store does not know makes `run_task`, `approve_task` and `cancel_task` raise
  -- "was not found", and none of them changes anything.
  pub missing_task :
      (fuel : ℕ) (id actor : String) (m : Json) (run : Bool) (reason : Option String)
      (s : State S G)
      → config.store.get id s.tasks ≡ none
      → (run_task config fuel id s ≡ (raised (not_found id), s))
        × (approve_task config fuel id actor m run s ≡ (raised (not_found id), s))
        × (cancel_task config id actor reason m s ≡ (raised (not_found id), s))
  unfolding run_task approve_task cancel_task get_task found
  missing_task fuel id actor m run reason s e = (simp e, simp e, simp e)

  -- A call that raises and changes nothing.
  abbrev pub Refused : Exec (State S G) TaskRecord → State S G → Type 0
  Refused call s = (e : Exn) × (call s ≡ (raised e, s))

  -- A record that awaits approval stands under the id.
  abbrev pub IsAwaited : String → State S G → Type 0
  IsAwaited id s =
      (t : TaskRecord) × (config.store.get id s.tasks ≡ some t)
      × (t.status ≡ TaskStatus.awaiting_approval)

  is_awaiting-status :
      (status : TaskStatus) → is_awaiting status ≡ true → status ≡ TaskStatus.awaiting_approval
  is_awaiting-status status e = ground arith

  decided :
      (fuel : ℕ) (id actor : String) (m : Json) (run : Bool) (reason : Option String)
      (s : State S G) (o : Option TaskRecord)
      → config.store.get id s.tasks ≡ o
      → IsAwaited id s
        ⊎ (Refused (approve_task config fuel id actor m run) s
            × Refused (cancel_task config id actor reason m) s)
  unfolding approve_task cancel_task get_task found
  decided fuel id actor m run reason s none e = inr ((not_found id, simp e), (not_found id, simp e))
  decided fuel id actor m run reason s (some t) e = elim (Bool-cases (is_awaiting t.status)) [
    | inl awaits ↦ inl (t, e, is_awaiting-status t.status awaits)
    | inr other ↦
        inr ((not_awaiting id, simp (e, other)), (not_cancellable id t.status, simp (e, other)))
  ]

  -- An approval or a cancellation has an effect only on a record in the state AWAITING_APPROVAL:
  -- for every id, such a record stands in the store under it, or `approve_task` and `cancel_task`
  -- of the id both raise and change nothing, be the id unknown or its record in any other state.
  pub approve_task-cancel_task-Refused :
      (fuel : ℕ) (id actor : String) (m : Json) (run : Bool) (reason : Option String)
      (s : State S G)
      → IsAwaited id s
        ⊎ (Refused (approve_task config fuel id actor m run) s
            × Refused (cancel_task config id actor reason m) s)
  approve_task-cancel_task-Refused fuel id actor m run reason s =
      decided fuel id actor m run reason s (config.store.get id s.tasks) refl

  -- A valid submission into a queue with room is stored as a pending record with a fresh id, no
  -- attempts and its own input, and the id goes to the back of the queue.
  pub submit-room :
      (x : TaskSubmission) (s : State S G) (c : Capability)
      → validate_task_submission x config.registry ≡ ok c
      → HasRoom s.queue 1
      → (t : TaskRecord) × ((submit config x s).0 ≡ done t)
        × (t.task_id ≡ config.env.uuid4 s.ids)
        × (t.status ≡ TaskStatus.pending)
        × (t.attempt ≡ 0)
        × (t.input ≡ x.input)
        × (config.store.get t.task_id (submit config x s).1.tasks ≡ some t)
        × ((submit config x s).1.queue.items ≡ s.queue.items ++ t.task_id ∷ [])
  unfolding submit create_task_record push store_submission append_audit stamp now
  submit-room x s c valid room =
      let id = config.env.uuid4 s.ids in
      simp (valid, enqueue-room s.queue id room)
        (_, refl, refl, refl, refl, refl, get-save_self config.store _ _, refl)

  -- A valid submission into a bounded queue that is full raises QueueFull and leaves the queue as
  -- it is, but its record is in the store all the same: pending, and in no queue.
  pub submit-full :
      (x : TaskSubmission) (s : State S G) (c : Capability) (n : ℕ)
      → validate_task_submission x config.registry ≡ ok c
      → s.queue.max_size ≡ some n
      → n ≤ size s.queue
      → (t : TaskRecord) × ((submit config x s).0 ≡ raised (queue_full n))
        × ((submit config x s).1.queue ≡ s.queue)
        × (t.task_id ≡ config.env.uuid4 s.ids)
        × (t.status ≡ TaskStatus.pending)
        × (config.store.get t.task_id (submit config x s).1.tasks ≡ some t)
  unfolding submit create_task_record push store_submission append_audit stamp now
  submit-full x s c n valid bound full =
      let id = config.env.uuid4 s.ids in
      simp (valid, enqueue-full s.queue id n bound full)
        (_, refl, refl, refl, refl, get-save_self config.store _ _)
