-- ===== src/Supervisor/Soundness/Service.antt =====
-- Soundness of the public methods of engine/supervisor/service.py, and of any sequence of calls.
use conductor_engine.Base.{
  ℕ, String, ◌≡◌, refl, Option, none, some, Bool, true, false, arith, if◌then◌else◌,
}
use conductor_engine.Base.Exec.{Result, ok, err, lift, total, raise, pure, ◌>>=◌, ◌>>◌}
use conductor_engine.Base.Post.{Post, Post-bind, Post-all, Post-if, Post-weaken}
use conductor_engine.Json.{Json}
use conductor_engine.Interfaces.Task.{TaskStatus, TaskSubmission, TaskRecord}
use conductor_engine.Supervisor.State.{Config, State, now, stamp}
use conductor_engine.Supervisor.Record.{Move, append_audit, save_task, transition_status}
use conductor_engine.Supervisor.Gate.{is_executable}
use conductor_engine.Supervisor.Service.{
  get_task, create_task_record, store_submission, push, run_executable, run_task, found, approval,
  approve_task, cancel_task, mark_cancelled, is_awaiting,
}
use conductor_engine.Supervisor.Lifecycle
use conductor_engine.Supervisor.Lifecycle.{Allowed, IsSound, IsLegal, IsFine, save-IsLegal}
use conductor_engine.Supervisor.Steps.{transition_status-IsFine, IsFine-tasks}
use conductor_engine.Supervisor.Soundness.{
  IsQuiet, Settles, Legal, IsSettled, is_completed, is_failed, is_escalated, is_awaiting_approval,
  is_policy_denied,
}
use conductor_engine.Supervisor.Soundness.Entry.{run_executable-Settles}

eq_awaiting : (a : TaskStatus) → is_awaiting a ≡ true → a ≡ TaskStatus.awaiting_approval
eq_awaiting a e = ground arith

not_executable : (a : TaskStatus) → IsSettled a → is_executable a ≡ false
not_executable a is_completed = refl
not_executable a is_failed = refl
not_executable a is_escalated = refl
not_executable a is_awaiting_approval = refl
not_executable a is_policy_denied = refl

module _ {S G : Type 0} (config : Config S G) where
  -- The record that a method found or returns: sound, stored, under its id.
  pub record Returns (id : String) (t : TaskRecord) (s : State S G) : Type 0 where
    pub fine : IsFine config t s
    pub named : t.task_id ≡ id

  found-Returns :
      (id : String) (o : Option TaskRecord) (s : State S G)
      → config.store.get id s.tasks ≡ o
      → Legal config s
      → Post (Returns id) (Legal config) (found config id o s)
  unfolding found
  found-Returns id none s e legal = legal
  found-Returns id (some t) s e legal =
      let (named, sound) = legal.at id t e in
      record {
        fine = record { legal = legal; sound = sound; stored = simp named e };
        named = named;
      }

  get_task-Returns :
      (id : String) (s : State S G)
      → Legal config s
      → Post (Returns id) (Legal config) (get_task config id s)
  unfolding get_task
  get_task-Returns id s legal = found-Returns id _ s refl legal

  store_submission-IsFine :
      (x : TaskSubmission) (s : State S G)
      → Legal config s
      → IsFine config (store_submission config x s).0 (store_submission config x s).1
  unfolding store_submission append_audit stamp now
  store_submission-IsFine x s legal =
      let sound = Lifecycle.submitted _ refl refl in
      record {
        legal = save-IsLegal config.store _ _ sound legal;
        sound = sound;
        stored = Lifecycle.get-save_self config.store _ _;
      }

  tasks-push : (id : String) (s : State S G) → (push config id s).1.tasks ≡ s.tasks
  unfolding push
  tasks-push id s = refl

  push-IsFine :
      (id : String) (t : TaskRecord) (s : State S G)
      → IsFine config t s
      → IsFine config t (push config id s).1
  push-IsFine id t s fine = IsFine-tasks config fine (tasks-push id s)

  pub create_task_record-IsFine :
      (x : TaskSubmission) (queued : Bool) (s : State S G)
      → Legal config s
      → Post (IsFine config) (Legal config) (create_task_record config x queued s)
  unfolding create_task_record
  create_task_record-IsFine x queued s legal =
      Post-bind (λ _. Legal config) (IsFine config) (Legal config) (lift _) _ s
        (lift-Legal _ s legal) (λ _ u held. queue_it queued u held)
    where
      lift-Legal :
          {A : Type 0} (r : Result A) (s : State S G)
          → Legal config s
          → Post (λ _. Legal config) (Legal config) (lift r s)
      lift-Legal (ok a) s legal = legal
      lift-Legal (err e) s legal = legal

      queue_it :
          (queued : Bool) (u : State S G)
          → Legal config u
          → Post (IsFine config) (Legal config) (
              (total (store_submission config x) >>= λ t.
              if queued then (push config t.task_id >> pure t) else pure t)
                u)
      queue_it false u held = store_submission-IsFine x u held
      queue_it true u held =
          let (t, v) = store_submission config x u in
          let fine = push-IsFine t.task_id t v (store_submission-IsFine x u held) in
          Post-bind (λ _. IsFine config t) (IsFine config) (Legal config) (push config t.task_id) _
            v
            (Post-all (λ _. IsFine config t) (Legal config) (push config t.task_id v) (λ _. fine)
              fine.legal)
            (λ _ w held'. held')

  -- The record with which `run_task` returns is not executable any more.
  pub record Rests (id : String) (t : TaskRecord) (s : State S G) : Type 0 where
    pub returned : Returns id t s
    pub rest : is_executable t.status ≡ false

  Rests-of_settled :
      (id : String) (t : TaskRecord) (s : State S G) → Settles config id t s → Rests id t s
  Rests-of_settled id t s settles = record {
    returned = record { fine = settles.fine; named = settles.named };
    rest = not_executable t.status settles.settled;
  }

  transition-Returns :
      (m : Move) (id : String) (t : TaskRecord) (s : State S G)
      → Allowed t.status m.to_status
      → Returns id t s
      → Returns id (transition_status config m t s).0 (transition_status config m t s).1
  transition-Returns m id t s edge r = record {
    fine = transition_status-IsFine config m t s edge r.fine.sound r.fine.legal;
    named = unfold transition_status append_audit save_task in r.named;
  }

  mark_cancelled-Returns :
      (actor : String) (reason : Option String) (m : Json) (id : String) (t : TaskRecord)
      (s : State S G)
      → t.status ≡ TaskStatus.awaiting_approval
      → Returns id t s
      → Returns id
          (mark_cancelled config actor reason m t s).0
          (mark_cancelled config actor reason m t s).1
  unfolding mark_cancelled now
  mark_cancelled-Returns actor reason m id t s waits r = record {
    fine =
        transition_status-IsFine config _ _ _ (rw waits Lifecycle.cancel) r.fine.sound r.fine.legal;
    named = unfold transition_status append_audit save_task in r.named;
  }

  pub cancel_task-Returns :
      (id actor : String) (reason : Option String) (m : Json) (s : State S G)
      → Legal config s
      → Post (Returns id) (Legal config) (cancel_task config id actor reason m s)
  unfolding cancel_task
  cancel_task-Returns id actor reason m s legal =
      Post-bind (Returns id) (Returns id) (Legal config) (get_task config id) _ s
        (get_task-Returns id s legal)
        (λ t u r.
          Post-if (Returns id) (Legal config) (is_awaiting t.status)
            (total (mark_cancelled config actor reason m t)) (raise _) u
            (λ e. mark_cancelled-Returns actor reason m id t u (eq_awaiting t.status e) r)
            (λ _. r.fine.legal))

  module _ (quiet : IsQuiet config) where
    run_executable-Rests :
        (fuel : ℕ) (id : String) (t : TaskRecord) (s : State S G)
        → is_executable t.status ≡ true
        → Returns id t s
        → Post (Rests id) (Legal config) (run_executable config fuel t s)
    run_executable-Rests fuel id t s ready r =
        Post-weaken (Settles config id) (Rests id) (Legal config) (run_executable config fuel t s)
          (Rests-of_settled id)
          (run_executable-Settles config quiet fuel id t s ready r.fine r.named)

    -- From a legal store, and with a guild that takes reports of success, `run_task` leaves the
    -- store legal, also when it raises. The record that it returns is the one in the store under
    -- the id it was given, its trail is a run of the life cycle that ends in its status, and that
    -- status is neither PENDING nor APPROVED.
    pub run_task-Rests :
        (fuel : ℕ) (id : String) (s : State S G)
        → Legal config s
        → Post (Rests id) (Legal config) (run_task config fuel id s)
    unfolding run_task
    run_task-Rests fuel id s legal =
        Post-bind (Returns id) (Rests id) (Legal config) (get_task config id) _ s
          (get_task-Returns id s legal)
          (λ t u r.
            Post-if (Rests id) (Legal config) (is_executable t.status)
              (run_executable config fuel t) (pure t) u (λ e. run_executable-Rests fuel id t u e r)
              (λ e. record { returned = r; rest = e }))

    pub approve_task-Legal :
        (fuel : ℕ) (id actor : String) (m : Json) (run : Bool) (s : State S G)
        → Legal config s
        → Post (λ _. Legal config) (Legal config) (approve_task config fuel id actor m run s)
    unfolding approve_task push
    approve_task-Legal fuel id actor m run s legal =
        Post-bind (Returns id) (λ _. Legal config) (Legal config) (get_task config id) _ s
          (get_task-Returns id s legal)
          (λ t u r.
            Post-if (λ _. Legal config) (Legal config) (is_awaiting t.status) _ (raise _) u
              (λ e. go run (
                transition-Returns (approval config actor m) id t u
                  (rw (eq_awaiting t.status e) Lifecycle.approve) r))
              (λ _. r.fine.legal))
      where
        go :
            (b : Bool) {t : TaskRecord} {u : State S G}
            → Returns id t u
            → Post
                (λ _. Legal config)
                (Legal config)
                ((if b then run_task config fuel id else (push config id >> pure t)) u)
        go true {t} {u} r =
            Post-weaken (Rests id) (λ _. Legal config) (Legal config) (run_task config fuel id u)
              (λ a v rests. rests.returned.fine.legal) (run_task-Rests fuel id u r.fine.legal)
        go false {t} {u} r =
            Post-bind (λ _. Legal config) (λ _. Legal config) (Legal config) (push config id) _ u
              (Post-all (λ _. Legal config) (Legal config) (push config id u) (λ _. r.fine.legal)
                r.fine.legal)
              (λ _ w held. held)
