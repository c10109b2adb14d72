-- ===== src/Supervisor/Steps.antt =====
-- Each write to a task record takes a sound trail to a sound trail, and saves what it wrote.
use conductor_engine.Base.{ℕ, String, ◌≡◌, refl, List, Option, none, some, arith}
use conductor_engine.Json.{Json}
use conductor_engine.Base.Exec.{Exn}
use conductor_engine.Interfaces.Task.{TaskStatus, TaskRecord}
use conductor_engine.Interfaces.Retry.{FailureContext}
use conductor_engine.Interfaces.Event.{EventType}
use conductor_engine.Supervisor.State.{Config, State, now, stamp}
use conductor_engine.Supervisor.Record.{
  Move, Audit, append_audit, save_task, emit_event, transition_status, mark_escalated, mark_failed,
  build_record,
}
use conductor_engine.Supervisor.Lifecycle.{
  Allowed, escalate, fail, noted, moved, IsSound, IsLegal, save-IsLegal, get-save_self, IsFine,
}

module _ {S G : Type 0} (config : Config S G) where
  pub tasks-stamp : (o : Option ℕ) (s : State S G) → (stamp config o s).1.tasks ≡ s.tasks
  unfolding stamp
  tasks-stamp none s = refl
  tasks-stamp (some t) s = refl

  pub tasks-emit_event :
      (y : EventType) (t : TaskRecord) (e : Option String) (m : Json) (s : State S G)
      → (emit_event config y t e m s).tasks ≡ s.tasks
  unfolding emit_event now
  tasks-emit_event y t e m s = ground arith

  -- Soundness looks at nothing of the state but the store.
  pub IsFine-tasks :
      {task : TaskRecord} {s u : State S G}
      → IsFine config task s
      → u.tasks ≡ s.tasks
      → IsFine config task u
  IsFine-tasks fine same = record {
    legal = rw same fine.legal;
    sound = fine.sound;
    stored = rw same fine.stored;
  }

  pub save_task-IsFine :
      (o : Option ℕ) (task : TaskRecord) (s : State S G)
      → IsSound task
      → IsLegal config.store s.tasks
      → IsFine config (save_task config o task s).0 (save_task config o task s).1
  unfolding save_task
  save_task-IsFine o task s sound legal = record {
    legal = rw (tasks-stamp o s) (save-IsLegal config.store _ _ sound legal);
    sound = sound;
    stored = get-save_self config.store _ _;
  }

  pub transition_status-IsFine :
      (m : Move) (task : TaskRecord) (s : State S G)
      → Allowed task.status m.to_status
      → IsSound task
      → IsLegal config.store s.tasks
      → IsFine config (transition_status config m task s).0 (transition_status config m task s).1
  unfolding transition_status append_audit stamp
  transition_status-IsFine m task s edge sound legal =
      let fine =
        save_task-IsFine _ _ _ (moved sound _ refl refl edge)
          (rw (tasks-stamp m.timestamp s) legal) in
      IsFine-tasks fine (tasks-emit_event _ _ _ _ _)

  -- An entry that does not change the status, and the save after it.
  pub note-IsFine :
      (a : Audit) (task : TaskRecord) (s : State S G)
      → a.to_status ≡ none
      → IsSound task
      → IsLegal config.store s.tasks
      → let (t, u) = append_audit config a none task s in
        IsFine config (save_task config none t u).0 (save_task config none t u).1
  unfolding append_audit
  note-IsFine a task s still sound legal =
      save_task-IsFine none _ _ (noted sound _ still) (rw (tasks-stamp none s) legal)

  -- An entry that moves from the status of the task to itself, and the save after it.
  pub renew-IsFine :
      (a : Audit) (task : TaskRecord) (s : State S G)
      → a.from_status ≡ some task.status
      → a.to_status ≡ some task.status
      → Allowed task.status task.status
      → IsSound task
      → IsLegal config.store s.tasks
      → let (t, u) = append_audit config a none task s in
        IsFine config (save_task config none t u).0 (save_task config none t u).1
  unfolding append_audit
  renew-IsFine a task s from to edge sound legal =
      save_task-IsFine none _ _ (moved sound _ from to edge) (rw (tasks-stamp none s) legal)

  tasks-build_record :
      (h : List FailureContext) (t : TaskRecord) (s : State S G)
      → (build_record config h t s).1.tasks ≡ s.tasks
  unfolding build_record now
  tasks-build_record h t s = ground arith

  pub mark_escalated-IsFine :
      (history : List FailureContext) (t : ℕ) (e : Exn) (r : Option String) (task : TaskRecord)
      (s : State S G)
      → task.status ≡ TaskStatus.running
      → IsSound task
      → IsLegal config.store s.tasks
      → IsFine config
          (mark_escalated config history t e r task s).0
          (mark_escalated config history t e r task s).1
  unfolding mark_escalated now
  mark_escalated-IsFine history t e r task s running sound legal =
      transition_status-IsFine _ _ _ (rw running escalate) sound (rw tasks-build_record legal)

  pub mark_failed-IsFine :
      (t : ℕ) (e : Exn) (task : TaskRecord) (s : State S G)
      → task.status ≡ TaskStatus.running
      → IsSound task
      → IsLegal config.store s.tasks
      → IsFine config (mark_failed config t e task s).0 (mark_failed config t e task s).1
  unfolding mark_failed now
  mark_failed-IsFine t e task s running sound legal =
      transition_status-IsFine _ _ _ (rw running fail) sound legal
