-- ===== src/Supervisor/Lifecycle.antt =====
-- The life of a task as a state machine, and the audit trails that are runs of it. This is the
-- specification that the methods of engine/supervisor/service.py implement.
use conductor_engine.Base.{
  String, ◌≡◌, List, [], ◌∷◌, ◌++◌, none, some, str_eq, eq_iff, arith, Bool-cases, inl, inr,
}
use conductor_engine.Interfaces.Task.{TaskStatus, AuditEntry, TaskRecord}
use conductor_engine.Interfaces.Store.{TaskStore}
use conductor_engine.Supervisor.State.{Config, State}
use mathlib.Core.Path.{subst}

-- The changes of status that the life of a task allows.
pub data Allowed : TaskStatus → TaskStatus → Type 0 where
  allow : Allowed TaskStatus.pending TaskStatus.pending
  deny : Allowed TaskStatus.pending TaskStatus.policy_denied
  hold : Allowed TaskStatus.pending TaskStatus.awaiting_approval
  begin_pending : Allowed TaskStatus.pending TaskStatus.running
  approve : Allowed TaskStatus.awaiting_approval TaskStatus.approved
  cancel : Allowed TaskStatus.awaiting_approval TaskStatus.cancelled
  begin_approved : Allowed TaskStatus.approved TaskStatus.running
  retry : Allowed TaskStatus.running TaskStatus.running
  complete : Allowed TaskStatus.running TaskStatus.completed
  fail : Allowed TaskStatus.running TaskStatus.failed
  escalate : Allowed TaskStatus.running TaskStatus.escalated

-- A trail that is a run of the machine, and the status in which it ends. An entry without a target
-- status is a note, and any other starts from the status that the trail has reached.
pub data Trail : List AuditEntry → TaskStatus → Type 0 where
  submitted :
      (e : AuditEntry)
      → e.from_status ≡ none
      → e.to_status ≡ some TaskStatus.pending
      → Trail (e ∷ []) TaskStatus.pending
  noted :
      {l : List AuditEntry} {a : TaskStatus}
      → Trail l a
      → (e : AuditEntry) → e.to_status ≡ none
      → Trail (l ++ e ∷ []) a
  moved :
      {l : List AuditEntry} {a b : TaskStatus}
      → Trail l a
      → (e : AuditEntry) → e.from_status ≡ some a
      → e.to_status ≡ some b
      → Allowed a b
      → Trail (l ++ e ∷ []) b

abbrev pub IsSound : TaskRecord → Type 0
IsSound t = Trail t.audit_trail t.status

module _ {S : Type 0} (store : TaskStore S) where
  -- Every record that the store returns is under its own id, with a sound trail.
  pub record IsLegal (tasks : S) : Type 0 where
    pub at :
        (id : String) (t : TaskRecord) → store.get id tasks ≡ some t → (t.task_id ≡ id) × IsSound t

  pub save-IsLegal :
      (t : TaskRecord) (tasks : S) → IsSound t → IsLegal tasks → IsLegal (store.save t tasks)
  save-IsLegal t tasks sound legal = record { at = at }
    where
      at :
          (id : String) (u : TaskRecord)
          → store.get id (store.save t tasks) ≡ some u
          → (u.task_id ≡ id) × IsSound u
      at id u e = elim (Bool-cases (str_eq t.task_id id)) [
        | inl same ↦
            let p : t ≡ u = ground (arith, store.get-save id t tasks) in
            subst (λ v. (v.task_id ≡ id) × IsSound v) p ((eq_iff t.task_id id).0 same, sound)
        | inr other ↦ legal.at id u (ground (arith, store.get-save id t tasks))
      ]

  pub get-save_self :
      (t : TaskRecord) (tasks : S) → store.get t.task_id (store.save t tasks) ≡ some t
  get-save_self t tasks =
      ground (arith, store.get-save t.task_id t tasks, eq_iff t.task_id t.task_id)

-- The task as a method holds it: sound, and the same as the record in a legal store.
pub record IsFine {S G : Type 0} (config : Config S G) (task : TaskRecord) (s : State S G)
    : Type 0 where
  pub legal : IsLegal config.store s.tasks
  pub sound : IsSound task
  pub stored : config.store.get task.task_id s.tasks ≡ some task
