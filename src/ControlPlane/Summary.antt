-- ===== src/ControlPlane/Summary.antt =====
-- The trace of a workflow, as engine/control_plane/contracts.py reports it, against its tasks.
use conductor_engine.Base.{
  ℕ, suc, ◌+◌, ◌==◌, if◌then◌else◌, String, ◌≡◌, ◌≢◌, ◌⊎◌, inl, inr, true, false, refl, ◌∙◌, List,
  [], ◌∷◌, Bool, ◌&&◌, ◌||◌, any, all, length, arith, place, sort_onto, sorted,
}
use native.Mathlib.Nat.{zero-add}
use conductor_engine.Base.Ranked.{count, count-sorted}
use conductor_engine.Interfaces.Task.{TaskRecord}
use conductor_engine.Workflow.{WorkflowStatus}
use conductor_engine.ControlPlane.{
  workflow_status, workflow_status_value, is_pending, is_completed, is_active, is_failure,
  WorkflowStepV1, from_task, earlier, steps_of, from_records,
}

all-place :
    (p : TaskRecord → Bool) (x : TaskRecord) (l : List TaskRecord)
    → all p (place earlier x l) ≡ (p x && all p l)
unfolding place
all-place p x [] = refl
all-place p x (y ∷ rest) = ground (arith, all-place p x rest)

any-place :
    (p : TaskRecord → Bool) (x : TaskRecord) (l : List TaskRecord)
    → any p (place earlier x l) ≡ (p x || any p l)
unfolding place
any-place p x [] = refl
any-place p x (y ∷ rest) = ground (arith, any-place p x rest)

length-place : (x : TaskRecord) (l : List TaskRecord) → length (place earlier x l) ≡ suc (length l)
unfolding place
length-place x [] = refl
length-place x (y ∷ rest) = ground (arith, length-place x rest)

all-sort_onto :
    (p : TaskRecord → Bool) (acc l : List TaskRecord)
    → all p (sort_onto earlier acc l) ≡ (all p acc && all p l)
unfolding sort_onto
all-sort_onto p acc [] = ground arith
all-sort_onto p acc (x ∷ rest) =
    ground (arith, all-sort_onto p (place earlier x acc) rest, all-place p x acc)

any-sort_onto :
    (p : TaskRecord → Bool) (acc l : List TaskRecord)
    → any p (sort_onto earlier acc l) ≡ (any p acc || any p l)
unfolding sort_onto
any-sort_onto p acc [] = ground arith
any-sort_onto p acc (x ∷ rest) =
    ground (arith, any-sort_onto p (place earlier x acc) rest, any-place p x acc)

length-sort_onto :
    (acc l : List TaskRecord) → length (sort_onto earlier acc l) ≡ length acc + length l
unfolding sort_onto
length-sort_onto acc [] = omega arith
length-sort_onto acc (x ∷ rest) =
    omega (arith, length-sort_onto (place earlier x acc) rest, length-place x acc)

length-steps_of : (l : List TaskRecord) → length (steps_of l) ≡ length l
length-steps_of [] = refl
length-steps_of (t ∷ rest) = omega (arith, length-steps_of rest)

workflow_status-sort_onto :
    (records : List TaskRecord)
    → workflow_status (sort_onto earlier [] records) ≡ workflow_status records
unfolding workflow_status
workflow_status-sort_onto records =
    simp (length-sort_onto, all-sort_onto, any-sort_onto, zero-add) refl

workflow_status-sorted :
    (records : List TaskRecord) → workflow_status (sorted earlier records) ≡ workflow_status records
unfolding sorted
workflow_status-sorted records = workflow_status-sort_onto records

length-sorted : (records : List TaskRecord) → length (sorted earlier records) ≡ length records
unfolding sorted
length-sorted records = length-sort_onto [] records ∙ zero-add (length records)

count-steps_of :
    (p : WorkflowStepV1 → Bool) (l : List TaskRecord)
    → count p (steps_of l) ≡ count (λ t. p (from_task t)) l
count-steps_of p [] = refl
count-steps_of p (t ∷ rest) = ground (arith, count-steps_of p rest)

-- Which status a trace shows for which tasks; no two of the five cases hold at once.
abbrev pub Shows : List TaskRecord → String → Type 0
Shows records status =
    ((status ≡ "pending") × (all is_pending records ≡ true))
    ⊎ ((status ≡ "completed") × (all is_completed records ≡ true) × (length records ≢ 0))
    ⊎ ((status ≡ "running") × (any is_active records ≡ true) × (all is_pending records ≡ false))
    ⊎ ((status ≡ "failed") × (all is_failure records ≡ true) × (length records ≢ 0))
    ⊎ ((status ≡ "partial")
        × (any is_active records ≡ false)
        × (all is_completed records ≡ false)
        × (all is_failure records ≡ false))

suc-ne-zero : (n : ℕ) → suc n ≢ 0
suc-ne-zero n e = omega arith

-- The cases of `_workflow_status` for some tasks, by what it asks.
shown :
    (n : ℕ) (pending completed active failure : Bool)
    → let status = workflow_status_value (
        if pending
        then WorkflowStatus.pending
        else if completed
        then WorkflowStatus.completed
        else if active
        then WorkflowStatus.running
        else if failure
        then WorkflowStatus.failed
        else WorkflowStatus.partial) in
      ((status ≡ "pending") × (pending ≡ true))
      ⊎ ((status ≡ "completed") × (completed ≡ true) × (suc n ≢ 0))
      ⊎ ((status ≡ "running") × (active ≡ true) × (pending ≡ false))
      ⊎ ((status ≡ "failed") × (failure ≡ true) × (suc n ≢ 0))
      ⊎ ((status ≡ "partial") × (active ≡ false) × (completed ≡ false) × (failure ≡ false))
unfolding workflow_status_value
shown n true c a f = inl (refl, refl)
shown n false true a f = inr (inl (refl, refl, suc-ne-zero n))
shown n false false true f = inr (inr (inl (refl, refl, refl)))
shown n false false false true = inr (inr (inr (inl (refl, refl, suc-ne-zero n))))
shown n false false false false = inr (inr (inr (inr (refl, refl, refl, refl))))

workflow_status-Shows :
    (records : List TaskRecord) → Shows records (workflow_status_value (workflow_status records))
unfolding workflow_status workflow_status_value
workflow_status-Shows [] = inl (refl, refl)
workflow_status-Shows (t ∷ rest) =
    let some_task : (length (t ∷ rest) == 0) ≡ false = ground arith in
    rw some_task (
      shown (length rest) (all is_pending (t ∷ rest)) (all is_completed (t ∷ rest))
        (any is_active (t ∷ rest)) (all is_failure (t ∷ rest)))

-- The trace of a workflow, in whatever order its tasks are given. It shows "pending" if all are
-- pending or there is none; else "completed" if all are completed, "running" if some task is
-- pending, running, approved or awaiting approval, "failed" if all are failed, denied, cancelled
-- or escalated, and "partial" if none of this holds. It has one step for each task, as many as it
-- counts, and each step as often as a task reports it; `p` stands for any test of a step.
pub from_records-status :
    (id : String) (records : List TaskRecord) (p : WorkflowStepV1 → Bool)
    → let trace = from_records id records in
      Shows records trace.status
      × (trace.task_count ≡ length records)
      × (length trace.tasks ≡ trace.task_count)
      × (count p trace.tasks ≡ count (λ t. p (from_task t)) records)
unfolding from_records
from_records-status id records p = (
  rw (workflow_status-sorted records) (workflow_status-Shows records),
  length-sorted records,
  length-steps_of (sorted earlier records),
  count-steps_of p (sorted earlier records) ∙ count-sorted earlier (λ t. p (from_task t)) records,
)
