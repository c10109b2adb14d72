-- ===== src/ControlPlane/Grouping.antt =====
-- What the snapshot of engine/control_plane/contracts.py has of the tasks and of the registry.
use conductor_engine.Base.{
  ℕ, suc, ◌+◌, String, ◌≡◌, refl, sym, ◌∙◌, ap, List, [], ◌∷◌, Option, none, some, Bool, true,
  false, ◌&&◌, str_eq, arith, map, all, keep, length, lookup, Assoc, sorted, str_lt, if◌then◌else◌,
  has_key, is_some,
}
use conductor_engine.Base.Exec.{Result, ok}
use conductor_engine.Base.Ranked.{count, count-sorted, all-sorted}
use conductor_engine.Base.Groups.{
  total, by_key, sum-length, total-append_to, total-sorted, total_of, total_of-append_to,
  total_of-sorted,
}
use conductor_engine.Interfaces.Task.{TaskRecord}
use conductor_engine.Interfaces.Policy.{Capability, CapabilityExecutionControls}
use conductor_engine.Registry
use conductor_engine.Registry.{CapabilityRegistry}
use conductor_engine.ControlPlane.{WorkflowTraceV1, earlier, from_records}
use conductor_engine.ControlPlane.Contracts.{
  TaskV1, ApprovalV1, CapabilityV1, HealthComponentV1, task_from, approval_from, from_descriptor,
}
use conductor_engine.ControlPlane.Summary.{from_records-status}
use conductor_engine.ControlPlane.Snapshot.{
  SnapshotV1, snapshot_of, is_awaiting, grouped, group, traces, capabilities_of,
  build_control_plane_snapshot,
}

-- The tasks that some traces count.
abbrev pub counted : List WorkflowTraceV1 → ℕ
counted [] = 0
counted (w ∷ rest) = w.task_count + counted rest

abbrev pub in_workflow : TaskRecord → Bool
in_workflow t = is_some t.workflow_id

abbrev one : TaskRecord → ℕ
one t = 1

-- The tasks that the traces of one workflow count.
abbrev pub counted_of : (id : String) → List WorkflowTraceV1 → ℕ
counted_of id [] = 0
counted_of id (w ∷ rest) =
    (if str_eq w.workflow_id id then w.task_count else 0) + counted_of id rest

abbrev pub is_of : (id : String) → Option String → Bool
is_of id none = false
is_of id (some key) = str_eq key id

-- `task.workflow_id == id`
abbrev pub in_workflow_of : (id : String) → TaskRecord → Bool
in_workflow_of id t = is_of id t.workflow_id

trace-id : (id : String) (l : List TaskRecord) → (from_records id l).workflow_id ≡ id
unfolding from_records
trace-id id l = refl

task_count-length : (id : String) (l : List TaskRecord) → (from_records id l).task_count ≡ length l
task_count-length id l = (from_records-status id l (λ s. true)).1

counted_of-traces :
    (id : String) (g : Assoc (List TaskRecord)) → counted_of id (traces g) ≡ total_of id one g
counted_of-traces id [] = refl
counted_of-traces id ((key, l) ∷ rest) =
    rw (trace-id key l)
      (ground (arith, task_count-length key l, counted_of-traces id rest, sum-length l))

total_of-grouped :
    (id : String) (o : Option String) (t : TaskRecord) (g : Assoc (List TaskRecord))
    → total_of id one (grouped o t g) ≡ (if is_of id o then 1 else 0) + total_of id one g
total_of-grouped id none t g = omega arith
total_of-grouped id (some key) t g = total_of-append_to id one key t g

total_of-group :
    (id : String) (l : List TaskRecord) (g : Assoc (List TaskRecord))
    → total_of id one (group l g) ≡ total_of id one g + count (in_workflow_of id) l
unfolding group
total_of-group id [] g = omega arith
total_of-group id (t ∷ rest) g = ground (
  arith,
  total_of-group id rest (grouped t.workflow_id t g),
  total_of-grouped id t.workflow_id t g,
)

counted-traces : (g : Assoc (List TaskRecord)) → counted (traces g) ≡ total one g
counted-traces [] = refl
counted-traces ((id, l) ∷ rest) =
    omega (arith, task_count-length id l, counted-traces rest, sum-length l)

total-grouped :
    (o : Option String) (t : TaskRecord) (g : Assoc (List TaskRecord))
    → total one (grouped o t g) ≡ (if is_some o then suc (total one g) else total one g)
total-grouped none t g = refl
total-grouped (some id) t g = omega (arith, total-append_to one id t g)

total-group :
    (l : List TaskRecord) (g : Assoc (List TaskRecord))
    → total one (group l g) ≡ total one g + count in_workflow l
unfolding group
total-group [] g = omega arith
total-group (t ∷ rest) g =
    ground (arith, total-group rest (grouped t.workflow_id t g), total-grouped t.workflow_id t g)

count-map :
    {A B : Type 0} (f : A → B) (p : B → Bool) (l : List A)
    → count p (map f l) ≡ count (λ x. p (f x)) l
count-map f p [] = refl
count-map f p (x ∷ rest) = ground (arith, count-map f p rest)

count-keep :
    {A : Type 0} (p q : A → Bool) (l : List A) → count q (keep p l) ≡ count (λ x. p x && q x) l
count-keep p q [] = refl
count-keep p q (x ∷ rest) = ground (arith, count-keep p q rest)

length-count : {A : Type 0} (l : List A) → length l ≡ count (λ t. true) l
length-count [] = refl
length-count (x ∷ rest) = ap suc (length-count rest)

-- The names that the descriptors of the registry report are names of the registry.
abbrev pub reports_names : CapabilityRegistry → Bool
reports_names r = all (λ c. has_key c.1.descriptor.name r.capabilities) r.capabilities

controls-found :
    (o : Option CapabilityExecutionControls)
    → (c : CapabilityExecutionControls) × (elim o as (λ x. Result CapabilityExecutionControls) [
      | none ↦ ok Registry.no_controls
      | some c ↦ ok c
    ]
        ≡ ok c)
controls-found none = (_, refl)
controls-found (some c) = (c, refl)

controls-known :
    (name : String) (r : CapabilityRegistry)
    → has_key name r.capabilities ≡ true
    → (c : CapabilityExecutionControls) × (Registry.execution_controls name r ≡ ok c)
unfolding Registry.execution_controls
controls-known name r known = rw known (controls-found (lookup name r.execution_controls))

capabilities_of-known :
    (r : CapabilityRegistry) (l : Assoc Capability)
    → all (λ c. has_key c.1.descriptor.name r.capabilities) l ≡ true
    → (cs : List CapabilityV1) × (capabilities_of r (map (λ c. c.1.descriptor) l) ≡ ok cs)
      × (length cs ≡ length l)
unfolding capabilities_of
capabilities_of-known r [] known = ([], refl, refl)
capabilities_of-known r ((name, c) ∷ rest) known =
    let (controls, found) = controls-known c.descriptor.name r (ground arith) in
    let (cs, same, long) = capabilities_of-known r rest (ground arith) in
    (from_descriptor c.descriptor controls ∷ cs, rw found (rw same refl), ap suc long)

-- For a registry whose descriptors report names that it has, a snapshot is built. It has the entry
-- of each task, as often as it is given, and no other entry, and so it has the approval of each
-- task that awaits one; `p` and `q` stand for any tests of them. For every workflow id, its traces
-- of that id count together as many tasks as there are in that workflow, and all its traces count
-- as many as there are tasks in a workflow. It has as many capabilities as the registry.
pub build_control_plane_snapshot-IsComplete :
    (now : ℕ) (tasks : List TaskRecord) (registry : CapabilityRegistry)
    (health : List HealthComponentV1) (p : TaskV1 → Bool) (q : ApprovalV1 → Bool) (id : String)
    → reports_names registry ≡ true
    → (s : SnapshotV1) × (build_control_plane_snapshot now tasks registry health ≡ ok s)
      × (count p s.tasks ≡ count (λ t. p (task_from t)) tasks)
      × (count q s.approvals ≡ count (λ t. is_awaiting t && q (approval_from t)) tasks)
      × (counted_of id s.workflows ≡ count (in_workflow_of id) tasks)
      × (counted s.workflows ≡ count in_workflow tasks)
      × (length s.capabilities ≡ length registry.capabilities)
unfolding build_control_plane_snapshot
build_control_plane_snapshot-IsComplete now tasks registry health p q id known =
    let ordered = sorted earlier tasks in
    let by_name = λ (a b : String × Capability). str_lt a.0 b.0 in
    let sorted_caps = sorted by_name registry.capabilities in
    let groups = group ordered [] in
    let (cs, same, long) =
      capabilities_of-known registry sorted_caps
        (all-sorted by_name _ registry.capabilities known) in
    (
      snapshot_of now ordered health cs,
      rw same refl,
      count-map task_from p ordered ∙ count-sorted earlier (λ t. p (task_from t)) tasks,
      count-map approval_from q (keep is_awaiting ordered)
          ∙ count-keep is_awaiting (λ t. q (approval_from t)) ordered
          ∙ count-sorted earlier (λ t. is_awaiting t && q (approval_from t)) tasks,
      counted_of-traces id (sorted by_key groups)
          ∙ total_of-sorted id one groups
          ∙ total_of-group id ordered []
          ∙ omega (arith, count-sorted earlier (in_workflow_of id) tasks),
      counted-traces (sorted by_key groups)
          ∙ total-sorted one groups
          ∙ total-group ordered []
          ∙ omega (arith, count-sorted earlier in_workflow tasks),
      long
          ∙ length-count sorted_caps
          ∙ count-sorted by_name (λ c. true) registry.capabilities
          ∙ sym (length-count registry.capabilities),
    )
