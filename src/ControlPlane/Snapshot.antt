-- ===== src/ControlPlane/Snapshot.antt =====
-- `build_control_plane_snapshot` of engine/control_plane/contracts.py.
use conductor_engine.Base.{
  ℕ, String, List, [], ◌∷◌, Option, none, some, Bool, true, false, map, keep, Assoc, sorted,
}
use conductor_engine.Base.Exec.{Result, ok, err, and_then}
use conductor_engine.Base.Groups.{append_to, by_key}
use conductor_engine.Interfaces.Task.{TaskStatus, TaskRecord}
use conductor_engine.Interfaces.Policy.{CapabilityDescriptor}
use conductor_engine.Registry
use conductor_engine.Registry.{CapabilityRegistry}
use conductor_engine.ControlPlane.{WorkflowTraceV1, from_records, earlier}
use conductor_engine.ControlPlane.Contracts.{
  TaskV1, task_from, ApprovalV1, approval_from, CapabilityV1, from_descriptor, HealthComponentV1,
}

pub record SnapshotV1 : Type 0 where
  pub schema_version : String
  pub generated_at : ℕ
  pub tasks : List TaskV1
  pub approvals : List ApprovalV1
  pub workflows : List WorkflowTraceV1
  pub capabilities : List CapabilityV1
  pub health : List HealthComponentV1

abbrev pub is_awaiting : TaskRecord → Bool
is_awaiting t = elim t.status [ TaskStatus.awaiting_approval ↦ true | _ ↦ false ]

abbrev pub grouped : Option String → TaskRecord → Assoc (List TaskRecord) → Assoc (List TaskRecord)
grouped none t groups = groups
grouped (some id) t groups = append_to id t groups

-- The loop over the ordered tasks.
unfoldable pub group : List TaskRecord → Assoc (List TaskRecord) → Assoc (List TaskRecord)
group [] groups = groups
group (t ∷ rest) groups = group rest (grouped t.workflow_id t groups)

abbrev pub traces : Assoc (List TaskRecord) → List WorkflowTraceV1
traces [] = []
traces ((id, records) ∷ rest) = from_records id records ∷ traces rest

abbrev pub onto : CapabilityV1 → Result (List CapabilityV1) → Result (List CapabilityV1)
onto c (ok rest) = ok (c ∷ rest)
onto c (err e) = err e

-- The capabilities of a snapshot.
unfoldable pub capabilities_of :
    CapabilityRegistry → List CapabilityDescriptor → Result (List CapabilityV1)
capabilities_of registry [] = ok []
capabilities_of registry (d ∷ rest) =
    and_then (Registry.execution_controls d.name registry)
      (λ controls. onto (from_descriptor d controls) (capabilities_of registry rest))

abbrev pub workflows_of : List TaskRecord → List WorkflowTraceV1
workflows_of ordered = traces (sorted by_key (group ordered []))

-- The snapshot of ordered tasks.
abbrev pub snapshot_of :
    (now : ℕ)
    → (ordered : List TaskRecord) → List HealthComponentV1
    → List CapabilityV1
    → SnapshotV1
snapshot_of now ordered health capabilities = record {
  schema_version = "v1";
  generated_at = now;
  tasks = map task_from ordered;
  approvals = map approval_from (keep is_awaiting ordered);
  workflows = workflows_of ordered;
  capabilities = capabilities;
  health = health;
}

-- `build_control_plane_snapshot`, made at the time `now`.
unfoldable pub build_control_plane_snapshot :
    (now : ℕ) → List TaskRecord → CapabilityRegistry → List HealthComponentV1 → Result SnapshotV1
build_control_plane_snapshot now tasks registry health =
    let ordered = sorted earlier tasks in
    and_then (capabilities_of registry (Registry.list registry))
      (λ capabilities. ok (snapshot_of now ordered health capabilities))
