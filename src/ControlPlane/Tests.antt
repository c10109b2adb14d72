-- ===== src/ControlPlane/Tests.antt =====
-- The theorems about engine/control_plane/contracts.py applied to two tasks and a registry.
use conductor_engine.Base.{◌≡◌, List, [], ◌∷◌, length, some, true, ◌&&◌, str_eq, lookup, refl}
use conductor_engine.Interfaces.Task.{TaskRecord}
use conductor_engine.ControlPlane.{from_task, from_records}
use conductor_engine.ControlPlane.Contracts.{task_from}
use conductor_engine.ControlPlane.Summary.{Shows, from_records-status}
use conductor_engine.Base.Exec.{ok}
use conductor_engine.Base.Ranked.{count}
use conductor_engine.ControlPlane.Snapshot.{SnapshotV1, is_awaiting, build_control_plane_snapshot}
use conductor_engine.ControlPlane.Grouping.{
  counted, counted_of, in_workflow, in_workflow_of, build_control_plane_snapshot-IsComplete,
}
use conductor_engine.Supervisor.Samples.{task, registry}

abbrev records : List TaskRecord
records = record (task "flaky") { created_at = 5; workflow_id = some "w" } ∷ task "guarded" ∷ []

from_records-status_example :
    Shows records (from_records "w" records).status
    × ((from_records "w" records).task_count ≡ 2)
    × (length (from_records "w" records).tasks ≡ (from_records "w" records).task_count)
    × (count (λ s. str_eq s.status "pending") (from_records "w" records).tasks
        ≡ count (λ t. str_eq (from_task t).status "pending") records)
from_records-status_example = from_records-status "w" records (λ s. str_eq s.status "pending")

build_control_plane_snapshot-IsComplete_example :
    (s : SnapshotV1) × (build_control_plane_snapshot 9 records registry [] ≡ ok s)
    × (count (λ t. str_eq t.task_id "t") s.tasks
        ≡ count (λ t. str_eq (task_from t).task_id "t") records)
    × (count (λ a. true) s.approvals ≡ count (λ t. is_awaiting t && true) records)
    × (counted_of "w" s.workflows ≡ count (in_workflow_of "w") records)
    × (counted s.workflows ≡ count in_workflow records)
    × (length s.capabilities ≡ 2)
unfolding lookup
build_control_plane_snapshot-IsComplete_example =
    build_control_plane_snapshot-IsComplete 9 records registry [] (λ t. str_eq t.task_id "t")
      (λ a. true) "w" refl
