-- ===== src/Scheduler/Service.antt =====
-- `TriggerSchedulerService` of engine/runtime/scheduler.py, with the supervisor as its sink.
pub mod Finished
pub mod Safety
use conductor_engine.Base.{ℕ, String, List, [], ◌∷◌, ◌++◌, Option, none, some, insert, fstring}
use conductor_engine.Base.Exec.{
  Exn, Result, ok, err, Outcome, done, raised, out_of_fuel, Exec, pure, ◌>>=◌, ◌>>◌,
}
use conductor_engine.Json.{str, object, fields}
use conductor_engine.Interfaces.Task.{TaskRecord, TaskSubmission}
use conductor_engine.Interfaces.Trigger.{TriggerDispatch, source_value}
use conductor_engine.Scheduler.Cron.{Calendar}
use conductor_engine.Scheduler.Triggers.{Adapter, poll}
use conductor_engine.Supervisor.State.{Config, State}
use conductor_engine.Supervisor.Service.{submit}

pub record TriggerSchedulerService : Type 0 where
  pub adapters : List Adapter
  pub runtime_issues : List String

-- What a pass over some adapters comes to.
pub record Pass (S G : Type 0) : Type 0 where
  pub outcome : Outcome (List TaskRecord)
  pub adapters : List Adapter
  pub issues : List String
  pub state : State S G

module _ {S G : Type 0} (config : Config S G) (calendar : ℕ → Calendar)
    (isoformat : ℕ → String) where
  -- `_with_trigger_metadata`
  unfoldable pub with_trigger_metadata : TriggerDispatch → TaskSubmission
  with_trigger_metadata d =
      let trigger =
        ("dispatch_id", str d.dispatch_id)
        ∷ ("source", str (source_value d.source))
        ∷ ("trigger_name", str d.trigger_name)
        ∷ ("scheduled_for", str (isoformat d.scheduled_for))
        ∷ ("emitted_at", str (isoformat d.emitted_at))
        ∷ [] in
      record d.submission {
        metadata = insert "trigger" (object (fields trigger)) d.submission.metadata;
      }

  -- The submissions of one adapter's dispatches.
  unfoldable pub submit_all : List TriggerDispatch → Exec (State S G) (List TaskRecord)
  submit_all [] = pure []
  submit_all (d ∷ rest) = do
    task ← submit config (with_trigger_metadata d)
    tasks ← submit_all rest
    pure (task ∷ tasks)

  abbrev pub behind : List TaskRecord → Outcome (List TaskRecord) → Outcome (List TaskRecord)
  behind tasks (done more) = done (tasks ++ more)
  behind tasks (raised e) = raised e
  behind tasks out_of_fuel = out_of_fuel

  -- What follows the submissions of an adapter; an exception of the sink ends the pass.
  unfoldable pub after_submit :
      Adapter
      → (rest : List Adapter) → (later : State S G → Pass S G)
      → Outcome (List TaskRecord) × State S G
      → Pass S G
  after_submit a rest later (done tasks, s) =
      let p = later s in
      record {
        outcome = behind tasks p.outcome;
        adapters = a ∷ p.adapters;
        issues = p.issues;
        state = p.state;
      }
  after_submit a rest later (raised e, s) = record {
    outcome = raised e;
    adapters = a ∷ rest;
    issues = [];
    state = s;
  }
  after_submit a rest later (out_of_fuel, s) = record {
    outcome = out_of_fuel;
    adapters = a ∷ rest;
    issues = [];
    state = s;
  }

  -- What follows the poll of an adapter; an exception of the poll is noted.
  unfoldable pub after_poll :
      Result (List TriggerDispatch)
      → Adapter
      → (rest : List Adapter) → (later : State S G → Pass S G) → State S G
      → Pass S G
  after_poll (err e) a rest later s =
      let p = later s in
      record {
        outcome = p.outcome;
        adapters = a ∷ p.adapters;
        issues = fstring ("scheduler: adapter poll failed: " ∷ e.message ∷ []) ∷ p.issues;
        state = p.state;
      }
  after_poll (ok dispatches) a rest later s = after_submit a rest later (submit_all dispatches s)

  -- The loop over the adapters.
  unfoldable pub run_adapters : (now : Option ℕ) → List Adapter → State S G → Pass S G
  run_adapters now [] s = record { outcome = done []; adapters = []; issues = []; state = s }
  run_adapters now (a ∷ rest) s =
      let (r, a, s) = poll config calendar now a s in after_poll r a rest (run_adapters now rest) s

  -- `run_once`
  unfoldable pub run_once :
      (now : Option ℕ)
      → TriggerSchedulerService
      → State S G
      → Outcome (List TaskRecord) × TriggerSchedulerService × State S G
  run_once now self s =
      let p = run_adapters now self.adapters s in
      (p.outcome, record { adapters = p.adapters; runtime_issues = p.issues }, p.state)

  -- `health_check`; the adapters of the repository have no issues of their own.
  abbrev pub health_check : TriggerSchedulerService → List String
  health_check self = self.runtime_issues
