-- ===== src/Scheduler/Service/Finished.antt =====
-- A pass of `TriggerSchedulerService.run_once` of engine/runtime/scheduler.py ends.
use conductor_engine.Base.{ℕ, String, sym, List, [], ◌∷◌, Option, inl, inr}
use conductor_engine.Base.Exec.{Result, ok, err, Outcome, done, raised, out_of_fuel, lift, pure}
use conductor_engine.Base.Ends.{Ends, Ends-bind}
use conductor_engine.Interfaces.Task.{TaskRecord, TaskSubmission}
use conductor_engine.Interfaces.Trigger.{TriggerDispatch}
use conductor_engine.Runtime.Queue.{enqueue, TaskQueue}
use conductor_engine.Runtime.Queue.Fifo.{enqueue-cases}
use mathlib.Core.Path.{subst}
use conductor_engine.Scheduler.Cron.{Calendar}
use conductor_engine.Scheduler.Triggers.{Adapter}
use conductor_engine.Scheduler.Service.{
  Pass, behind, submit_all, after_submit, after_poll, run_adapters, with_trigger_metadata,
}
use conductor_engine.Supervisor.State.{Config, State}
use conductor_engine.Supervisor.Service.{submit, create_task_record, push, store_submission}

-- A call that returns or raises.
abbrev pub Finished : {A : Type 0} → Outcome A → Type 0
Finished (done a) = Unit {0}
Finished (raised e) = Unit {0}
Finished out_of_fuel = ⊥

module _ {S A : Type 0} where
  abbrev Ended : Outcome A × S → Type 0
  Ended = Ends (λ a s. Unit {0}) (λ s. Unit {0})

  Ended-of_Finished : (r : Outcome A × S) → Finished r.0 → Ended r
  Ended-of_Finished (done a, s) h = tt
  Ended-of_Finished (raised e, s) h = tt
  Ended-of_Finished (out_of_fuel, s) h = absurd h

  Finished-of_Ended : (r : Outcome A × S) → Ended r → Finished r.0
  Finished-of_Ended (done a, s) h = tt
  Finished-of_Ended (raised e, s) h = tt
  Finished-of_Ended (out_of_fuel, s) h = absurd h

  lift-Ended : (r : Result A) (s : S) → Ended (lift r s)
  lift-Ended (ok a) s = tt
  lift-Ended (err e) s = tt

enqueue-Finished : (x : String) (q : TaskQueue) → Finished (enqueue x q).0
enqueue-Finished x q = elim (enqueue-cases x q.items q.max_size) [
  | inl (e, refused) ↦ subst Finished (sym refused) tt
  | inr added ↦ subst Finished (sym added) tt
]

module _ {S G : Type 0} (config : Config S G) (calendar : ℕ → Calendar)
    (isoformat : ℕ → String) where
  submit-Ended : (x : TaskSubmission) (s : State S G) → Ended (submit config x s)
  unfolding submit create_task_record push
  submit-Ended x s =
      Ends-bind (λ a u. Unit {0}) (λ a u. Unit {0}) (λ u. Unit {0}) (lift _) _ s (lift-Ended _ s)
        (λ c u _.
          Ends-bind (λ a v. Unit {0}) (λ a v. Unit {0}) (λ v. Unit {0})
            (push config (store_submission config x u).0.task_id)
            (λ _. pure (store_submission config x u).0) (store_submission config x u).1
            (Ended-of_Finished _ (enqueue-Finished _ _)) (λ a v _. tt))

  submit_all-Ended :
      (l : List TriggerDispatch) (s : State S G) → Ended (submit_all config calendar isoformat l s)
  unfolding submit_all
  submit_all-Ended [] s = tt
  submit_all-Ended (d ∷ rest) s =
      Ends-bind (λ a u. Unit {0}) (λ a u. Unit {0}) (λ u. Unit {0})
        (submit config (with_trigger_metadata config calendar isoformat d)) _ s (submit-Ended _ s)
        (λ task u _.
          Ends-bind (λ a v. Unit {0}) (λ a v. Unit {0}) (λ v. Unit {0})
            (submit_all config calendar isoformat rest) (λ tasks. pure (task ∷ tasks)) u
            (submit_all-Ended rest u) (λ a v _. tt))

  behind-Finished :
      (l : List TaskRecord) (o : Outcome (List TaskRecord))
      → Finished o
      → Finished (behind config calendar isoformat l o)
  behind-Finished l (done more) h = tt
  behind-Finished l (raised e) h = tt
  behind-Finished l out_of_fuel h = absurd h

  after_submit-Finished :
      (a : Adapter) (rest : List Adapter) (later : State S G → Pass S G)
      (r : Outcome (List TaskRecord) × State S G)
      → ((s : State S G) → Finished (later s).outcome)
      → Ended r
      → Finished (after_submit config calendar isoformat a rest later r).outcome
  unfolding after_submit
  after_submit-Finished a rest later (done tasks, s) more h = behind-Finished tasks _ (more s)
  after_submit-Finished a rest later (raised e, s) more h = tt
  after_submit-Finished a rest later (out_of_fuel, s) more h = absurd h

  after_poll-Finished :
      (r : Result (List TriggerDispatch)) (a : Adapter) (rest : List Adapter)
      (later : State S G → Pass S G) (s : State S G)
      → ((s : State S G) → Finished (later s).outcome)
      → Finished (after_poll config calendar isoformat r a rest later s).outcome
  unfolding after_poll
  after_poll-Finished (err e) a rest later s more = more s
  after_poll-Finished (ok l) a rest later s more =
      after_submit-Finished a rest later _ more (submit_all-Ended l s)

  pub run_adapters-Finished :
      (now : Option ℕ) (l : List Adapter) (s : State S G)
      → Finished (run_adapters config calendar isoformat now l s).outcome
  unfolding run_adapters
  run_adapters-Finished now [] s = tt
  run_adapters-Finished now (a ∷ rest) s =
      after_poll-Finished _ _ rest _ _ (run_adapters-Finished now rest)
