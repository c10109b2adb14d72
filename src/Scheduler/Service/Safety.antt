-- ===== src/Scheduler/Service/Safety.antt =====
-- What a pass of `TriggerSchedulerService` of engine/runtime/scheduler.py does to the task store.
use conductor_engine.Base.{
  ℕ, String, ◌≡◌, refl, List, [], ◌∷◌, Option, none, some, Bool, true, false, Bool-cases, inl, inr,
  sym,
}
use mathlib.Core.Path.{subst}
use conductor_engine.Base.Exec.{Result, ok, err, Outcome, done, raised, out_of_fuel, pure}
use conductor_engine.Base.Post.{Post, Post-bind}
use conductor_engine.Json.{Json}
use conductor_engine.Interfaces.Task.{TaskRecord, TaskSubmission}
use conductor_engine.Interfaces.Trigger.{TriggerDispatch}
use conductor_engine.Scheduler.Cron.{Calendar}
use conductor_engine.Scheduler.Triggers.{
  Adapter, cron_adapter, webhook_adapter, CronTriggerAdapter, dispatch, cron_due, poll_cron, mapped,
  poll_payloads, poll_webhook, poll, was_emitted,
}
use conductor_engine.Scheduler.Service.{
  Pass, TriggerSchedulerService, submit_all, after_submit, after_poll, run_adapters, run_once,
  with_trigger_metadata,
}
use conductor_engine.Supervisor.State.{Config, State, now, stamp}
use conductor_engine.Supervisor.Service.{submit}
use conductor_engine.Supervisor.Lifecycle.{IsFine, IsLegal}
use conductor_engine.Supervisor.Soundness.{Legal}
use conductor_engine.Supervisor.Soundness.Service.{create_task_record-IsFine}

module _ {S G : Type 0} (config : Config S G) (calendar : ℕ → Calendar)
    (isoformat : ℕ → String) where
  -- A poll reads the clock and draws ids; the tasks stay as they are.
  tasks-cron_due :
      (t : ℕ) (r : Result Bool) (self : CronTriggerAdapter) (s : State S G)
      → (cron_due config calendar t r self s).2.tasks ≡ s.tasks
  unfolding cron_due dispatch now
  tasks-cron_due t (err e) self s = refl
  tasks-cron_due t (ok false) self s = refl
  tasks-cron_due t (ok true) self s =
      elim (Bool-cases (was_emitted (calendar t) self.last_emitted_slot)) [
        | inl old ↦ simp old refl
        | inr new ↦ simp new refl
      ]

  tasks-mapped :
      (name : String) (t : ℕ) (r : Result TaskSubmission) (rest : List (ℕ × Json))
      (later : State S G → Result (List TriggerDispatch) × List (ℕ × Json) × State S G)
      (s : State S G)
      → ((u : State S G) → (later u).2.tasks ≡ u.tasks)
      → (mapped config calendar name t r rest later s).2.tasks ≡ s.tasks
  unfolding mapped dispatch now
  tasks-mapped name t (err e) rest later s more = refl
  tasks-mapped name t (ok x) rest later s more = more _

  tasks-payloads :
      (name : String) (mapper : Json → Result TaskSubmission) (l : List (ℕ × Json)) (s : State S G)
      → (poll_payloads config calendar name mapper l s).2.tasks ≡ s.tasks
  unfolding poll_payloads
  tasks-payloads name mapper [] s = refl
  tasks-payloads name mapper ((t, p) ∷ rest) s =
      tasks-mapped name t (mapper p) rest _ s (tasks-payloads name mapper rest)

  tasks-poll :
      (t : Option ℕ) (a : Adapter) (s : State S G) → (poll config calendar t a s).2.tasks ≡ s.tasks
  unfolding poll poll_cron poll_webhook stamp now
  tasks-poll (some t) (cron_adapter a) s = tasks-cron_due t _ a s
  tasks-poll none (cron_adapter a) s = tasks-cron_due _ _ a _
  tasks-poll t (webhook_adapter a) s = tasks-payloads a.name a.mapper a.pending_payloads s

  submit_all-Legal :
      (l : List TriggerDispatch) (s : State S G)
      → Legal config s
      → Post (λ _. Legal config) (Legal config) (submit_all config calendar isoformat l s)
  unfolding submit_all submit
  submit_all-Legal [] s legal = legal
  submit_all-Legal (d ∷ rest) s legal =
      let x = with_trigger_metadata config calendar isoformat d in
      Post-bind (IsFine config) (λ _. Legal config) (Legal config) (submit config x) _ s
        (create_task_record-IsFine config x true s legal)
        (λ task u fine.
          Post-bind (λ _. Legal config) (λ _. Legal config) (Legal config)
            (submit_all config calendar isoformat rest) (λ tasks. pure (task ∷ tasks)) u
            (submit_all-Legal rest u fine.legal) (λ a v held. held))

  after_submit-Legal :
      (a : Adapter) (rest : List Adapter) (later : State S G → Pass S G)
      (r : Outcome (List TaskRecord) × State S G)
      → ((s : State S G) → Legal config s → Legal config (later s).state)
      → Post (λ _. Legal config) (Legal config) r
      → Legal config (after_submit config calendar isoformat a rest later r).state
  unfolding after_submit
  after_submit-Legal a rest later (done tasks, s) more h = more s h
  after_submit-Legal a rest later (raised e, s) more h = h
  after_submit-Legal a rest later (out_of_fuel, s) more h = h

  after_poll-Legal :
      (r : Result (List TriggerDispatch)) (a : Adapter) (rest : List Adapter)
      (later : State S G → Pass S G) (s : State S G)
      → ((s : State S G) → Legal config s → Legal config (later s).state)
      → Legal config s
      → Legal config (after_poll config calendar isoformat r a rest later s).state
  unfolding after_poll
  after_poll-Legal (err e) a rest later s more h = more s h
  after_poll-Legal (ok l) a rest later s more h =
      after_submit-Legal a rest later _ more (submit_all-Legal l s h)

  run_adapters-Legal :
      (t : Option ℕ) (l : List Adapter) (s : State S G)
      → Legal config s
      → Legal config (run_adapters config calendar isoformat t l s).state
  unfolding run_adapters
  run_adapters-Legal t [] s h = h
  run_adapters-Legal t (a ∷ rest) s h =
      after_poll-Legal _ _ rest _ _ (run_adapters-Legal t rest)
        (subst (IsLegal config.store) (sym (tasks-poll t a s)) h)

  -- A pass of the scheduler over its adapters leaves a legal task store legal, whatever the
  -- adapters' polls return or raise, and also when the supervisor refuses a submission.
  pub run_once-Legal :
      (t : Option ℕ) (self : TriggerSchedulerService) (s : State S G)
      → Legal config s
      → Legal config (run_once config calendar isoformat t self s).2
  unfolding run_once
  run_once-Legal t self s h = run_adapters-Legal t self.adapters s h
