-- ===== src/Scheduler/Triggers.antt =====
-- The trigger adapters of engine/runtime/scheduler.py. A time is given in UTC, or read from the
-- clock of the engine; ids of dispatches and their times of emission come from the same sources as
-- those of tasks.
pub mod Dispatch
use conductor_engine.Base.{
  ℕ, String, List, [], ◌∷◌, ◌++◌, Option, none, some, Bool, true, false, ◌&&◌, ◌==◌, str_eq,
  fstring, suc, if◌then◌else◌,
}
use conductor_engine.Base.Exec.{Exn, Result, ok, err, value_error}
use conductor_engine.Base.Parse.{quoted}
use conductor_engine.Json.{Json}
use conductor_engine.Interfaces.Task.{TaskSubmission}
use conductor_engine.Interfaces.Trigger.{TriggerSource, cron, webhook, TriggerDispatch}
use conductor_engine.Scheduler.Cron.{CronSchedule, Calendar, matches}
use conductor_engine.Supervisor.State.{Config, State, now, stamp}

-- The slot of a time is the part of its calendar that `_slot_key` takes.
pub record CronTriggerAdapter : Type 0 where
  pub name : String
  pub schedule : CronSchedule
  pub submission : TaskSubmission
  pub last_emitted_slot : Option Calendar

-- `mapper` is a function of its caller, and may raise.
pub record WebhookTriggerAdapter : Type 0 where
  pub name : String
  pub mapper : Json → Result TaskSubmission
  pub pending_payloads : List (ℕ × Json)

pub data Adapter : Type 0 where
  cron_adapter : CronTriggerAdapter → Adapter
  webhook_adapter : WebhookTriggerAdapter → Adapter

-- Equality of two slots: year, month, day, hour and minute.
abbrev pub same_slot : Calendar → Calendar → Bool
same_slot a b =
    a.year == b.year
    && (a.month == b.month && (a.day == b.day && (a.hour == b.hour && a.minute == b.minute)))

abbrev pub was_emitted : Calendar → Option Calendar → Bool
was_emitted slot none = false
was_emitted slot (some last) = same_slot slot last

module _ {S G : Type 0} (config : Config S G) (calendar : ℕ → Calendar) where
  -- A new `TriggerDispatch`, with its default id and time of emission.
  unfoldable pub dispatch :
      TriggerSource → String → ℕ → TaskSubmission → State S G → TriggerDispatch × State S G
  dispatch source name scheduled_for submission s =
      let id = config.env.uuid4 s.ids in
      let (emitted_at, s) = now config (record s { ids = suc s.ids }) in
      (
        record {
          dispatch_id = id;
          source = source;
          trigger_name = name;
          scheduled_for = scheduled_for;
          emitted_at = emitted_at;
          submission = submission;
        },
        s,
      )

  -- What `CronTriggerAdapter.poll` does with the answer of its schedule.
  unfoldable pub cron_due :
      (current : ℕ)
      → Result Bool
      → CronTriggerAdapter
      → State S G
      → Result (List TriggerDispatch) × CronTriggerAdapter × State S G
  cron_due current (err e) self s = (err e, self, s)
  cron_due current (ok false) self s = (ok [], self, s)
  cron_due current (ok true) self s =
      let slot = calendar current in
      let (d, u) = dispatch cron self.name current self.submission s in
      if was_emitted slot self.last_emitted_slot
      then (ok [], self, s)
      else (ok (d ∷ []), record self { last_emitted_slot = some slot }, u)

  -- `CronTriggerAdapter.poll`
  unfoldable pub poll_cron :
      (now_ : Option ℕ)
      → CronTriggerAdapter
      → State S G
      → Result (List TriggerDispatch) × CronTriggerAdapter × State S G
  poll_cron now_ self s =
      let (current, s) = stamp config now_ s in
      cron_due current (matches self.schedule (calendar current)) self s

  abbrev pub and_more :
      TriggerDispatch → Result (List TriggerDispatch) → Result (List TriggerDispatch)
  and_more d (ok more) = ok (d ∷ more)
  and_more d (err e) = err e

  -- What a payload that the mapper took or refused leads to, where `later` polls those behind it.
  -- The payload has left the queue before the mapper is called.
  unfoldable pub mapped :
      (name : String)
      → ℕ
      → Result TaskSubmission
      → (rest : List (ℕ × Json))
      → (later : State S G → Result (List TriggerDispatch) × List (ℕ × Json) × State S G)
      → State S G
      → Result (List TriggerDispatch) × List (ℕ × Json) × State S G
  mapped name scheduled_for (err e) rest later s = (err e, rest, s)
  mapped name scheduled_for (ok submission) rest later s =
      let (d, s) = dispatch webhook name scheduled_for submission s in
      let (r, left, s) = later s in (and_more d r, left, s)

  -- The loop of `WebhookTriggerAdapter.poll`: its answer, and the payloads that are left.
  unfoldable pub poll_payloads :
      (name : String)
      → (Json → Result TaskSubmission)
      → List (ℕ × Json)
      → State S G
      → Result (List TriggerDispatch) × List (ℕ × Json) × State S G
  poll_payloads name mapper [] s = (ok [], [], s)
  poll_payloads name mapper ((scheduled_for, payload) ∷ rest) s =
      mapped name scheduled_for (mapper payload) rest (poll_payloads name mapper rest) s

  -- `WebhookTriggerAdapter.poll`
  unfoldable pub poll_webhook :
      WebhookTriggerAdapter
      → State S G
      → Result (List TriggerDispatch) × WebhookTriggerAdapter × State S G
  poll_webhook self s =
      let (r, left, s) = poll_payloads self.name self.mapper self.pending_payloads s in
      (r, record self { pending_payloads = left }, s)

  -- `poll` of an adapter of either class.
  unfoldable pub poll :
      (now_ : Option ℕ) → Adapter → State S G → Result (List TriggerDispatch) × Adapter × State S G
  poll now_ (cron_adapter a) s = let (r, a, s) = poll_cron now_ a s in (r, cron_adapter a, s)
  poll now_ (webhook_adapter a) s = let (r, a, s) = poll_webhook a s in (r, webhook_adapter a, s)

  -- `WebhookTriggerAdapter.enqueue_payload`
  unfoldable pub enqueue_payload :
      Json
      → (received_at : Option ℕ) → WebhookTriggerAdapter
      → State S G
      → WebhookTriggerAdapter × State S G
  enqueue_payload payload received_at self s =
      let (t, s) = stamp config received_at s in
      (record self { pending_payloads = self.pending_payloads ++ (t, payload) ∷ [] }, s)

  abbrev pub unknown_trigger : String → Exn
  unknown_trigger name = value_error (fstring ("Unknown webhook trigger " ∷ quoted name ∷ []))

  abbrev pub is_named : String → WebhookTriggerAdapter → Bool
  is_named name a = str_eq a.name name

  abbrev pub any_named : String → List WebhookTriggerAdapter → Bool
  any_named name [] = false
  any_named name (a ∷ rest) = if is_named name a then true else any_named name rest

  -- The adapters with a payload put to the one that `_adapters_by_name` has under the name: the
  -- last of those that have it.
  unfoldable pub enqueue_last :
      String → Json → ℕ → List WebhookTriggerAdapter → List WebhookTriggerAdapter
  enqueue_last name payload t [] = []
  enqueue_last name payload t (a ∷ rest) =
      let later = enqueue_last name payload t rest in
      if is_named name a && (if any_named name rest then false else true)
      then record a { pending_payloads = a.pending_payloads ++ (t, payload) ∷ [] } ∷ later
      else a ∷ later

  -- `WebhookIngressService.ingest`
  unfoldable pub ingest :
      (trigger_name : String)
      → Json
      → (received_at : Option ℕ) → List WebhookTriggerAdapter
      → State S G
      → Result (Unit {0}) × List WebhookTriggerAdapter × State S G
  ingest trigger_name payload received_at adapters s =
      let (t, u) = stamp config received_at s in
      if any_named trigger_name adapters
      then (ok tt, enqueue_last trigger_name payload t adapters, u)
      else (err (unknown_trigger trigger_name), adapters, s)
