-- ===== src/Scheduler/Triggers/Dispatch.antt =====
-- What the polls of the adapters of engine/runtime/scheduler.py emit.
use conductor_engine.Base.{
  ℕ, String, ◌≡◌, refl, List, [], ◌∷◌, ◌++◌, some, Bool, true, false, map, ap, arith,
}
use conductor_engine.Base.Exec.{Exn, Result, ok, err}
use conductor_engine.Json.{Json}
use conductor_engine.Interfaces.Task.{TaskSubmission}
use conductor_engine.Interfaces.Trigger.{webhook, TriggerDispatch}
use conductor_engine.Scheduler.Cron.{Calendar, matches}
use conductor_engine.Scheduler.Triggers.{
  CronTriggerAdapter, WebhookTriggerAdapter, same_slot, was_emitted, dispatch, cron_due, poll_cron,
  mapped, poll_payloads, poll_webhook,
}
use conductor_engine.Supervisor.State.{Config, State, stamp}

-- What a dispatch is about: when it was due, and what it submits.
abbrev pub due : TriggerDispatch → ℕ × TaskSubmission
due d = (d.scheduled_for, d.submission)

-- The mapper takes every payload of a list.
abbrev pub TakesAll : (Json → Result TaskSubmission) → List (ℕ × Json) → Type 0
TakesAll mapper [] = Unit {0}
TakesAll mapper ((t, p) ∷ rest) = ((x : TaskSubmission) × (mapper p ≡ ok x)) × TakesAll mapper rest

-- What the payloads that the mapper takes ask for, in their order.
abbrev pub asked_for :
    (mapper : Json → Result TaskSubmission)
    → (l : List (ℕ × Json)) → TakesAll mapper l
    → List (ℕ × TaskSubmission)
asked_for mapper [] h = []
asked_for mapper ((t, p) ∷ rest) ((x, taken), h) = (t, x) ∷ asked_for mapper rest h

module _ {S G : Type 0} (config : Config S G) (calendar : ℕ → Calendar) where
  payloads-lost :
      (name : String) (mapper : Json → Result TaskSubmission) (before after : List (ℕ × Json))
      (t : ℕ) (bad : Json) (e : Exn) (s : State S G)
      → TakesAll mapper before
      → mapper bad ≡ err e
      → ((poll_payloads config calendar name mapper (before ++ (t, bad) ∷ after) s).0 ≡ err e)
        × ((poll_payloads config calendar name mapper (before ++ (t, bad) ∷ after) s).1 ≡ after)
  unfolding poll_payloads mapped
  payloads-lost name mapper [] after t bad e s h refused = rw refused (refl, refl)
  payloads-lost name mapper ((u, p) ∷ before) after t bad e s ((x, taken), h) refused =
      let later =
        payloads-lost name mapper before after t bad e
          (dispatch config calendar webhook name u x s).1 h refused in
      rw taken (rw later.0 refl, later.1)

  payloads-taken :
      (name : String) (mapper : Json → Result TaskSubmission) (l : List (ℕ × Json)) (s : State S G)
      (h : TakesAll mapper l)
      → (ds : List TriggerDispatch) × ((poll_payloads config calendar name mapper l s).0 ≡ ok ds)
        × (map due ds ≡ asked_for mapper l h)
        × ((poll_payloads config calendar name mapper l s).1 ≡ [])
  unfolding poll_payloads mapped dispatch
  payloads-taken name mapper [] s h = ([], refl, refl, refl)
  payloads-taken name mapper ((t, p) ∷ rest) s ((x, taken), h) =
      let d = dispatch config calendar webhook name t x s in
      let (ds, answer, same, left) = payloads-taken name mapper rest d.1 h in
      (d.0 ∷ ds, rw taken (rw answer refl), ap (λ l. (t, x) ∷ l) same, rw taken left)

  -- A payload that the mapper refuses makes the whole poll of its webhook adapter raise: no
  -- dispatch is emitted for the payloads before it, although the mapper took them, and they and
  -- the refused one have left the queue, which holds only those behind it.
  pub poll_webhook-lost :
      (self : WebhookTriggerAdapter) (before after : List (ℕ × Json)) (t : ℕ) (bad : Json) (e : Exn)
      (s : State S G)
      → self.pending_payloads ≡ before ++ (t, bad) ∷ after
      → TakesAll self.mapper before
      → self.mapper bad ≡ err e
      → ((poll_webhook config calendar self s).0 ≡ err e)
        × ((poll_webhook config calendar self s).1.pending_payloads ≡ after)
  unfolding poll_webhook
  poll_webhook-lost self before after t bad e s pending h refused =
      rw pending (payloads-lost self.name self.mapper before after t bad e s h refused)

  -- If the mapper takes every waiting payload, a poll of the webhook adapter emits one dispatch for
  -- each of them, in the order they came, due when it was received and with the submission that the
  -- mapper made, and nothing is left waiting.
  pub poll_webhook-taken :
      (self : WebhookTriggerAdapter) (s : State S G)
      (h : TakesAll self.mapper self.pending_payloads)
      → (ds : List TriggerDispatch) × ((poll_webhook config calendar self s).0 ≡ ok ds)
        × (map due ds ≡ asked_for self.mapper self.pending_payloads h)
        × ((poll_webhook config calendar self s).1.pending_payloads ≡ [])
  unfolding poll_webhook
  poll_webhook-taken self s h = payloads-taken self.name self.mapper self.pending_payloads s h

  -- An answer that emits something.
  abbrev pub Emits : Result (List TriggerDispatch) → Type 0
  Emits r = (d : TriggerDispatch) × (l : List TriggerDispatch) × (r ≡ ok (d ∷ l))

  cron_due-again :
      (t : ℕ) (r : Result Bool) (self : CronTriggerAdapter) (s : State S G)
      → was_emitted (calendar t) self.last_emitted_slot ≡ true
      → ¬ Emits (cron_due config calendar t r self s).0
  unfolding cron_due
  cron_due-again t (err e) self s old (d, l, h) = absurd (cc)
  cron_due-again t (ok false) self s old (d, l, h) = absurd (cc)
  cron_due-again t (ok true) self s old (d, l, h) = absurd (ground arith)

  -- At a time that its schedule matches, in a slot other than the last one that it emitted in, a
  -- cron adapter emits one dispatch, with its own submission and due at that time; polled again in
  -- the same slot, it emits nothing.
  pub poll_cron-once :
      (self : CronTriggerAdapter) (t again : ℕ) (s u : State S G)
      → matches self.schedule (calendar t) ≡ ok true
      → was_emitted (calendar t) self.last_emitted_slot ≡ false
      → same_slot (calendar again) (calendar t) ≡ true
      → ((d : TriggerDispatch) × ((poll_cron config calendar (some t) self s).0 ≡ ok (d ∷ []))
          × (due d ≡ (t, self.submission)))
        × ¬ Emits
            (poll_cron config calendar
              (some again)
              (poll_cron config calendar (some t) self s).1
              u).0
  unfolding poll_cron cron_due dispatch stamp
  poll_cron-once self t again s u due_ new same = rw due_ (
      rw new (
        (_, refl, refl),
        cron_due-again again (matches self.schedule (calendar again))
            (record self { last_emitted_slot = some (calendar t) }) u same,
      ))
