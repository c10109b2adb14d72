-- ===== src/Scheduler/Tests.antt =====
-- The theorems about engine/runtime/scheduler.py applied to small schedules, adapters and runners.
use Prim.Native.String.{String}
use conductor_engine.Base.{
  ℕ, ◌*◌, ◌-◌, ◌^◌, if◌then◌else◌, ◌≡◌, refl, [], ◌∷◌, none, some, true, leb, arith, lookup, show,
  Assoc,
}
use conductor_engine.Base.Exec.{Result, ok, err, value_error}
use conductor_engine.Base.Ends.{Ends}
use conductor_engine.Json.{Json, str}
use conductor_engine.Interfaces.Task.{TaskSubmission, TaskRecord}
use conductor_engine.Interfaces.Trigger.{TriggerDispatch}
use conductor_engine.Runtime.Retry.{Floats}
use conductor_engine.Runtime.Store.{memory_get}
use conductor_engine.Runtime.Store.Law.{memory_store}
use conductor_engine.Scheduler.Cron.{Calendar, matches}
use conductor_engine.Scheduler.Cron.Fields.{star, steps, values, holds, printed, matches-print}
use conductor_engine.Scheduler.Triggers.{
  CronTriggerAdapter, WebhookTriggerAdapter, cron_adapter, webhook_adapter, poll_cron, poll_webhook,
}
use conductor_engine.Scheduler.Triggers.Dispatch.{Emits, due, poll_webhook-lost, poll_cron-once}
use conductor_engine.Scheduler.Service.{TriggerSchedulerService, run_once}
use conductor_engine.Scheduler.Service.Safety.{run_once-Legal}
use conductor_engine.Scheduler.Runner.{Signals, LoopRunner, World, run}
use conductor_engine.Scheduler.Runner.Ends.{Stopped, Signalled, run-Stopped, run-Signalled}
use conductor_engine.Supervisor.Soundness.{Legal}
use conductor_engine.Supervisor.Samples.{config, submission, fresh}

-- Minute `n` of an hour of a Thursday.
abbrev at_minute : ℕ → Calendar
at_minute n = record { year = 2026; month = 1; day = 1; hour = 10; minute = n; weekday = 3 }

-- Every quarter of an hour between the full hour and half past nine and ten, on Thursdays.
matches-print_example :
    matches (printed (steps 15) (values 9 (10 ∷ [])) star star (values 4 [])) (at_minute 30)
    ≡ ok true
unfolding holds
matches-print_example =
    matches-print (steps 15) (values 9 (10 ∷ [])) star star (values 4 []) (at_minute 30) refl refl
      refl refl refl

abbrev payload : String → Json
payload s = ("capability", str s) ∷ []

-- It takes no payload without members.
abbrev mapper : Json → Result TaskSubmission
mapper [] = err (value_error "empty payload")
mapper (m ∷ rest) = ok (submission "flaky")

abbrev hook : WebhookTriggerAdapter
hook = record {
  name = "hook";
  mapper = mapper;
  pending_payloads = (1, payload "a") ∷ (2, []) ∷ (3, payload "c") ∷ [];
}

poll_webhook-lost_example :
    ((poll_webhook config at_minute hook fresh).0 ≡ err (value_error "empty payload"))
    × ((poll_webhook config at_minute hook fresh).1.pending_payloads ≡ (3, payload "c") ∷ [])
poll_webhook-lost_example =
    poll_webhook-lost config at_minute hook ((1, payload "a") ∷ []) ((3, payload "c") ∷ []) 2 []
      (value_error "empty payload") fresh refl ((_, refl), tt) refl

-- A schedule of every minute.
abbrev minutely : CronTriggerAdapter
minutely = record {
  name = "minutely";
  schedule = printed star star star star star;
  submission = submission "flaky";
  last_emitted_slot = some (at_minute 29);
}

minutely_matches : matches minutely.schedule (at_minute 30) ≡ ok true
unfolding holds
minutely_matches = matches-print star star star star star (at_minute 30) refl refl refl refl refl

poll_cron-once_example :
    ((d : TriggerDispatch) × ((poll_cron config at_minute (some 30) minutely fresh).0 ≡ ok (d ∷ []))
      × (due d ≡ (30, submission "flaky")))
    × ¬ Emits config at_minute
        (poll_cron config at_minute
          (some 30)
          (poll_cron config at_minute (some 30) minutely fresh).1
          fresh).0
poll_cron-once_example =
    poll_cron-once config at_minute minutely 30 30 fresh fresh minutely_matches refl refl

fresh-IsLegal : Legal config fresh
unfolding memory_store memory_get lookup
fresh-IsLegal = record { at = λ id t e. cc }

abbrev service : TriggerSchedulerService
service = record {
  adapters = webhook_adapter hook ∷ cron_adapter minutely ∷ [];
  runtime_issues = [];
}

run_once-Legal_example : Legal config (run_once config at_minute show (some 30) service fresh).2
run_once-Legal_example = run_once-Legal config at_minute show (some 30) service fresh fresh-IsLegal

-- Whole seconds, whose powers raise from the 1025th on.
abbrev seconds : Floats
seconds = record {
  Float = ℕ;
  zero_ = 0;
  one = 1;
  times = λ a b. a * b;
  plus = λ a b. a;
  growth = λ m n.
      if leb n 1024
      then ok (m ^ (n - 1))
      else err (record {
        error_type = "OverflowError";
        message = "(34, 'Numerical result out of range')";
      });
  at_most = leb;
  micros = λ a. a;
  two_places = show;
  three_places = show;
}

-- The signal is set when it is asked for the sixth time.
abbrev signals : Signals seconds
signals = record { stopped = λ n. leb 5 n; random_fn = λ n. 0; now_fn = λ n. some 30 }

abbrev runner : LoopRunner seconds
runner = record {
  base_poll_interval_seconds = 1;
  max_poll_interval_seconds = 30;
  backoff_multiplier = 2;
  jitter_ratio = 0;
}

abbrev world : World (Assoc TaskRecord) (Unit {0})
world = record { service = service; state = fresh; cycles = 0; idle = 0; asked = 0; drawn = 0 }

run-Stopped_example :
    Ends
      (Stopped seconds config at_minute show signals runner 2)
      (λ u. Unit {0})
      (run seconds config at_minute show signals runner 3 (some 2) world)
run-Stopped_example =
    run-Stopped seconds config at_minute show signals runner 2 3 world (omega arith)

run-Signalled_example :
    Ends
      (Signalled seconds config at_minute show signals runner 5)
      (λ u. Unit {0})
      (run seconds config at_minute show signals runner 6 none world)
run-Signalled_example =
    run-Signalled seconds config at_minute show signals runner 5 6 none world refl (omega arith)
      (omega arith)
