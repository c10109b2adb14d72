-- ===== src/Scheduler/Cron/Checks.antt =====
-- What the constructor of `CronSchedule` of engine/runtime/scheduler.py checks.
use conductor_engine.Base.{String, ◌≡◌, refl, [], ◌∷◌, true, false}
use conductor_engine.Base.Exec.{Exn, ok, err}
use conductor_engine.Base.Parse.{words}
use conductor_engine.Scheduler.Cron.{
  field_matches, CronSchedule, Calendar, range, matches, fields_of, cron_schedule,
}

-- The early check stops at the first field that does not match midnight of its date. If that is
-- the minute, the expression is accepted whatever its hour is, and a schedule with a bad hour then
-- raises at each time whose minute matches.
pub cron_schedule-late :
    (expression minute hour day month weekday : String) (at : Calendar) (e : Exn)
    → words expression ≡ minute ∷ hour ∷ day ∷ month ∷ weekday ∷ []
    → field_matches 0 minute (range 0 59) ≡ ok false
    → field_matches at.minute minute (range 0 59) ≡ ok true
    → field_matches at.hour hour (range 0 23) ≡ err e
    → (self : CronSchedule) × (cron_schedule expression ≡ ok self) × (matches self at ≡ err e)
unfolding cron_schedule matches fields_of
cron_schedule-late expression minute hour day month weekday at e five early later bad =
    simp (five, early) (_, refl, simp (later, bad) refl)
