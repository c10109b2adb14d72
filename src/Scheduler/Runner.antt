-- ===== src/Scheduler/Runner.antt =====
-- `TriggerSchedulerLoopRunner` of engine/runtime/scheduler.py.
pub mod Ends
pub mod Intervals
use conductor_engine.Base.{
  ℕ, zero, suc, ◌+◌, String, List, [], ◌∷◌, Option, none, some, Bool, true, false, leb, ◌==◌,
  if◌then◌else◌,
}
use conductor_engine.Base.Exec.{
  Exn, Result, ok, err, value_error, and_then, Outcome, done, raised, out_of_fuel,
}
use conductor_engine.Interfaces.Task.{TaskRecord}
use conductor_engine.Runtime.Retry.{Floats, smaller}
use conductor_engine.Scheduler.Cron.{Calendar}
use conductor_engine.Scheduler.Service.{TriggerSchedulerService, run_once}
use conductor_engine.Supervisor.State.{Config, State, sleep}

-- The stop signal's answer to each time it is asked, the nth random number, and the time that
-- `now_fn` gives to the nth cycle, if there is one.
pub record Signals (floats : Floats) : Type 0 where
  pub stopped : ℕ → Bool
  pub random_fn : ℕ → floats.Float
  pub now_fn : ℕ → Option ℕ

-- The arguments of `__init__`.
pub record LoopRunner (floats : Floats) : Type 0 where
  pub base_poll_interval_seconds : floats.Float
  pub max_poll_interval_seconds : floats.Float
  pub backoff_multiplier : floats.Float
  pub jitter_ratio : floats.Float

-- What the loop keeps: the service, the engine, the cycles done, the idle cycles in a row, and how
-- often the stop signal was asked and a random number drawn.
pub record World (S G : Type 0) : Type 0 where
  pub service : TriggerSchedulerService
  pub state : State S G
  pub cycles : ℕ
  pub idle : ℕ
  pub asked : ℕ
  pub drawn : ℕ

module _ (floats : Floats) where
  open floats use {zero_, one, times, plus, growth, at_most, micros}

  -- `__init__`
  unfoldable pub loop_runner : LoopRunner floats → Result (LoopRunner floats)
  loop_runner self =
      if at_most self.base_poll_interval_seconds zero_
      then err (value_error "base_poll_interval_seconds must be > 0")
      else if at_most self.base_poll_interval_seconds self.max_poll_interval_seconds
      then (if at_most one self.backoff_multiplier
          then (if at_most zero_ self.jitter_ratio
              then ok self
              else err (value_error "jitter_ratio must be >= 0"))
          else err (value_error "backoff_multiplier must be >= 1.0"))
      else err (value_error "max_poll_interval_seconds must be >= base_poll_interval_seconds")

  -- The interval without jitter, where `growth m n` is `m ** (n - 1)`; the power may raise.
  unfoldable pub plain_interval : LoopRunner floats → (idle : ℕ) → Result floats.Float
  plain_interval self zero = ok self.base_poll_interval_seconds
  plain_interval self (suc n) = and_then (growth self.backoff_multiplier (suc n)) (λ power.
      ok (
        smaller floats (times self.base_poll_interval_seconds power)
          self.max_poll_interval_seconds))

  -- `_compute_interval_seconds`, where `drawn` is what `random_fn` returns if it is called.
  unfoldable pub compute_interval_seconds :
      LoopRunner floats → (idle : ℕ) → (drawn : floats.Float) → Result floats.Float
  compute_interval_seconds self idle drawn = and_then (plain_interval self idle) (λ interval. ok (
      if at_most self.jitter_ratio zero_
      then interval
      else plus interval (times (times interval self.jitter_ratio) drawn)))

  module _ {S G : Type 0} (config : Config S G) (calendar : ℕ → Calendar) (isoformat : ℕ → String)
      (signals : Signals floats) (self : LoopRunner floats) where
    -- `max_cycles is not None and cycles_completed >= max_cycles`
    abbrev pub is_enough : Option ℕ → ℕ → Bool
    is_enough none cycles = false
    is_enough (some n) cycles = leb n cycles

    -- The two tests that end the loop, with the stop signal first.
    abbrev pub should_end : Option ℕ → World S G → Bool
    should_end max_cycles w =
        if signals.stopped w.asked then true else is_enough max_cycles w.cycles

    abbrev pub asked_once : World S G → World S G
    asked_once w = record w { asked = suc w.asked }

    abbrev pub idle_after : List TaskRecord → ℕ → ℕ
    idle_after [] idle = suc idle
    idle_after (t ∷ rest) idle = 0

    -- The sleep. A draw is made only where the jitter is used.
    unfoldable pub rest_between : (interval : floats.Float) → World S G → World S G
    rest_between interval w = record w {
      state = sleep config (micros interval) w.state;
      drawn = if at_most self.jitter_ratio zero_ then w.drawn else suc w.drawn;
    }

    -- The sleep and the next turn, unless the interval raises.
    unfoldable pub go_on :
        (again : World S G → Outcome ℕ × World S G)
        → (interval : Result floats.Float) → World S G
        → Outcome ℕ × World S G
    go_on again (ok interval) w = again (rest_between interval w)
    go_on again (err e) w = (raised e, w)

    -- The part of a turn behind its poll, where `again` is the next turn.
    unfoldable pub after_cycle :
        (max_cycles : Option ℕ)
        → (again : World S G → Outcome ℕ × World S G) → Outcome (List TaskRecord)
        → World S G
        → Outcome ℕ × World S G
    after_cycle max_cycles again (raised e) w = (raised e, w)
    after_cycle max_cycles again out_of_fuel w = (out_of_fuel, w)
    after_cycle max_cycles again (done submitted) w =
        let w = record w { cycles = suc w.cycles; idle = idle_after submitted w.idle } in
        let ends = should_end max_cycles w in
        let w = asked_once w in
        let interval = compute_interval_seconds self w.idle (signals.random_fn w.drawn) in
        if ends then (done w.cycles, w) else go_on again interval w

    -- One cycle: the poll of the service.
    unfoldable pub cycle : World S G → Outcome (List TaskRecord) × World S G
    cycle w =
        let (r, service, s) =
          run_once config calendar isoformat (signals.now_fn w.cycles) w.service w.state in
        (r, record w { service = service; state = s })

    -- `while True`, with fuel for its turns.
    unfoldable pub turns : (fuel : ℕ) → (max_cycles : Option ℕ) → World S G → Outcome ℕ × World S G
    turns zero max_cycles w = (out_of_fuel, w)
    turns (suc fuel) max_cycles w =
        let ends = should_end max_cycles w in
        let w = asked_once w in
        let (r, polled) = cycle w in
        let next = after_cycle max_cycles (turns fuel max_cycles) r polled in
        if ends then (done w.cycles, w) else next

    -- `run`, of a number of cycles that is not negative.
    unfoldable pub run : (fuel : ℕ) → (max_cycles : Option ℕ) → World S G → Outcome ℕ × World S G
    run fuel max_cycles w = turns fuel max_cycles (record w { cycles = 0; idle = 0 })
