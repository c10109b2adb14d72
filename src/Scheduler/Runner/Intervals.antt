-- ===== src/Scheduler/Runner/Intervals.antt =====
-- How long the loop of `TriggerSchedulerLoopRunner` of engine/runtime/scheduler.py sleeps.
use conductor_engine.Base.{ℕ, suc, ◌≤◌, ◌≡◌, refl, true, false, arith}
use conductor_engine.Base.Exec.{ok}
use conductor_engine.Runtime.Retry.{Floats, smaller}
use conductor_engine.Runtime.Retry.Delays.{IsOrdered, smaller-limit, smaller_mono, products}
use conductor_engine.Scheduler.Runner.{
  LoopRunner, loop_runner, plain_interval, compute_interval_seconds,
}

module _ (floats : Floats) (ordered : IsOrdered floats) where
  open floats use {Float, one, zero_, times, growth, at_most, micros}
  open ordered use {micros-mono}

  -- What the checks of the constructor leave to rely on.
  abbrev IsBuilt : LoopRunner floats → Type 0
  IsBuilt self =
      (at_most self.base_poll_interval_seconds zero_ ≡ false)
      × (at_most self.base_poll_interval_seconds self.max_poll_interval_seconds ≡ true)
      × (at_most one self.backoff_multiplier ≡ true)

  built : (self : LoopRunner floats) → loop_runner floats self ≡ ok self → IsBuilt self
  unfolding loop_runner
  built self e = (ground arith, ground arith, ground arith)

  steady :
      (self : LoopRunner floats) (n : ℕ) (drawn x : Float)
      → at_most self.jitter_ratio zero_ ≡ true
      → plain_interval floats self n ≡ ok x
      → compute_interval_seconds floats self n drawn ≡ ok x
  unfolding compute_interval_seconds
  steady self n drawn x e found = rw found (rw e refl)

  plain-power :
      (self : LoopRunner floats) (n : ℕ) (power : Float)
      → growth self.backoff_multiplier (suc n) ≡ ok power
      → plain_interval floats self (suc n)
        ≡ ok (
            smaller floats
              (times self.base_poll_interval_seconds power)
              self.max_poll_interval_seconds)
  unfolding plain_interval
  plain-power self n power found = rw found refl

  plain-zero :
      (self : LoopRunner floats) → plain_interval floats self 0 ≡ ok self.base_poll_interval_seconds
  unfolding plain_interval
  plain-zero self = refl

  -- For a runner that its constructor accepts, without jitter, as long as the power of the
  -- multiplier is in the range of floats: while cycles submit nothing, each sleep but the first is
  -- no shorter than the one before it, and no sleep is longer than `max_poll_interval_seconds`, the
  -- one that follows a cycle with submissions included.
  pub compute_interval_seconds-IsBounded :
      (self : LoopRunner floats) (n : ℕ) (drawn drawn_ drawn0 power : Float)
      → loop_runner floats self ≡ ok self
      → at_most self.jitter_ratio zero_ ≡ true
      → growth self.backoff_multiplier (suc (suc n)) ≡ ok power
      → (x y z : Float) × (compute_interval_seconds floats self (suc n) drawn ≡ ok x)
        × (compute_interval_seconds floats self (suc (suc n)) drawn_ ≡ ok y)
        × (compute_interval_seconds floats self 0 drawn0 ≡ ok z)
        × (micros x ≤ micros y)
        × (micros y ≤ micros self.max_poll_interval_seconds)
        × (micros z ≤ micros self.max_poll_interval_seconds)
  compute_interval_seconds-IsBounded self n drawn drawn_ drawn0 power e calm found =
      let (positive, le, grows) = built self e in
      let (a, before, keeps) =
        products floats ordered self.base_poll_interval_seconds self.backoff_multiplier power n
          positive grows found in
      (
        _,
        _,
        _,
        steady self (suc n) drawn _ calm (plain-power self n a before),
        steady self (suc (suc n)) drawn_ _ calm (plain-power self (suc n) power found),
        steady self 0 drawn0 _ calm (plain-zero self),
        smaller_mono floats ordered _ _ self.max_poll_interval_seconds keeps,
        smaller-limit floats ordered _ self.max_poll_interval_seconds,
        micros-mono _ _ le,
      )
