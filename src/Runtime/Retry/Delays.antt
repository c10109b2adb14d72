-- ===== src/Runtime/Retry/Delays.antt =====
-- The delays of the backoff strategies of engine/runtime/retry.py.
use mathlib.Core.Path.{subst}
use conductor_engine.Base.{
  ℕ, suc, ◌≤◌, ◌≡◌, sym, refl, some, ltb, arith, true, false, Bool-cases, inl, inr, if◌then◌else◌,
}
use conductor_engine.Base.Exec.{Result, ok, err}
use conductor_engine.Interfaces.Task.{TaskRecord}
use conductor_engine.Interfaces.Retry.{FailureContext, RetryDecision}
use conductor_engine.Runtime.Retry.{Floats, Backoff, backoff, smaller, capped, decide_exponential}

-- What IEEE 754 and the C library promise of floats that are not NaN: the order is total, a
-- product with a positive factor keeps the order of factors of at least one, and neither of two
-- delays turns around when it is rounded to microseconds. A power of a multiplier of at least one
-- whose exponent is not negative is at least one, and if it is in range, so is the power before
-- it, which is no greater.
pub record IsOrdered (floats : Floats) : Type 0 where
  pub total : (a b : floats.Float) → floats.at_most a b ≡ false → floats.at_most b a ≡ true
  pub times-mono :
      (c a b : floats.Float)
      → floats.at_most c floats.zero_ ≡ false
      → floats.at_most floats.one a ≡ true
      → floats.at_most a b ≡ true
      → floats.at_most (floats.times c a) (floats.times c b) ≡ true
  pub growth-one :
      (m a : floats.Float) (n : ℕ)
      → floats.at_most floats.one m ≡ true
      → floats.growth m (suc n) ≡ ok a
      → floats.at_most floats.one a ≡ true
  pub growth-mono :
      (m b : floats.Float) (n : ℕ)
      → floats.at_most floats.one m ≡ true
      → floats.growth m (suc (suc n)) ≡ ok b
      → (a : floats.Float) × (floats.growth m (suc n) ≡ ok a) × (floats.at_most a b ≡ true)
  pub micros-mono :
      (a b : floats.Float) → floats.at_most a b ≡ true → floats.micros a ≤ floats.micros b

-- A delay that a decision asks for; an exception asks for none.
abbrev pub Delay : Result RetryDecision → (ℕ → Type 0) → Type 0
Delay (ok decision) P = (d : ℕ) × (decision.delay_seconds ≡ some d) × P d
Delay (err e) P = ⊥

module _ (floats : Floats) (ordered : IsOrdered floats) where
  open floats use {Float, one, zero_, times, growth, at_most, micros}
  open ordered use {total, times-mono, growth-one, growth-mono, micros-mono}

  pub smaller-limit : (raw limit : Float) → micros (smaller floats raw limit) ≤ micros limit
  smaller-limit raw limit = elim (Bool-cases (at_most raw limit)) [
    | inl e ↦
        subst (λ b. micros (if b then raw else limit) ≤ micros limit) (sym e)
          (micros-mono raw limit e)
    | inr e ↦ subst (λ b. micros (if b then raw else limit) ≤ micros limit) (sym e) (omega arith)
  ]

  pub smaller_mono :
      (a b limit : Float)
      → at_most a b ≡ true
      → micros (smaller floats a limit) ≤ micros (smaller floats b limit)
  smaller_mono a b limit le =
      ground (arith, micros-mono a b le, micros-mono a limit, total a limit, micros-mono limit a)

  -- The checks of the constructor passed.
  abbrev IsBuilt : Backoff floats → Type 0
  IsBuilt self = (at_most self.base_delay zero_ ≡ false) × (at_most one self.multiplier ≡ true)

  built : (self : Backoff floats) → backoff floats self ≡ ok self → IsBuilt self
  unfolding backoff
  built self e = (ground arith, ground arith)

  -- Of a power that is in range, the one before it is, and the products keep their order.
  pub products :
      (base m b : Float) (n : ℕ)
      → at_most base zero_ ≡ false
      → at_most one m ≡ true
      → growth m (suc (suc n)) ≡ ok b
      → (a : Float) × (growth m (suc n) ≡ ok a) × (at_most (times base a) (times base b) ≡ true)
  products base m b n positive grows power =
      let (a, before, le) = growth-mono m b n grows power in
      (a, before, times-mono base a b positive (growth-one m a n grows before) le)

  Delay-exponential :
      (self : Backoff floats) (task : TaskRecord) (failure : FailureContext) (n : ℕ) (power : Float)
      (P : ℕ → Type 0)
      → failure.attempt ≡ n
      → n ≤ failure.max_retries
      → growth self.multiplier n ≡ ok power
      → P (micros (smaller floats (times self.base_delay power) self.max_delay))
      → Delay (decide_exponential floats self task failure) P
  unfolding decide_exponential capped
  Delay-exponential self task failure n power P same le found p =
      let within : ltb failure.max_retries failure.attempt ≡ false = ground arith in
      rw within (rw same (rw found (_, refl, p)))

  -- For a strategy that its constructor accepts, and two failures within the limits of their tasks
  -- whose attempts follow each other, the first at least one, where the power of the multiplier
  -- for the later attempt is in the range of floats: the exponential strategy raises on neither
  -- and asks for a delay after each, which is never above `max_delay` and does not shrink from one
  -- attempt to the next.
  pub decide_exponential-Delay :
      (self : Backoff floats) (task : TaskRecord) (failure next : FailureContext) (n : ℕ)
      (power : Float)
      → backoff floats self ≡ ok self
      → failure.attempt ≡ suc n
      → next.attempt ≡ suc (suc n)
      → suc n ≤ failure.max_retries
      → suc (suc n) ≤ next.max_retries
      → growth self.multiplier (suc (suc n)) ≡ ok power
      → Delay (decide_exponential floats self task failure) (λ d.
        Delay
          (decide_exponential floats self task next)
          (λ e. (d ≤ e) × (e ≤ micros self.max_delay)))
  decide_exponential-Delay self task failure next n power e first second le le_ found =
      let (positive, grows) = built self e in
      let (a, before, keeps) =
        products self.base_delay self.multiplier power n positive grows found in
      Delay-exponential self task failure (suc n) a _ first le before (
        Delay-exponential self task next (suc (suc n)) power _ second le_ found (
          smaller_mono _ _ self.max_delay keeps,
          smaller-limit (times self.base_delay power) self.max_delay,
        ))
