-- ===== src/Scheduler/Runner/Ends.antt =====
-- When the loop of `TriggerSchedulerLoopRunner.run` of engine/runtime/scheduler.py ends.
use conductor_engine.Base.{
  ℕ, zero, suc, ◌+◌, ◌≤◌, ◌<◌, String, ◌≡◌, refl, List, Option, some, Bool, true, false, arith, ◌⊎◌,
  inl, inr, Bool-cases, if◌then◌else◌,
}
use conductor_engine.Base.Exec.{Outcome, done, raised, out_of_fuel, Result, ok, err}
use conductor_engine.Base.Ends.{Ends}
use conductor_engine.Interfaces.Task.{TaskRecord}
use conductor_engine.Runtime.Retry.{Floats}
use conductor_engine.Scheduler.Cron.{Calendar}
use conductor_engine.Scheduler.Service.{run_once}
use conductor_engine.Scheduler.Runner.{
  Signals, LoopRunner, World, should_end, asked_once, idle_after, rest_between, go_on, after_cycle,
  compute_interval_seconds, cycle, turns, run,
}
use conductor_engine.Supervisor.State.{Config}
use conductor_engine.Scheduler.Service.Finished.{Finished, run_adapters-Finished}

module _ (floats : Floats) {S G : Type 0} (config : Config S G) (calendar : ℕ → Calendar)
    (isoformat : ℕ → String) (signals : Signals floats) (self : LoopRunner floats) where
  abbrev turns_of : (fuel : ℕ) → Option ℕ → World S G → Outcome ℕ × World S G
  turns_of = turns floats config calendar isoformat signals self

  abbrev ends_at : Option ℕ → World S G → Bool
  ends_at = should_end floats config calendar isoformat signals self

  cycle-Finished :
      (w : World S G) → Finished (cycle floats config calendar isoformat signals self w).0
  unfolding cycle run_once
  cycle-Finished w = run_adapters-Finished config calendar isoformat _ _ _

  -- Why the loop may stop after some cycles: they are as many as allowed, or it was told to stop.
  abbrev pub Reason : (most cycles : ℕ) → Type 0
  Reason most cycles = (cycles ≡ most) ⊎ ((k : ℕ) × (signals.stopped k ≡ true))

  -- What a loop of at most `n` cycles ends with.
  abbrev pub Stopped : ℕ → ℕ → World S G → Type 0
  Stopped n c w = (c ≤ n) × Reason n c

  reason : (n : ℕ) (w : World S G) → w.cycles ≤ n → ends_at (some n) w ≡ true → Reason n w.cycles
  reason n w le e = elim (Bool-cases (signals.stopped w.asked)) [
    | inl told ↦ inr (w.asked, told)
    | inr free ↦ inl (ground arith)
  ]

  -- What a loop whose signal is set at its kth question ends with.
  abbrev pub Signalled : ℕ → ℕ → World S G → Type 0
  Signalled k c w = c + c ≤ suc k

  more_allowed : (n : ℕ) (w : World S G) → ends_at (some n) w ≡ false → w.cycles < n
  more_allowed n w e = elim (Bool-cases (signals.stopped w.asked)) [
    | inl told ↦ ground arith
    | inr free ↦ ground arith
  ]

  cycle-cycles :
      (w : World S G) → (cycle floats config calendar isoformat signals self w).1.cycles ≡ w.cycles
  unfolding cycle
  cycle-cycles w = refl

  cycle-asked :
      (w : World S G) → (cycle floats config calendar isoformat signals self w).1.asked ≡ w.asked
  unfolding cycle
  cycle-asked w = refl

  -- What the next turn ends with, the way to it ends with too.
  go_on-Ends :
      (Q : ℕ → World S G → Type 0) (again : World S G → Outcome ℕ × World S G)
      (interval : Result floats.Float) (w : World S G)
      → ((u : World S G)
          → u.cycles ≡ w.cycles
          → u.asked ≡ w.asked
          → Ends Q (λ w. Unit {0}) (again u))
      → Ends Q
          (λ w. Unit {0})
          (go_on floats config calendar isoformat signals self again interval w)
  unfolding go_on rest_between
  go_on-Ends Q again (ok interval) w more = more _ refl refl
  go_on-Ends Q again (err e) w more = tt

  abbrev interval_of : World S G → Result floats.Float
  interval_of w = compute_interval_seconds floats self w.idle (signals.random_fn w.drawn)

  -- Both ends of a turn: with `then_` where the loop ends, and `else_` where it goes on.
  choice :
      (Q : ℕ → World S G → Type 0) (b : Bool) (x y : Outcome ℕ × World S G)
      → (b ≡ true → Ends Q (λ w. Unit {0}) x)
      → (b ≡ false → Ends Q (λ w. Unit {0}) y)
      → Ends Q (λ w. Unit {0}) (if b then x else y)
  choice Q true x y then_ else_ = then_ refl
  choice Q false x y then_ else_ = else_ refl

  after_cycle-Stopped :
      (n fuel : ℕ) (r : Outcome (List TaskRecord)) (w : World S G)
      → Finished r
      → w.cycles < n
      → ((u : World S G)
          → u.cycles ≡ suc w.cycles
          → Ends (Stopped n) (λ u. Unit {0}) (turns_of fuel (some n) u))
      → Ends
          (Stopped n)
          (λ u. Unit {0})
          (after_cycle floats config calendar isoformat signals self
            (some n)
            (turns_of fuel (some n))
            r
            w)
  unfolding after_cycle
  after_cycle-Stopped n fuel out_of_fuel w h lt more = absurd h
  after_cycle-Stopped n fuel (raised e) w h lt more = tt
  after_cycle-Stopped n fuel (done l) w h lt more =
      let v = record w {
        cycles = suc w.cycles;
        idle = idle_after floats config calendar isoformat signals self l w.idle;
      } in
      let asked = asked_once floats config calendar isoformat signals self v in
      choice (Stopped n) (ends_at (some n) v) (done v.cycles, asked)
        (go_on floats config calendar isoformat signals self (turns_of fuel (some n))
          (interval_of asked) asked)
        (λ e. (omega arith, reason n v (omega arith) e))
        (λ _. go_on-Ends (Stopped n) _ (interval_of asked) asked (λ u same _. more u same))

  turns-Stopped :
      (fuel n : ℕ) (w : World S G)
      → w.cycles ≤ n
      → n < w.cycles + fuel
      → Ends (Stopped n) (λ u. Unit {0}) (turns_of fuel (some n) w)
  unfolding turns
  turns-Stopped zero n w le lt = absurd (omega arith)
  turns-Stopped (suc fuel) n w le lt =
      let v = asked_once floats config calendar isoformat signals self w in
      let c = cycle floats config calendar isoformat signals self v in
      choice (Stopped n) (ends_at (some n) w) (done w.cycles, v)
        (after_cycle floats config calendar isoformat signals self (some n) (turns_of fuel (some n))
          c.0 c.1)
        (λ e. (le, reason n w le e))
        (λ e.
          after_cycle-Stopped n fuel c.0 c.1 (cycle-Finished v)
            (rw (cycle-cycles v) (more_allowed n w e))
            (λ u same.
              turns-Stopped fuel n u (omega (arith, cycle-cycles v, more_allowed n w e, same))
                (omega (arith, cycle-cycles v, more_allowed n w e, same))))

  -- With a limit of `n` cycles and fuel for one turn more, `run` returns or raises, and the number
  -- of cycles that it returns is at most `n`; it is less only if the stop signal was set.
  pub run-Stopped :
      (n fuel : ℕ) (w : World S G)
      → n < fuel
      → Ends
          (Stopped n)
          (λ u. Unit {0})
          (run floats config calendar isoformat signals self fuel (some n) w)
  unfolding run
  run-Stopped n fuel w enough =
      turns-Stopped fuel n (record w { cycles = 0; idle = 0 }) (omega arith) (omega arith)

  -- The signal that is set is not the one that let the loop go on.
  not_asked :
      (k : ℕ) (m : Option ℕ) (w : World S G)
      → signals.stopped k ≡ true
      → w.asked ≤ k
      → ends_at m w ≡ false
      → w.asked < k
  not_asked k m w told le e = elim (Bool-cases (signals.stopped w.asked)) [
    | inl now ↦ ground arith
    | inr free ↦ grind arith
  ]

  after_cycle-Signalled :
      (k fuel : ℕ) (m : Option ℕ) (r : Outcome (List TaskRecord)) (w : World S G)
      → signals.stopped k ≡ true
      → Finished r
      → w.asked ≤ k
      → w.cycles + w.cycles < w.asked
      → ((u : World S G)
          → u.cycles ≡ suc w.cycles
          → u.asked ≡ suc w.asked
          → w.asked < k
          → Ends (Signalled k) (λ u. Unit {0}) (turns_of fuel m u))
      → Ends
          (Signalled k)
          (λ u. Unit {0})
          (after_cycle floats config calendar isoformat signals self m (turns_of fuel m) r w)
  unfolding after_cycle
  after_cycle-Signalled k fuel m out_of_fuel w told h le half more = absurd h
  after_cycle-Signalled k fuel m (raised e) w told h le half more = tt
  after_cycle-Signalled k fuel m (done l) w told h le half more =
      let v = record w {
        cycles = suc w.cycles;
        idle = idle_after floats config calendar isoformat signals self l w.idle;
      } in
      let asked = asked_once floats config calendar isoformat signals self v in
      choice (Signalled k) (ends_at m v) (done v.cycles, asked)
        (go_on floats config calendar isoformat signals self (turns_of fuel m) (interval_of asked)
          asked)
        (λ e. omega arith)
        (λ e.
          go_on-Ends (Signalled k) _ (interval_of asked) asked
            (λ u turns asks. more u turns asks (not_asked k m v told le e)))

  turns-Signalled :
      (fuel k : ℕ) (m : Option ℕ) (w : World S G)
      → signals.stopped k ≡ true
      → w.asked ≤ k
      → k < w.asked + fuel
      → w.cycles + w.cycles ≤ w.asked
      → Ends (Signalled k) (λ u. Unit {0}) (turns_of fuel m w)
  unfolding turns
  turns-Signalled zero k m w told le enough half = absurd (omega arith)
  turns-Signalled (suc fuel) k m w told le enough half =
      let v = asked_once floats config calendar isoformat signals self w in
      let c = cycle floats config calendar isoformat signals self v in
      choice (Signalled k) (ends_at m w) (done w.cycles, v)
        (after_cycle floats config calendar isoformat signals self m (turns_of fuel m) c.0 c.1)
        (λ e. omega arith)
        (λ e.
          after_cycle-Signalled k fuel m c.0 c.1 told (cycle-Finished v)
            (omega (cycle-asked v, arith, not_asked k m w told le e))
            (omega (cycle-asked v, cycle-cycles v, arith))
            (λ u turns asks before.
              turns-Signalled fuel k m u told (omega (arith, asks, before))
                (omega (arith, asks, cycle-asked v, enough))
                (omega (arith, asks, turns, cycle-asked v, cycle-cycles v, half))))

  -- If the stop signal is set when it is asked for the kth time from zero, `run` returns or raises
  -- within `k + 1` turns, whatever the limit of cycles is and although there be none, and the
  -- number of cycles that it returns is at most half of `k + 1`.
  pub run-Signalled :
      (k fuel : ℕ) (max_cycles : Option ℕ) (w : World S G)
      → signals.stopped k ≡ true
      → w.asked ≤ k
      → k < w.asked + fuel
      → Ends
          (Signalled k)
          (λ u. Unit {0})
          (run floats config calendar isoformat signals self fuel max_cycles w)
  unfolding run
  run-Signalled k fuel m w told le enough =
      turns-Signalled fuel k m (record w { cycles = 0; idle = 0 }) told le enough (omega arith)
