-- ===== src/Supervisor/Window.antt =====
-- The execution window: `_wait_for_execution_window` keeps two starts of a capability apart.
use mathlib.Core.Path.{subst}
use conductor_engine.Base.{
  ℕ, ◌+◌, ◌≤◌, String, ◌≡◌, refl, some, arith, Bool, true, false, lookup, lookup-insert, ap, sym,
  ◌∙◌, str_eq, if◌then◌else◌,
}
use conductor_engine.Supervisor.State.{
  Config, State, monotonic, sleep, wait_after, take_window, wait_for_execution_window,
}

if_congr :
    {A : Type 0} (b : Bool) {x y u v : A}
    → x ≡ y
    → u ≡ v
    → (if b then x else u) ≡ (if b then y else v)
if_congr true e f = e
if_congr false e f = f

module _ {S G : Type 0} (config : Config S G) where
  -- What the wait returns is the time of the clock.
  wait_after-interval :
      (previous interval t : ℕ) (s : State S G)
      → previous ≤ t
      → t ≡ s.monotonic
      → let (w, u) = wait_after config (some previous) interval t s in
        (w ≡ u.monotonic)
        × (previous + interval ≤ w)
        × (s.monotonic ≤ w)
        × (u.last_start ≡ s.last_start)
  unfolding wait_after monotonic sleep
  wait_after-interval previous interval t s le now_ =
      (ground arith, ground arith, ground arith, ground arith)

  -- The state `u` after the wait of the capability `name` in the state `s`.
  abbrev pub Apart : (name other : String) (previous interval : ℕ) → State S G → State S G → Type 0
  Apart name other previous interval s u =
      (lookup other u.last_start
        ≡ (if str_eq name other then some u.monotonic else lookup other s.last_start))
      × (previous + interval ≤ u.monotonic)
      × (s.monotonic ≤ u.monotonic)

  take_window-Apart :
      (name other : String) (previous interval : ℕ) (s : State S G)
      → previous ≤ s.monotonic
      → Apart name other previous interval s (take_window config name interval (some previous) s)
  unfolding take_window monotonic
  take_window-Apart name other previous interval s le =
      let t = s.monotonic + config.env.lag s.monotonic in
      let v = record s { monotonic = t } in
      let (at, apart, later, kept) = wait_after-interval previous interval t v (omega arith) refl in
      let w = wait_after config (some previous) interval t v in
      (
        lookup-insert name other w.0 w.1.last_start
            ∙ if_congr (str_eq name other) (ap some at) (ap (λ m. lookup other m) kept),
        omega arith,
        omega arith,
      )

  -- If the capability last started at `previous`, which is not after the present of the clock, its
  -- next start is recorded at the time at which the clock then stands, at least the minimal
  -- interval after `previous`, and the recorded starts of the other capabilities stay.
  pub wait_for_execution_window-Apart :
      (name other : String) (previous interval : ℕ) (s : State S G)
      → lookup name s.last_start ≡ some previous
      → previous ≤ s.monotonic
      → Apart name other previous interval s
          (wait_for_execution_window config name (some interval) s)
  unfolding wait_for_execution_window
  wait_for_execution_window-Apart name other previous interval s e le =
      subst (λ o. Apart name other previous interval s (take_window config name interval o s))
        (sym e) (take_window-Apart name other previous interval s le)
