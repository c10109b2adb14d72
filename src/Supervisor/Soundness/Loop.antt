-- ===== src/Supervisor/Soundness/Loop.antt =====
-- Soundness of the `except` block, of a turn of the loop, and of the loop.
use conductor_engine.Base.{
  ℕ, zero, suc, String, ◌≡◌, List, Option, none, Bool, true, false, ◌||◌, inl, inr, Bool-cases,
  Option-cases,
}
use conductor_engine.Base.Exec.{Exn, Result, ok, err, Exec}
use conductor_engine.Base.Post.{Post, Post-bind}
use conductor_engine.Interfaces.Task.{TaskRecord}
use conductor_engine.Interfaces.Retry.{FailureContext, RetryDecision}
use conductor_engine.Interfaces.Policy.{Capability, CapabilityExecutionControls}
use conductor_engine.Supervisor.State.{Config, State}
use conductor_engine.Supervisor.Execution.{
  Turn, finished, again, exhausted, failure_context, record_failure, next_attempt, should_escalate,
  follow, give_up, retry, except_block, after_try, turn, after_turn, loop,
}
use conductor_engine.Supervisor.Steps.{IsFine-tasks}
use conductor_engine.Json.{Json}
use conductor_engine.Supervisor.Soundness.{
  IsQuiet, Live, Runs, Settles, Legal, AfterTurn, AfterTry, try_block-AfterTry, record_failure-Runs,
  mark_retry-Runs, finish_failed-Settles, escalate_turn-AfterTurn,
}

module _ {S G : Type 0} (config : Config S G) where
  Runs→Live :
      {id : String} {t : TaskRecord} {s : State S G} → Runs config id t s → Live config id t s
  Runs→Live runs = record {
    running = runs.running;
    named = runs.named;
    sound = runs.fine.sound;
    legal = runs.fine.legal;
  }

  next_attempt-Live :
      (d : RetryDecision) (id : String) (t : TaskRecord) (s : State S G)
      → Live config id t s
      → Live config id (next_attempt config d t) s
  unfolding next_attempt
  next_attempt-Live d id t s live =
      let kept = λ (o : Option Json) (e : d.adjusted_input ≡ o). e in
      elim (Option-cases d.adjusted_input) [
        | inl e ↦ rw e (record {
          running = live.running;
          named = live.named;
          sound = live.sound;
          legal = live.legal;
        })
        | inr (i, e) ↦ rw e (record {
          running = live.running;
          named = live.named;
          sound = live.sound;
          legal = live.legal;
        })
      ]

  give_up-AfterTurn :
      (h : List FailureContext) (t : ℕ) (e : Exn) (d : RetryDecision) (id : String)
      (task : TaskRecord) (s : State S G)
      → Runs config id task s
      → Post (AfterTurn config id) (Legal config) (give_up config h t e d task s)
  unfolding give_up
  give_up-AfterTurn h t e d id task s runs =
      elim (Bool-cases (d.escalate || should_escalate config task h)) [
        | inl y ↦ rw y (escalate_turn-AfterTurn config h t e _ id task s (Runs→Live runs))
        | inr n ↦ rw n runs
      ]

  retry-AfterTurn :
      (h : List FailureContext) (t : ℕ) (e : Exn) (d : RetryDecision) (id : String)
      (task : TaskRecord) (s : State S G)
      → Live config id task s
      → Post (AfterTurn config id) (Legal config) (retry config h t e d task s)
  unfolding retry
  retry-AfterTurn h t e d id task s live = elim (Bool-cases (should_escalate config task h)) [
    | inl y ↦ rw y (escalate_turn-AfterTurn config h t e none id task s live)
    | inr n ↦ rw n (mark_retry-Runs config e d id task s live)
  ]

  follow-AfterTurn :
      (h : List FailureContext) (t : ℕ) (e : Exn) (b : Bool) (d : RetryDecision) (id : String)
      (task : TaskRecord) (s : State S G)
      → Runs config id task s
      → Post (AfterTurn config id) (Legal config) (follow config h t e b d task s)
  unfolding follow
  follow-AfterTurn h t e true d id task s runs =
      retry-AfterTurn h t e d id _ s (next_attempt-Live d id task s (Runs→Live runs))
  follow-AfterTurn h t e false d id task s runs = give_up-AfterTurn h t e d id task s runs

  except_block-AfterTurn :
      (h : List FailureContext) (t : ℕ) (e : Exn) (id : String) (task : TaskRecord) (s : State S G)
      → Runs config id task s
      → Post (AfterTurn config id) (Legal config) (except_block config h t e task s)
  unfolding except_block
  except_block-AfterTurn h t e id task s runs =
      let f = failure_context config e task in
      let noted = record_failure config f task s in
      let held = record_failure-Runs config f id task s runs in
      follow-AfterTurn _ t e _ _ id noted.0 noted.1 held

  after_turn-Settles :
      (rerun : TaskRecord → List FailureContext → Exec (State S G) TaskRecord) (t : ℕ) (id : String)
      → ((u : TaskRecord) (h : List FailureContext) (s : State S G)
          → Runs config id u s
          → Post (Settles config id) (Legal config) (rerun u h s))
      → (o : Turn) (s : State S G) → AfterTurn config id o s
      → Post (Settles config id) (Legal config) (after_turn config rerun t o s)
  unfolding after_turn
  after_turn-Settles rerun t id next (finished u) s settles = settles
  after_turn-Settles rerun t id next (exhausted u h e) s runs =
      finish_failed-Settles config h t e id u s runs
  after_turn-Settles rerun t id next (again u h) s runs = next u h s runs

  module _ (quiet : IsQuiet config) where
    after_try-AfterTurn :
        (h : List FailureContext) (t : ℕ) (r : Result (Unit {0})) (id : String)
        (task u : TaskRecord) (s v : State S G)
        → Runs config id task s
        → AfterTry config id task s (u, r, v)
        → Post (AfterTurn config id) (Legal config) (after_try config h t r u v)
    unfolding after_try
    after_try-AfterTurn h t (ok _) id task u s v runs after = after
    after_try-AfterTurn h t (err e) id task u s v runs (same, stays) = rw same (
        except_block-AfterTurn h t e id task v (record {
          fine = IsFine-tasks config runs.fine stays;
          running = runs.running;
          named = runs.named;
        }))

    turn-AfterTurn :
        (c : Capability) (x : CapabilityExecutionControls) (t : ℕ) (id : String) (task : TaskRecord)
        (h : List FailureContext) (s : State S G)
        → Runs config id task s
        → Post (AfterTurn config id) (Legal config) (turn config c x t task h s)
    unfolding turn
    turn-AfterTurn c x t id task h s runs =
        after_try-AfterTurn h t _ id task _ s _ runs
          (try_block-AfterTry config quiet c x t id task s runs)

    pub loop-Settles :
        (fuel : ℕ) (c : Capability) (x : CapabilityExecutionControls) (t : ℕ) (id : String)
        (task : TaskRecord) (h : List FailureContext) (s : State S G)
        → Runs config id task s
        → Post (Settles config id) (Legal config) (loop config fuel c x t task h s)
    unfolding loop
    loop-Settles zero c x t id task h s runs = runs.fine.legal
    loop-Settles (suc fuel) c x t id task h s runs =
        Post-bind (AfterTurn config id) (Settles config id) (Legal config)
          (turn config c x t task h) _ s (turn-AfterTurn c x t id task h s runs)
          (after_turn-Settles (loop config fuel c x t) t id (loop-Settles fuel c x t id))
