-- ===== src/Workflow/Verdict.antt =====
-- What the result of `WorkflowOrchestrator.run` of engine/workflow/orchestrator.py says of its
-- tasks.
use conductor_engine.Base.{
  ℕ, String, ◌≡◌, refl, ◌∙◌, List, [], ◌∷◌, ◌++◌, none, some, Bool, true, false, any, ◌||◌, arith,
  if◌then◌else◌,
}
use conductor_engine.Base.Exec.{Outcome, Exec, Result, ok, err, lift, pure}
use conductor_engine.Base.Post.{Post, Post-bind, Post-if, Post-all}
use conductor_engine.Interfaces.Task.{TaskRecord}
use conductor_engine.Supervisor.State.{Config, State}
use conductor_engine.Workflow.{
  WorkflowStatus, PlanStep, WorkflowGoal, WorkflowResult, ValidationResponse, ValidatorContext,
  Agents, is_failed, step_batches, run_batch, run_batches, conclude, run, judged,
}

any-append :
    {A : Type 0} (p : A → Bool) (xs ys : List A) → any p (xs ++ ys) ≡ (any p xs || any p ys)
any-append p [] ys = refl
any-append p (x ∷ xs) ys = ground (arith, any-append p xs ys)

-- What the validator is told of a result.
abbrev pub told : WorkflowGoal → List TaskRecord → ValidatorContext
told goal records = record { workflow_id = goal.workflow_id; goal = goal.goal; results = records }

-- The status and the verdict that go with the records.
abbrev pub Agrees : Agents → WorkflowGoal → (failed : Bool) → WorkflowResult → Type 0
Agrees agents goal true result = (result.status ≡ WorkflowStatus.failed) × (result.verdict ≡ none)
Agrees agents goal false result =
    (v : ValidationResponse) × (agents.validate goal.goal (told goal result.records) ≡ ok v)
    × (result.verdict ≡ some v)
    × (result.status ≡ (if v.passed then WorkflowStatus.completed else WorkflowStatus.partial))

module _ {S G : Type 0} (config : Config S G) (agents : Agents)
    (pool : List (Exec (State S G) TaskRecord) → Exec (State S G) (List TaskRecord)) where
  abbrev pub Anything : State S G → Type 0
  Anything s = Unit {0}

  abbrev Flagged : List TaskRecord × Bool → State S G → Type 0
  Flagged (records, failed) s = any is_failed records ≡ failed

  anything : {A : Type 0} (r : Outcome A × State S G) → Post (λ _. Anything) Anything r
  anything r = Post-all (λ _. Anything) Anything r (λ _. tt) tt

  run_batches-Flagged :
      (fuel : ℕ) (id : String) (records : List TaskRecord) (batches : List (List PlanStep))
      (s : State S G)
      → any is_failed records ≡ false
      → Post Flagged Anything (run_batches config agents pool fuel id records batches s)
  unfolding run_batches
  run_batches-Flagged fuel id records [] s e = e
  run_batches-Flagged fuel id records (batch ∷ rest) s e =
      Post-bind (λ _. Anything) Flagged Anything
        (run_batch config agents pool fuel id records batch) _ s (anything _)
        (λ more u _.
          Post-if Flagged Anything (any is_failed more) _ _ u
            (λ bad. any-append is_failed records more ∙ rw (e, bad) refl)
            (λ good.
              run_batches-Flagged fuel id (records ++ more) rest u
                (any-append is_failed records more ∙ rw (e, good) refl)))

  lift-Returned :
      {A : Type 0} (r : Result A) (s : State S G) → Post (λ v _. r ≡ ok v) Anything (lift r s)
  lift-Returned (ok v) s = refl
  lift-Returned (err e) s = tt

  abbrev pub Reported : WorkflowGoal → WorkflowResult → State S G → Type 0
  Reported goal result s =
      (result.workflow_id ≡ goal.workflow_id)
      × Agrees agents goal (any is_failed result.records) result

  conclude-Reported :
      (goal : WorkflowGoal) (records : List TaskRecord) (failed : Bool) (s : State S G)
      → any is_failed records ≡ failed
      → Post (Reported goal) Anything (conclude config agents pool goal (records, failed) s)
  unfolding conclude
  conclude-Reported goal records true s e = (refl, rw e (refl, refl))
  conclude-Reported goal records false s e =
      let answer = agents.validate goal.goal (told goal records) in
      Post-bind (λ v _. answer ≡ ok v) (Reported goal) Anything (lift answer)
        (λ v. pure (judged goal records v)) s (lift-Returned answer s)
        (λ v u found. (refl, rw e (v, found, refl, refl)))

  -- When a workflow returns a result, it has the goal's id, and its status is FAILED, without a
  -- verdict, exactly if one of its records is failed; otherwise its verdict is what the validator
  -- answers for the goal and these records, and its status is COMPLETED or PARTIAL as that
  -- verdict passed or not.
  pub run-Reported :
      (fuel : ℕ) (goal : WorkflowGoal) (s : State S G)
      → Post (Reported goal) Anything (run config agents pool fuel goal s)
  unfolding run
  run-Reported fuel goal s =
      Post-bind (λ _. Anything) (Reported goal) Anything (lift _) _ s (anything _)
        (λ steps u _.
          Post-bind Flagged (Reported goal) Anything
            (run_batches config agents pool fuel goal.workflow_id [] (step_batches steps)) _ u
            (run_batches-Flagged fuel goal.workflow_id [] (step_batches steps) u refl)
            (λ e v flagged. conclude-Reported goal e.0 e.1 v flagged))
