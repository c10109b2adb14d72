-- ===== src/Workflow/Tests.antt =====
-- The theorems about engine/workflow/orchestrator.py applied to small plans.
use conductor_engine.Base.{String, ◌≡◌, List, [], ◌∷◌, Option, none, some, Assoc}
use conductor_engine.Base.Exec.{Exec, pure, ◌>>=◌}
use conductor_engine.Base.Post.{Post}
use conductor_engine.Interfaces.Task.{TaskRecord}
use conductor_engine.Supervisor.State.{State}
use conductor_engine.Supervisor.Samples.{config, fresh}
use conductor_engine.Workflow.{
  PlanStep, WorkflowGoal, Agents, linear_plan, passthrough_work, passthrough_validate, step_batches,
  run,
}
use conductor_engine.Workflow.Batches.{flatten, IsBatched, step_batches-IsBatched}
use conductor_engine.Workflow.Verdict.{Reported, run-Reported}

abbrev step : String → Option String → PlanStep
step name group = record {
  name = name;
  capability = "flaky";
  input_hint = [];
  parallel_group = group;
}

abbrev plan : List PlanStep
plan =
    step "a" none
    ∷ step "b" (some "x")
    ∷ step "c" (some "x")
    ∷ step "d" (some "y")
    ∷ step "e" none
    ∷ []

step_batches-IsBatched_example :
    (flatten (step_batches plan) ≡ plan) × IsBatched (step_batches plan)
step_batches-IsBatched_example = step_batches-IsBatched plan

abbrev agents : Agents
agents = record {
  plan = linear_plan plan;
  work = passthrough_work;
  validate = passthrough_validate;
}

abbrev goal : WorkflowGoal
goal = record { workflow_id = "w"; goal = "all of it"; capabilities = [] }

-- The interleaving in which one step runs after the other.
abbrev in_turn :
    List (Exec (State (Assoc TaskRecord) (Unit {0})) TaskRecord)
    → Exec (State (Assoc TaskRecord) (Unit {0})) (List TaskRecord)
in_turn [] = pure []
in_turn (m ∷ rest) = do first ← m; others ← in_turn rest; pure (first ∷ others)

run-Reported_example :
    Post
      (Reported config agents in_turn goal)
      (λ s. Unit {0})
      (run config agents in_turn 1 goal fresh)
run-Reported_example = run-Reported config agents in_turn 1 goal fresh
