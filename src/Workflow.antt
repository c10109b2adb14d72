-- ===== src/Workflow.antt =====
-- engine/workflow/orchestrator.py, with the records of engine/interfaces/workflow.py. The planner,
-- the worker and the validator are functions that may raise; the thread pool is a parameter.
pub mod Batches
pub mod Verdict
mod Tests
use conductor_engine.Base.{
  ℕ, zero, suc, String, List, [], ◌∷◌, ◌++◌, Option, none, some, Bool, true, false, any, length,
  str_eq, if◌then◌else◌,
}
use conductor_engine.Base.Exec.{Result, ok, Exec, pure, lift, ◌>>=◌, ◌>>◌}
use conductor_engine.Json.{Json}
use conductor_engine.Interfaces.Task.{TaskStatus, TaskRecord, TaskSubmission}
use conductor_engine.Supervisor.State.{Config, State}
use conductor_engine.Supervisor.Service.{run_submission}

pub data WorkflowStatus : Type 0 where
  pending running completed failed partial : WorkflowStatus

pub record PlanStep : Type 0 where
  pub name : String
  pub capability : String
  pub input_hint : Json
  pub parallel_group : Option String

pub record WorkflowGoal : Type 0 where
  pub workflow_id : String
  pub goal : String
  pub capabilities : List String

pub record PlannerContext : Type 0 where
  pub workflow_id : String
  pub goal : String
  pub capabilities : List String

pub record WorkerContext : Type 0 where
  pub workflow_id : String
  pub step : PlanStep
  pub prior_results : List TaskRecord

pub record ValidatorContext : Type 0 where
  pub workflow_id : String
  pub goal : String
  pub results : List TaskRecord

pub record ValidationResponse : Type 0 where
  pub passed : Bool
  pub verdict : String
  pub issues : List String

pub record WorkflowResult : Type 0 where
  pub workflow_id : String
  pub goal : String
  pub status : WorkflowStatus
  pub records : List TaskRecord
  pub verdict : Option ValidationResponse

-- The planner's answer is the list of its steps, and the worker's the submission.
pub record Agents : Type 0 where
  pub plan : (goal : String) → PlannerContext → Result (List PlanStep)
  pub work : (step_name : String) → WorkerContext → Result TaskSubmission
  pub validate : (goal : String) → ValidatorContext → Result ValidationResponse

-- The agents of engine/workflow/agents: `LinearPlanner` of given steps, `PassthroughWorker` and
-- `PassthroughValidator`.
abbrev pub linear_plan : List PlanStep → (goal : String) → PlannerContext → Result (List PlanStep)
linear_plan steps goal context = ok steps

unfoldable pub passthrough_work : (step_name : String) → WorkerContext → Result TaskSubmission
passthrough_work step_name context = ok (record {
  name = step_name;
  capability = context.step.capability;
  input = context.step.input_hint;
  metadata = [];
  max_retries = 0;
  workflow_id = some context.workflow_id;
})

abbrev pub passthrough_validate : (goal : String) → ValidatorContext → Result ValidationResponse
passthrough_validate goal context =
    ok (record { passed = true; verdict = "all steps passed"; issues = [] })

-- `parallel_group == group_name`
abbrev pub in_group : String → Option String → Bool
in_group group none = false
in_group group (some g) = str_eq g group

-- The inner loop of `_step_batches`: the steps that continue a group, and those behind them.
unfoldable pub split_group : String → List PlanStep → List PlanStep × List PlanStep
split_group group [] = ([], [])
split_group group (step ∷ steps) =
    let (batch, rest) = split_group group steps in
    if in_group group step.parallel_group then (step ∷ batch, rest) else ([], step ∷ steps)

-- What the batch of a step takes of the steps behind it.
unfoldable pub companions : Option String → List PlanStep → List PlanStep × List PlanStep
companions none steps = ([], steps)
companions (some group) steps = split_group group steps

-- The outer loop: each turn takes at least one step, so it makes no more turns than there are
-- steps.
unfoldable pub batches_in : (turns : ℕ) → List PlanStep → List (List PlanStep)
batches_in zero steps = []
batches_in (suc turns) [] = []
batches_in (suc turns) (step ∷ steps) =
    let (batch, rest) = companions step.parallel_group steps in
    (step ∷ batch) ∷ batches_in turns rest

-- `_step_batches`
unfoldable pub step_batches : List PlanStep → List (List PlanStep)
step_batches steps = batches_in (length steps) steps

-- `record.status == TaskStatus.FAILED`
abbrev pub is_failed : TaskRecord → Bool
is_failed record_ = elim record_.status [ TaskStatus.failed ↦ true | _ ↦ false ]

-- The result under a verdict.
abbrev pub judged : WorkflowGoal → List TaskRecord → ValidationResponse → WorkflowResult
judged goal records validation = record {
  workflow_id = goal.workflow_id;
  goal = goal.goal;
  status = if validation.passed then WorkflowStatus.completed else WorkflowStatus.partial;
  records = records;
  verdict = some validation;
}

-- `pool` is the `ThreadPoolExecutor` and the collection of its futures: it runs the methods that it
-- is given on one state, in any interleaving.
module _ {S G : Type 0} (config : Config S G) (agents : Agents)
    (pool : List (Exec (State S G) TaskRecord) → Exec (State S G) (List TaskRecord)) where
  -- `_run_step`
  unfoldable pub run_step :
      (fuel : ℕ)
      → (workflow_id : String) → (prior_results : List TaskRecord) → PlanStep
      → Exec (State S G) TaskRecord
  run_step fuel workflow_id prior_results step = do
    submission ← lift (
        agents.work step.name
          (record { workflow_id = workflow_id; step = step; prior_results = prior_results }))
    run_submission config fuel (record submission { workflow_id = some workflow_id })

  abbrev pub each_step :
      (fuel : ℕ)
      → (workflow_id : String) → (prior_results : List TaskRecord) → List PlanStep
      → List (Exec (State S G) TaskRecord)
  each_step fuel workflow_id prior_results [] = []
  each_step fuel workflow_id prior_results (step ∷ steps) =
      run_step fuel workflow_id prior_results step ∷ each_step fuel workflow_id prior_results steps

  -- The records of one batch: one step runs by itself, and several in the pool.
  unfoldable pub run_batch :
      (fuel : ℕ)
      → (workflow_id : String) → (prior_results : List TaskRecord) → List PlanStep
      → Exec (State S G) (List TaskRecord)
  run_batch fuel workflow_id prior_results (step ∷ []) = do
    done_ ← run_step fuel workflow_id prior_results step
    pure (done_ ∷ [])
  run_batch fuel workflow_id prior_results steps =
      pool (each_step fuel workflow_id prior_results steps)

  -- The loop over the batches, with the records so far: all records, and whether a batch failed,
  -- which ends it.
  unfoldable pub run_batches :
      (fuel : ℕ)
      → (workflow_id : String) → (records : List TaskRecord) → List (List PlanStep)
      → Exec (State S G) (List TaskRecord × Bool)
  run_batches fuel workflow_id records [] = pure (records, false)
  run_batches fuel workflow_id records (batch ∷ rest) = do
    batch_records ← run_batch fuel workflow_id records batch
    if any is_failed batch_records
        then pure (records ++ batch_records, true)
        else run_batches fuel workflow_id (records ++ batch_records) rest

  -- What `run` returns after its loop.
  unfoldable pub conclude : WorkflowGoal → List TaskRecord × Bool → Exec (State S G) WorkflowResult
  conclude goal (records, true) = pure (record {
    workflow_id = goal.workflow_id;
    goal = goal.goal;
    status = WorkflowStatus.failed;
    records = records;
    verdict = none;
  })
  conclude goal (records, false) = do
    validation ← lift (
        agents.validate goal.goal
          (record { workflow_id = goal.workflow_id; goal = goal.goal; results = records }))
    pure (judged goal records validation)

  -- `WorkflowOrchestrator.run`
  unfoldable pub run : (fuel : ℕ) → WorkflowGoal → Exec (State S G) WorkflowResult
  run fuel goal = do
    steps ← lift (
        agents.plan goal.goal (record {
          workflow_id = goal.workflow_id;
          goal = goal.goal;
          capabilities = goal.capabilities;
        }))
    ended ← run_batches fuel goal.workflow_id [] (step_batches steps)
    conclude goal ended
