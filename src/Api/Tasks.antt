-- ===== src/Api/Tasks.antt =====
-- engine/api/routes/tasks.py, and the exception handlers of engine/api/app.py.
pub mod Refused
use Prim.Native.String.{String}
use Prim.Native.Char.{code}
use conductor_engine.Base.{
  ℕ, ◌+◌, List, [], ◌∷◌, Option, none, some, Bool, true, false, ◌&&◌, ◌||◌, ◌==◌, leb, str_eq,
  fstring, any, map, take, drop, length, insert, if◌then◌else◌,
}
use conductor_engine.Base.Exec.{Exn, Outcome, done, raised, out_of_fuel}
use conductor_engine.Base.Parse.{quoted}
use conductor_engine.Json.{Json, str}
use conductor_engine.Interfaces.Task.{TaskStatus, TaskSubmission, TaskRecord, status_value}
use conductor_engine.ControlPlane.Contracts.{TaskV1, task_from}
use conductor_engine.Supervisor.State.{Config, State}
use conductor_engine.Supervisor.Service
use conductor_engine.Api.Http.{HttpError, Response, body, failed, crashed}
use conductor_engine.Api.Auth.Middleware.{AuthContext}

pub record SubmitTaskRequest : Type 0 where
  pub name : String
  pub capability : String
  pub input : Json
  pub metadata : Json
  pub max_retries : ℕ
  pub workflow_id : Option String

pub record ApproveTaskRequest : Type 0 where
  pub actor : String
  pub run : Bool
  pub metadata : Json

pub record CancelTaskRequest : Type 0 where
  pub actor : String
  pub reason : Option String
  pub metadata : Json

pub record PageMeta : Type 0 where
  pub limit : Option ℕ
  pub offset : ℕ
  pub total : ℕ

pub record TaskPage : Type 0 where
  pub items : List TaskV1
  pub meta : PageMeta

-- The code of a character behind `str.lower`; only letters of ASCII become letters of ASCII that
-- the handlers look for.
abbrev pub lower_code : ℕ → ℕ
lower_code c = if leb 65 c && leb c 90 then c + 32 else c

-- Whether a text, in lower case, starts with another.
unfoldable pub begins : (needle s : String) → Bool
begins String.[] s = true
begins (String.◌∷◌ c needle) String.[] = false
begins (String.◌∷◌ c needle) (String.◌∷◌ d s) = code c == lower_code (code d) && begins needle s

-- `needle in s.lower()`
unfoldable pub occurs : (needle s : String) → Bool
occurs needle String.[] = begins needle ""
occurs needle (String.◌∷◌ c s) = begins needle (String.◌∷◌ c s) || occurs needle s

-- `404 if "not found" in msg.lower() else 400`
abbrev pub not_found_status : String → ℕ
not_found_status msg = if occurs "not found" msg then 404 else 400

abbrev pub http : ℕ → String → String → HttpError
http status_code code message = record { status_code = status_code; code = code; message = message }

-- `body.actor or auth.actor`
abbrev pub actor_of : String → AuthContext → String
actor_of actor auth = if str_eq actor "" then auth.actor else actor

-- The statuses that `TaskStatus(status)` knows.
abbrev pub statuses : List TaskStatus
statuses =
    TaskStatus.pending ∷ TaskStatus.running ∷ TaskStatus.completed ∷ TaskStatus.failed
    ∷ TaskStatus.awaiting_approval ∷ TaskStatus.approved ∷ TaskStatus.policy_denied
    ∷ TaskStatus.cancelled ∷ TaskStatus.escalated ∷ []

abbrev pub is_known : Option String → Bool
is_known none = true
is_known (some s) = any (λ t. str_eq (status_value t) s) statuses

abbrev pub invalid_status : Option String → HttpError
invalid_status none = http 400 "invalid_status" "Unknown status: None"
invalid_status (some s) = http 400 "invalid_status" (fstring ("Unknown status: " ∷ quoted s ∷ []))

abbrev pub page_of : Option ℕ → ℕ → List TaskRecord → List TaskRecord
page_of none offset tasks = drop offset tasks
page_of (some n) offset tasks = take n (drop offset tasks)

-- `TaskSubmission(…)` of a request and its caller.
unfoldable pub submission_from : SubmitTaskRequest → AuthContext → TaskSubmission
submission_from b auth = record {
  name = b.name;
  capability = b.capability;
  input = b.input;
  metadata = insert "submitted_by" (str auth.actor) b.metadata;
  max_retries = b.max_retries;
  workflow_id = b.workflow_id;
}

-- `isinstance(exc, cls)` is a parameter, on the names of the classes.
module _ (is_subclass : String → String → Bool) where
  abbrev pub is_a : Exn → String → Bool
  is_a e cls = is_subclass e.error_type cls

  -- The exception handlers of the application, for what a route lets through.
  unfoldable pub handled : Exn → Response TaskV1
  handled e =
      if is_a e "ValueError"
      then failed (http (not_found_status e.message) "invalid_request" e.message)
      else if is_a e "KeyError"
      then failed (http 404 "not_found" e.message)
      else crashed e

  -- The `except` clauses of `submit_task`.
  unfoldable pub submit_failed : Exn → Response TaskV1
  submit_failed e =
      if is_a e "ValueError"
      then failed (http 400 "submit_failed" e.message)
      else if is_a e "KeyError"
      then failed (http 400 "submit_failed" e.message)
      else if is_a e "QueueFull"
      then failed (http 429 "queue_full" e.message)
      else handled e

  -- Those of `run_task_inline`.
  unfoldable pub run_failed : Exn → Response TaskV1
  run_failed e =
      if is_a e "ValueError" || is_a e "KeyError"
      then failed (http 400 "submit_failed" e.message)
      else handled e

  -- Those of `get_task`, with the message of the route, and of `run_queued_task`, with the
  -- exception's.
  unfoldable pub missing_as : (message : String) → Exn → Response TaskV1
  missing_as message e =
      if is_a e "ValueError" then failed (http 404 "not_found" message) else handled e

  -- Those of `approve_task` and `cancel_task`.
  unfoldable pub decision_failed : (code : String) → Exn → Response TaskV1
  decision_failed code e =
      if is_a e "ValueError"
      then failed (http (not_found_status e.message) code e.message)
      else handled e

  -- What a route makes of the outcome of a method of the supervisor.
  abbrev pub answer :
      {S : Type 0}
      → (Exn → Response TaskV1)
      → Outcome TaskRecord × S
      → Outcome (Response TaskV1) × S
  answer except_ (done task, s) = (done (body (task_from task)), s)
  answer except_ (raised e, s) = (done (except_ e), s)
  answer except_ (out_of_fuel, s) = (out_of_fuel, s)

  module _ {S G : Type 0} (config : Config S G) where
    abbrev pub Route : Type 0
    Route = State S G → Outcome (Response TaskV1) × State S G

    -- `list_tasks`, of a limit and an offset that the query allows.
    unfoldable pub list_tasks :
        (status : Option String) → (limit : Option ℕ) → (offset : ℕ) → State S G → Response TaskPage
    list_tasks status limit offset s =
        let all_tasks = Service.list_tasks config none 0 status s in
        if is_known status
        then body (record {
          items = map task_from (page_of limit offset all_tasks);
          meta = record { limit = limit; offset = offset; total = length all_tasks };
        })
        else failed (invalid_status status)

    -- `submit_task`
    unfoldable pub submit_task : SubmitTaskRequest → AuthContext → Route
    submit_task b auth s = answer submit_failed (Service.submit config (submission_from b auth) s)

    -- `run_task_inline`
    unfoldable pub run_task_inline : (fuel : ℕ) → SubmitTaskRequest → AuthContext → Route
    run_task_inline fuel b auth s =
        answer run_failed (Service.run_submission config fuel (submission_from b auth) s)

    -- `get_task`
    unfoldable pub get_task : (task_id : String) → Route
    get_task task_id s =
        answer (missing_as (fstring ("Task " ∷ quoted task_id ∷ " not found" ∷ [])))
          (Service.get_task config task_id s)

    -- `run_queued_task`
    unfoldable pub run_queued_task : (fuel : ℕ) → (task_id : String) → Route
    run_queued_task fuel task_id s =
        answer (λ e. missing_as e.message e) (Service.run_task config fuel task_id s)

    -- `approve_task`
    unfoldable pub approve_task :
        (fuel : ℕ) → (task_id : String) → ApproveTaskRequest → AuthContext → Route
    approve_task fuel task_id b auth s =
        answer (decision_failed "approve_failed")
          (Service.approve_task config fuel task_id (actor_of b.actor auth) b.metadata b.run s)

    -- `cancel_task`
    unfoldable pub cancel_task : (task_id : String) → CancelTaskRequest → AuthContext → Route
    cancel_task task_id b auth s =
        answer (decision_failed "cancel_failed")
          (Service.cancel_task config task_id (actor_of b.actor auth) b.reason b.metadata s)
