-- ===== src/Lib.antt =====
-- The verification library of Conductor Engine, a runtime that takes tasks, has them authorised,
-- and runs the capabilities that they name.
--
-- The parts and how they interact. A task is submitted to the supervisor (engine/supervisor),
-- which validates it (engine/guardrails) against the registry of capabilities (engine/registry),
-- saves it in a store and puts its id in a queue (engine/runtime). When the task is run, the
-- supervisor asks the approval flag of the capability and the policy engine, takes the suggestions
-- of the guild (engine/guild), waits for the execution window, and runs the capability until it
-- succeeds, the retry strategy gives up, or the escalation policy steps in. Every change of status
-- is appended to the audit trail of the record, saved and emitted as an event. A workflow
-- (engine/workflow) has its plan run through the supervisor, batch by batch. A scheduler polls
-- adapters, cron schedules and webhooks, and submits what they emit to the supervisor. The HTTP
-- API authenticates its callers by keys, streams the events to subscribers, and routes tasks to
-- the engines of a fleet.
--
-- Which file models what:
-- - Base: Boolean tests, lists, texts, dictionaries as lists of keys and values, sorting, and the
--   monad `Exec` of methods that change a state and may raise; Base/Post and Base/Ends are its
--   partial and its total correctness; Base/Parse reads texts, and Base/Ranked is about sorting by
--   a measure, and Base/Groups about grouping.
-- - Json: the values of `dict[str, Any]`.
-- - Interfaces: engine/interfaces (Task, Retry, Policy, Event, Trigger), the `TaskStore` protocol
--   of engine/runtime/store.py with its law (Store), and engine/guild/interface.py (Guild).
-- - Registry, Guardrails: engine/registry/capabilities.py and engine/guardrails/validation.py.
-- - Runtime/Queue, Runtime/Store, Runtime/Retry, Runtime/Escalation, Runtime/Policy: the files of
--   those names in engine/runtime; Runtime/Policy/Opa is `OPAPolicyEngine`.
-- - Supervisor: engine/supervisor/service.py. State has the arguments of `TaskSupervisor` and what
--   its methods change; Record has `_append_audit`, `_save_task`, `_emit_event`,
--   `_transition_status`, `_do_escalate`; Gate has what `run_task` does before it executes;
--   Execution has its `while True`; Service has the public methods. Lifecycle is the
--   specification: the state machine of a task and the audit trails that are runs of it. Steps,
--   Soundness, Termination, Authority, Refusals and Window hold the proofs.
-- - Guild: the memory store, the knowledge base, the peer suggestions and the meeting of
--   engine/guild; the supervisor takes the knowledge base and the suggestions by the interfaces of
--   Interfaces/Guild, and Guild/Knowledge fills the first.
-- - Workflow: engine/workflow, with the records of engine/interfaces/workflow.py.
-- - Scheduler: engine/runtime/scheduler.py. Cron has `CronSchedule`, Triggers the two adapters and
--   `WebhookIngressService`, Service has `TriggerSchedulerService` with the supervisor as its
--   sink, and Runner has `TriggerSchedulerLoopRunner`.
-- - Api: engine/api. Cluster is engine/api/cluster/registry.py and Cluster/Routes and
--   Cluster/Proxies its routes.py; Auth/Entry and Auth/Store are engine/api/auth/store.py, and
--   Auth/Middleware has `AuthMiddleware` of engine/api/app.py and `AuthContext` of
--   engine/api/dependencies.py; Bus is engine/api/bus.py; Tasks is engine/api/routes/tasks.py with
--   the exception handlers of engine/api/app.py; Http has what a handler comes to.
-- - ControlPlane: engine/control_plane/contracts.py, with the snapshot in ControlPlane/Snapshot.
--
-- Conventions. A method of the source is a function of the state that returns the state behind it,
-- also when it raises. Times and delays are natural numbers of microseconds, and confidences are
-- tenths; integers such as attempts, limits and offsets are natural numbers, so negative ones are
-- not modelled. The clocks, uuids, the hash of an input, the formats of floats, the event bus,
-- `httpx`, the thread pool and the arithmetic of floats, with the range of their powers, are
-- parameters, and so are the capabilities: the outcome of a run may depend on the number of runs
-- before it, and a run takes a finite time. A store is the interface `TaskStore`, whose law says
-- that a saved record is read back; JSON is taken to give back the record that was dumped. A task
-- that a method holds is the copy that the store gave it. A datetime is given in UTC; its calendar
-- and its ISO format are parameters. `isdigit` knows the digits of ASCII, and `repr` texts without
-- quotes, backslashes and control characters. The stop signal and the random numbers of the loop
-- are functions of how often they were asked. SHA-256 and the remote engines are parameters; the
-- members of a key in the key file have the types that the store writes, and the time of a file is
-- a number.
--
-- Fuel. `while True` of `run_task` has fuel for its turns. Each turn that ends in a retry adds one
-- to the attempts of the task, so a strategy that does not retry beyond `max_retries` needs no
-- more than `max_retries + 1` turns. The outer loop of `_step_batches` has as many turns as there
-- are steps, since each takes one. The loop of the scheduler has fuel for its turns: with a limit
-- of n cycles, n + 1 turns are enough, and with a stop signal that is set the kth time it is
-- asked, k + 1.
--
-- Not modelled: threads and locks (the supervisor runs one method at a time, and of a soft timeout
-- only the outcome is modelled), the SQLite and Postgres stores and the files and locks of the
-- others, the health checks that ask the file system, the guild's file store, the wiring of the
-- HTTP API and its routes for workflows, events, health, triggers and capabilities, the memory
-- providers, the sandbox, the concrete capabilities and the command line. The supervisor is given
-- a retry strategy and peer suggestions that do not raise; a backoff is such a strategy only below
-- the attempt at which its power overflows.
pub mod Base
pub mod Json
pub mod Interfaces
pub mod Registry
pub mod Guardrails
pub mod Runtime
pub mod Supervisor
pub mod Workflow
pub mod Guild
pub mod ControlPlane
pub mod Scheduler
pub mod Api
