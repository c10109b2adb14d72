-- ===== src/Supervisor/Samples.antt =====
-- A small supervisor over a `MemoryTaskStore`, with tasks, submissions and states.
use conductor_engine.Base.{String, [], ◌∷◌, none, some, Bool, true, false, Assoc, fstring, show}
use conductor_engine.Base.Exec.{ok, err, value_error}
use conductor_engine.Json.{null}
use conductor_engine.Interfaces.Task.{TaskStatus, TaskRecord, TaskSubmission, low}
use conductor_engine.Interfaces.Policy.{
  Capability, CapabilityDescriptor, PolicyEngine, PolicyDecision, allow, deny,
}
use conductor_engine.Registry.{CapabilityRegistry}
use conductor_engine.Runtime.Queue.{TaskQueue, in_memory}
use conductor_engine.Runtime.Store.Law.{memory_store}
use conductor_engine.Runtime.Retry.{DefaultRetryStrategy, decide_default}
use conductor_engine.Supervisor.State.{Environment, Config, State}

abbrev pub env : Environment
env = record {
  wall = λ n. n;
  lag = λ n. 1;
  uuid4 = λ n. fstring ("task-" ∷ show n ∷ []);
  fingerprint = λ i. "0123456789abcdef";
  two_places = show;
  bus_raises = λ e. false;
}

-- A capability that fails, and one that echoes its input but wants approval.
abbrev pub descriptor : String → Bool → CapabilityDescriptor
descriptor name closed = record {
  name = name;
  description = "";
  risk_level = low;
  tags = [];
  require_approval = closed;
}

abbrev pub flaky : Capability
flaky = record {
  descriptor = descriptor "flaky" false;
  validate_input = ok;
  execute = λ i c n. record { duration = 5; outcome = err (value_error "no answer") };
}

abbrev pub guarded : Capability
guarded = record {
  descriptor = descriptor "guarded" true;
  validate_input = ok;
  execute =
      λ i c n. record { duration = 5; outcome = ok (record { output = null; metadata = [] }) };
}

abbrev pub registry : CapabilityRegistry
registry = record {
  capabilities = ("flaky", flaky) ∷ ("guarded", guarded) ∷ [];
  execution_controls = [];
}

abbrev pub retries : DefaultRetryStrategy
retries = record { enable_escalation = false; escalation_threshold = none }

abbrev pub config_with : PolicyEngine → Config (Assoc TaskRecord) (Unit {0})
config_with policy = record {
  registry = registry;
  store = memory_store;
  policy = policy;
  retry_strategy = decide_default retries;
  escalation_policy = none;
  guild_knowledge = none;
  peer_suggestions = none;
  workdir = "/srv";
  env = env;
}

abbrev pub decision : PolicyDecision
decision = record { decision = deny; reason = none; metadata = [] }

abbrev pub open_policy : PolicyEngine
open_policy = record {
  class_name = "NullPolicyEngine";
  evaluate = λ t c. ok (record { decision = allow; reason = none; metadata = [] });
}

abbrev pub closed_policy : PolicyEngine
closed_policy = record { class_name = "DenyAll"; evaluate = λ t c. ok decision }

abbrev pub config : Config (Assoc TaskRecord) (Unit {0})
config = config_with open_policy

abbrev pub task : String → TaskRecord
task name = record {
  task_id = "t";
  name = "a task";
  capability = name;
  input = [];
  metadata = [];
  status = TaskStatus.pending;
  result = none;
  attempt = 0;
  max_retries = 2;
  workflow_id = none;
  archived_at = none;
  audit_trail = [];
  created_at = 0;
  updated_at = 0;
}

abbrev pub submission : String → TaskSubmission
submission name = record {
  name = "a task";
  capability = name;
  input = [];
  metadata = [];
  max_retries = 2;
  workflow_id = none;
}

abbrev pub state : Assoc TaskRecord → TaskQueue → State (Assoc TaskRecord) (Unit {0})
state tasks queue = record {
  tasks = tasks;
  queue = queue;
  guild = tt;
  last_start = ("flaky", 3) ∷ [];
  events = [];
  reads = 0;
  ids = 0;
  runs = 0;
  monotonic = 4;
}

abbrev pub fresh : State (Assoc TaskRecord) (Unit {0})
fresh = state [] in_memory

abbrev pub holding : String → State (Assoc TaskRecord) (Unit {0})
holding name = state (("t", task name) ∷ []) in_memory

-- The queue is full.
abbrev pub crowded : State (Assoc TaskRecord) (Unit {0})
crowded = state [] (record { items = "t" ∷ []; max_size = some 1 })
