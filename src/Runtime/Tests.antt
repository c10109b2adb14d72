-- ===== src/Runtime/Tests.antt =====
-- The theorems about engine/runtime applied to small queues, lists, strategies and engines.
use conductor_engine.Base.{
  ℕ, zero, suc, ◌+◌, ◌*◌, ltb, if◌then◌else◌, leb→le, ◌≤◌, ◌<◌, String, List, length, str_eq, ◌&&◌,
  ◌≡◌, ◌≢◌, ◌↔◌, refl, [], ◌∷◌, ◌++◌, none, some, arith, true, false, take, leb, show,
}
use conductor_engine.Base.Exec.{Result, ok, err, done}
use conductor_engine.Json.{Value, object, boolean, field, end}
use conductor_engine.Interfaces.Task.{TaskStatus, TaskRecord, low, medium, high}
use conductor_engine.Interfaces.Retry.{FailureContext}
use conductor_engine.Interfaces.Policy.{
  CapabilityDescriptor, PolicyContext, allow, deny, require_approval,
}
use conductor_engine.Runtime.Queue.{TaskQueue, enqueue, dequeue}
use conductor_engine.Runtime.Queue.Fifo.{IsWithin, enqueue_all, dequeue_all, fifo, queue-IsWithin}
use conductor_engine.Runtime.Store.{filter_records}
use conductor_engine.Runtime.Store.Pages.{is_asked, filter_records-pages}
use conductor_engine.Base.Ranked.{count}
use conductor_engine.Runtime.Retry.{
  Floats, Backoff, backoff, DefaultRetryStrategy, decide_default, InputAdjustingRetryStrategy,
  decide_adjusting, decide_exponential, decide_jittered,
}
use conductor_engine.Runtime.Retry.Bounds.{IsLimited, Judged, wrapped, decide-IsLimited}
use conductor_engine.Runtime.Retry.Delays.{IsOrdered, Delay, decide_exponential-Delay}
use conductor_engine.Runtime.Policy.{
  RiskLevelPolicyEngine, evaluate_risk, evaluate_allowed, add_capability, remove_capability,
  risk_order,
}
use conductor_engine.Runtime.Policy.Allowed.{evaluate_allowed-update}
use conductor_engine.Runtime.Policy.Risk.{Listed, evaluate_risk-threshold}
use conductor_engine.Runtime.Policy.Opa.{
  OpaPolicyEngine, Httpx, evaluate_opa, query_url, build_payload,
}
use conductor_engine.Runtime.Policy.Opa.Closed.{Allows, evaluate_opa-Allows}

abbrev two_slots : TaskQueue
two_slots = record { items = "a" ∷ []; max_size = some 3 }

fifo_example :
    ((enqueue_all ("b" ∷ "c" ∷ []) two_slots).0 ≡ done tt)
    × (dequeue_all 2 (enqueue_all ("b" ∷ "c" ∷ []) two_slots).1 ≡ take 2 ("a" ∷ "b" ∷ "c" ∷ []))
fifo_example = fifo two_slots ("b" ∷ "c" ∷ []) 2 (λ n e. ground arith)

queue-IsWithin_example : IsWithin (enqueue "b" two_slots).1 × IsWithin (dequeue two_slots).1
queue-IsWithin_example = queue-IsWithin two_slots "b" (omega arith)

abbrev task : String → TaskRecord
task id = record {
  task_id = id;
  name = "a task";
  capability = "echo";
  input = [];
  metadata = [];
  status = TaskStatus.pending;
  result = none;
  attempt = 1;
  max_retries = 3;
  workflow_id = none;
  archived_at = none;
  audit_trail = [];
  created_at = 0;
  updated_at = 0;
}

abbrev three : List TaskRecord
three = task "a" ∷ task "b" ∷ task "c" ∷ []

filter_records-pages_example :
    (length (filter_records (some 1) 1 (some "pending") three) ≤ 1)
    × (filter_records (some 1) 0 (some "pending") three
          ++ (filter_records (some 1) 1 (some "pending") three
              ++ filter_records none 2 (some "pending") three)
        ≡ filter_records none 0 (some "pending") three)
    × (count (λ r. str_eq r.task_id "b") (filter_records none 0 (some "pending") three)
        ≡ count (λ r. is_asked (some "pending") r && str_eq r.task_id "b") three)
filter_records-pages_example =
    filter_records-pages (λ r. str_eq r.task_id "b") 1 1 (some "pending") three

-- The power `m ** n`.
abbrev power : ℕ → ℕ → ℕ
power m zero = 1
power m (suc n) = m * power m n

abbrev one_less : ℕ → ℕ
one_less zero = 0
one_less (suc n) = n

-- Whole seconds below 1000; a power beyond raises.
abbrev in_range : ℕ → Result ℕ
in_range p =
    if ltb p 1000
    then ok p
    else err
        (record { error_type = "OverflowError"; message = "(34, 'Numerical result out of range')" })

abbrev whole : Floats
whole = record {
  Float = ℕ;
  zero_ = 0;
  one = 1;
  times = λ a b. a * b;
  plus = λ a b. a + b;
  growth = λ m n. in_range (power m (one_less n));
  at_most = leb;
  micros = λ a. a;
  two_places = show;
  three_places = show;
}

abbrev timed : Backoff whole
timed = record {
  base_delay = 1;
  multiplier = 2;
  max_delay = 5;
  enable_escalation = true;
  escalation_threshold = none;
}

abbrev failure : ℕ → FailureContext
failure n = record {
  task_id = "a";
  capability = "echo";
  attempt = n;
  max_retries = 3;
  error_type = "ValueError";
  error_message = "no answer";
  input_fingerprint = none;
  metadata = [];
}

abbrev plain : DefaultRetryStrategy
plain = record { enable_escalation = true; escalation_threshold = some 4 }

abbrev adjusting : InputAdjustingRetryStrategy
adjusting = record {
  adjuster = λ f. some [];
  base = some (decide_exponential whole timed);
  enable_escalation = false;
  escalation_threshold = none;
}

decide-IsLimited_example :
    IsLimited (failure 4) (decide_default plain (task "a") (failure 4))
    × Judged
        (wrapped adjusting.base (task "a") (failure 4))
        (failure 4)
        (decide_adjusting adjusting (task "a") (failure 4))
    × Judged (whole.growth 2 4) (failure 4) (decide_exponential whole timed (task "a") (failure 4))
    × Judged (whole.growth 2 4) (failure 4) (decide_jittered whole timed 1 (task "a") (failure 4))
decide-IsLimited_example = decide-IsLimited whole plain adjusting timed 1 (task "a") (failure 4)

mul_mono : (c a b : ℕ) → a ≤ b → c * a ≤ c * b
mul_mono zero a b le = omega arith
mul_mono (suc c) a b le = omega (arith, mul_mono c a b le)

le→leb : (a b : ℕ) → a ≤ b → leb a b ≡ true
le→leb a b le = ground arith

power_pos : (m n : ℕ) → 1 ≤ m → 1 ≤ power m n
power_pos m zero le = omega arith
power_pos m (suc n) le = omega (arith, mul_mono m 1 (power m n) (power_pos m n le))

power_grows : (m n : ℕ) → 1 ≤ m → power m n ≤ power m (suc n)
power_grows zero n le = elim le [ ]
power_grows (suc m) n le = grind arith

in_range-ok : (p a : ℕ) → in_range p ≡ ok a → (p ≡ a) × (p < 1000)
in_range-ok p a e = (ground arith, ground arith)

in_range_lem : (p : ℕ) → p < 1000 → in_range p ≡ ok p
in_range_lem p lt = ground arith

whole-IsOrdered : IsOrdered whole
whole-IsOrdered = record {
  total = λ a b e. ground arith;
  times-mono = λ c a b p o e. le→leb (c * a) (c * b) (mul_mono c a b (leb→le a b e));
  growth-one = λ m a n e f.
      let (same, _) = in_range-ok (power m n) a f in
      le→leb 1 a (omega (arith, power_pos m n (leb→le 1 m e), same));
  growth-mono = λ m b n e f.
      let (same, lt) = in_range-ok (power m (suc n)) b f in
      let le = power_grows m n (leb→le 1 m e) in
      (
        power m n,
        in_range_lem (power m n) (omega arith),
        le→leb (power m n) b (omega (arith, same, le)),
      );
  micros-mono = λ a b e. ground arith;
}

decide_exponential-Delay_example :
    Delay
      (decide_exponential whole timed (task "a") (failure 2))
      (λ d. Delay (decide_exponential whole timed (task "a") (failure 3)) (λ e. (d ≤ e) × (e ≤ 5)))
unfolding backoff
decide_exponential-Delay_example =
    decide_exponential-Delay whole whole-IsOrdered timed (task "a") (failure 2) (failure 3) 1 4 refl
      refl refl (omega arith) (omega arith) refl

abbrev echo : CapabilityDescriptor
echo = record {
  name = "echo";
  description = "";
  risk_level = low;
  tags = [];
  require_approval = false;
}

abbrev shell : CapabilityDescriptor
shell = record echo { name = "shell"; risk_level = medium }

abbrev asked : CapabilityDescriptor → PolicyContext
asked c = record { capability = c; workdir = "/srv" }

evaluate_allowed-update_example :
    ((evaluate_allowed (add_capability "echo" []) (task "a") (asked echo)).decision ≡ allow)
    × ((evaluate_allowed (remove_capability "echo" []) (task "a") (asked echo)).decision ≡ deny)
evaluate_allowed-update_example = evaluate_allowed-update "echo" [] (task "a") (asked echo)

abbrev up_to_high : RiskLevelPolicyEngine
up_to_high = record {
  deny_above = high;
  require_approval_at = some high;
  allowed_capabilities = some ("echo" ∷ "shell" ∷ []);
}

evaluate_risk-threshold_example :
    (((evaluate_risk up_to_high (task "a") (asked shell)).decision ≡ allow) ↔ (
      Listed "shell" up_to_high.allowed_capabilities
      × (up_to_high.require_approval_at ≢ some medium)
      × (risk_order medium ≤ risk_order high)))
    × (((evaluate_risk up_to_high (task "a") (asked shell)).decision ≡ require_approval) ↔ (
        Listed "shell" up_to_high.allowed_capabilities
        × (up_to_high.require_approval_at ≡ some medium)))
evaluate_risk-threshold_example = evaluate_risk-threshold up_to_high (task "a") (asked shell)

abbrev opa : OpaPolicyEngine
opa = record {
  url = "http://localhost:8181";
  policy_path = "conductor/authz";
  timeout_seconds = 5;
  fail_open = false;
  headers = [];
}

abbrev body : Value
body = object (field "result" (object (field "allow" (boolean true) end)) end)

abbrev server : Httpx
server = record { post = λ u p h t. ok body; get = λ u t. ok 200; reason_error = λ v. "" }

evaluate_opa-Allows_example :
    (answer : Value) × (server.post
        (query_url opa)
        (build_payload (task "a") (asked echo))
        opa.headers
        5
      ≡ ok answer)
    × Allows answer
unfolding evaluate_opa
evaluate_opa-Allows_example = evaluate_opa-Allows server opa (task "a") (asked echo) refl refl
