-- ===== src/Runtime/Policy/Opa.antt =====
-- The engine of engine/runtime/policy.py that asks an OPA server, and the input that it sends, of
-- engine/interfaces/policy.py. `httpx` is a parameter: what a request returns or raises.
pub mod Closed
use conductor_engine.Base.{
  ℕ, String, List, [], ◌∷◌, Option, none, some, Bool, true, false, not, ◌&&◌, if◌then◌else◌, ◌==◌,
  fstring, show, str_eq, Assoc,
}
use conductor_engine.Base.Exec.{Exn, Result, ok, err, and_then}
use conductor_engine.Json.{
  Value, null, boolean, int, tenths, str, time, array, object, Items, nil, cons, Fields, end, field,
  Json, fields, strings, opt_str,
}
use conductor_engine.Interfaces.Task.{TaskRecord, risk_value}
use conductor_engine.Interfaces.Policy.{
  CapabilityDescriptor, PolicyContext, PolicyDecision, PolicyDecisionType, allow, deny,
  require_approval,
}
use conductor_engine.Runtime.Policy.{decided}

-- `url` and `policy_path` are those of `__init__`, without the slashes that it strips.
pub record OpaPolicyEngine : Type 0 where
  pub url : String
  pub policy_path : String
  pub timeout_seconds : ℕ
  pub fail_open : Bool
  pub headers : Assoc String

-- `response.json()` after `raise_for_status()` of a POST, the status code of a GET, and pydantic's
-- message for a reason of the wrong type.
pub record Httpx : Type 0 where
  pub post : String → Json → Assoc String → ℕ → Result Value
  pub get : String → ℕ → Result ℕ
  pub reason_error : Value → String

unfoldable pub dump_descriptor : CapabilityDescriptor → Json
dump_descriptor c =
    ("name", str c.name)
    ∷ ("description", str c.description)
    ∷ ("risk_level", str (risk_value c.risk_level))
    ∷ ("tags", array (strings c.tags))
    ∷ ("require_approval", boolean c.require_approval)
    ∷ []

-- `OPAInput.from_context(task, context).model_dump()`
unfoldable pub from_context : TaskRecord → PolicyContext → Json
unfolding dump_descriptor
from_context task context =
    (
      "task",
      object (
          fields (
            ("id", str task.task_id)
            ∷ ("name", str task.name)
            ∷ ("capability", str task.capability)
            ∷ ("input", object (fields task.input))
            ∷ ("max_retries", int task.max_retries)
            ∷ ("workflow_id", opt_str task.workflow_id)
            ∷ [])),
    )
    ∷ ("capability", object (fields (dump_descriptor context.capability)))
    ∷ ("workdir", str context.workdir)
    ∷ []

unfoldable pub query_url : OpaPolicyEngine → String
query_url self = fstring (self.url ∷ "/v1/data/" ∷ self.policy_path ∷ [])

unfoldable pub build_payload : TaskRecord → PolicyContext → Json
unfolding from_context
build_payload task context = ("input", object (fields (from_context task context))) ∷ []

-- Python's truth of a value.
unfoldable pub truthy : Value → Bool
truthy null = false
truthy (boolean b) = b
truthy (int n) = not (n == 0)
truthy (tenths n) = not (n == 0)
truthy (str s) = not (str_eq s "")
truthy (time t) = true
truthy (array nil) = false
truthy (array (cons v vs)) = true
truthy (object end) = false
truthy (object (field k v fs)) = true

-- `d.get(key)`, where a missing key is None.
unfoldable pub get_field : String → Fields → Value
get_field key end = null
get_field key (field k v fs) = if str_eq k key then v else get_field key fs

type_name : Value → String
type_name null = "NoneType"
type_name (boolean b) = "bool"
type_name (int n) = "int"
type_name (tenths n) = "float"
type_name (str s) = "str"
type_name (time t) = "datetime.datetime"
type_name (array vs) = "list"
type_name (object fs) = "dict"

unfoldable pub no_get : Value → Exn
unfolding type_name
no_get v = record {
  error_type = "AttributeError";
  message = fstring ("'" ∷ type_name v ∷ "' object has no attribute 'get'" ∷ []);
}

-- What `.get` is called on must be a dictionary.
unfoldable pub as_dict : Value → Result Fields
as_dict (object fs) = ok fs
as_dict v = err (no_get v)

-- `data.get("result") or {}`
unfoldable pub result_of : Value → Result Fields
unfolding as_dict truthy get_field
result_of body =
    and_then (as_dict body)
      (λ fs. let v = get_field "result" fs in if truthy v then as_dict v else ok end)

-- pydantic takes a reason that is a text or None.
unfoldable pub reason_field : Httpx → Value → Result (Option String)
reason_field httpx null = ok none
reason_field httpx (str s) = ok (some s)
reason_field httpx v =
    err (record { error_type = "ValidationError"; message = httpx.reason_error v })

-- `reason or "OPA policy denied the request"`
unfoldable pub denied_reason : Value → Value
unfolding truthy
denied_reason v = if truthy v then v else str "OPA policy denied the request"

-- Which of the three decisions a result asks for, and the reason that goes with it.
unfoldable pub verdict : Fields → PolicyDecisionType × Value
unfolding get_field truthy denied_reason
verdict result =
    let reason = get_field "reason" result in
    if truthy (get_field "require_approval" result)
    then (require_approval, reason)
    else if truthy (get_field "allow" result)
    then (allow, reason)
    else (deny, denied_reason reason)

-- `_map_response`
unfoldable pub map_response : Httpx → Value → Result PolicyDecision
unfolding result_of verdict reason_field
map_response httpx body = and_then (result_of body) (λ result.
    and_then (reason_field httpx (verdict result).1)
      (λ reason. ok (decided (verdict result).0 reason (("opa_result", object result) ∷ []))))

abbrev pub unreachable : Bool → Exn → PolicyDecision
unreachable true e =
    decided allow (some (fstring ("OPA unreachable (fail-open): " ∷ e.message ∷ [])))
      (("opa_error", str e.message) ∷ ("fail_open", boolean true) ∷ [])
unreachable false e =
    decided deny (some (fstring ("OPA unreachable (fail-closed): " ∷ e.message ∷ [])))
      (("opa_error", str e.message) ∷ ("fail_open", boolean false) ∷ [])

-- The request and the mapping of its response, inside the `try`.
unfoldable pub ask : Httpx → OpaPolicyEngine → TaskRecord → PolicyContext → Result PolicyDecision
unfolding query_url build_payload map_response
ask httpx self task context =
    and_then
      (httpx.post (query_url self) (build_payload task context) self.headers self.timeout_seconds)
      (map_response httpx)

abbrev pub caught : Bool → Result PolicyDecision → PolicyDecision
caught fail_open (ok decision) = decision
caught fail_open (err e) = unreachable fail_open e

unfoldable pub evaluate_opa : Httpx → OpaPolicyEngine → TaskRecord → PolicyContext → PolicyDecision
unfolding ask
evaluate_opa httpx self task context = caught self.fail_open (ask httpx self task context)

-- `self.url!r` of a url without quotes or control characters.
unfoldable pub health_check_opa : Httpx → OpaPolicyEngine → List String
health_check_opa httpx self =
    elim (httpx.get (fstring (self.url ∷ "/health" ∷ [])) self.timeout_seconds) [
      | ok code ↦
          if code == 200
          then []
          else fstring ("opa: health endpoint returned " ∷ show code ∷ []) ∷ []
      | err e ↦ fstring ("opa: cannot reach server at '" ∷ self.url ∷ "': " ∷ e.message ∷ []) ∷ []
    ]
