-- ===== src/Runtime/Policy/Opa/Closed.antt =====
-- When the OPA engine of engine/runtime/policy.py lets a task through.
use conductor_engine.Base.{◌≡◌, refl, arith, true, false, ◌∙◌, ap}
use mathlib.Core.Path.{subst}
use conductor_engine.Base.Exec.{Result, ok, err, and_then-ok}
use conductor_engine.Json.{Value, Fields}
use conductor_engine.Interfaces.Task.{TaskRecord}
use conductor_engine.Interfaces.Policy.{PolicyContext, PolicyDecision, allow}
use conductor_engine.Runtime.Policy.Opa.{
  OpaPolicyEngine, Httpx, truthy, get_field, result_of, reason_field, verdict, map_response,
  query_url, build_payload, ask, evaluate_opa, caught,
}

-- A response that says so: its result has a true `allow`, and no true `require_approval`.
abbrev pub Allows : Value → Type 0
Allows body =
    (result : Fields) × (result_of body ≡ ok result)
    × (truthy (get_field "allow" result) ≡ true)
    × (truthy (get_field "require_approval" result) ≡ false)

verdict-allow :
    (result : Fields)
    → (verdict result).0 ≡ allow
    → (truthy (get_field "allow" result) ≡ true)
      × (truthy (get_field "require_approval" result) ≡ false)
unfolding verdict
verdict-allow result e = (ground arith, ground arith)

map_response-Allows :
    (httpx : Httpx) (body : Value) (decision : PolicyDecision)
    → map_response httpx body ≡ ok decision
    → decision.decision ≡ allow
    → Allows body
unfolding map_response
map_response-Allows httpx body decision e same =
    let (result, found, rest) = and_then-ok (result_of body) _ decision e in
    let (reason, _, last) = and_then-ok (reason_field httpx (verdict result).1) _ decision rest in
    let (allows, waits) = verdict-allow result (ap (λ r. (caught false r).decision) last ∙ same) in
    (result, found, allows, waits)

caught-closed :
    (r : Result PolicyDecision)
    → (caught false r).decision ≡ allow
    → (decision : PolicyDecision) × (r ≡ ok decision) × (decision.decision ≡ allow)
caught-closed (ok decision) e = (decision, refl, e)
caught-closed (err x) e = cc

-- An engine that is not `fail_open` allows a task only if the server answered the request with a
-- result that has a true `allow` and no true `require_approval`: a request or a response that
-- raises denies it.
pub evaluate_opa-Allows :
    (httpx : Httpx) (self : OpaPolicyEngine) (task : TaskRecord) (context : PolicyContext)
    → self.fail_open ≡ false
    → (evaluate_opa httpx self task context).decision ≡ allow
    → (body : Value) × (httpx.post
          (query_url self)
          (build_payload task context)
          self.headers
          self.timeout_seconds
        ≡ ok body)
      × Allows body
unfolding evaluate_opa ask
evaluate_opa-Allows httpx self task context closed e =
    let (decision, answered, same) =
      caught-closed (ask httpx self task context)
        (subst (λ b. (caught b (ask httpx self task context)).decision ≡ allow) closed e) in
    let (body, posted, mapped) =
      and_then-ok (httpx.post _ _ _ _) (map_response httpx) decision answered in
    (body, posted, map_response-Allows httpx body decision mapped same)
