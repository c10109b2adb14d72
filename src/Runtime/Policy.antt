-- ===== src/Runtime/Policy.antt =====
-- engine/runtime/policy.py: the policy engines that need no server. A set of capability names is
-- the list of its members.
pub mod Opa
pub mod Allowed
pub mod Risk
use conductor_engine.Base.{
  ℕ, String, List, [], ◌∷◌, Option, none, some, Bool, true, false, not, ◌++◌, keep, str_lt, ltb,
  ◌==◌, if◌then◌else◌, fstring, str_eq, Assoc, sorted,
}
use conductor_engine.Json.{Value, str, Json}
use conductor_engine.Interfaces.Task.{
  TaskRecord, RiskLevel, low, medium, high, critical, risk_value,
}
use conductor_engine.Interfaces.Policy.{
  CapabilityDescriptor, PolicyContext, PolicyDecision, PolicyDecisionType, allow, deny,
  require_approval, PolicyEngine,
}

-- `name in names`
unfoldable pub member : String → List String → Bool
member name [] = false
member name (n ∷ names) = if str_eq n name then true else member name names

abbrev pub decided : PolicyDecisionType → Option String → Json → PolicyDecision
decided d reason metadata = record { decision = d; reason = reason; metadata = metadata }

-- `', '.join(names)`
unfoldable pub join : List String → String
join [] = ""
join (n ∷ []) = n
join (n ∷ m ∷ names) = fstring (n ∷ ", " ∷ join (m ∷ names) ∷ [])

-- `or '(none)'`
abbrev or_none : String → String
or_none text = if str_eq text "" then "(none)" else text

-- `DenyByDefaultPolicy`: `allowed_capabilities`.
abbrev pub AllowedSet : Type 0
AllowedSet = List String

unfoldable pub evaluate_allowed : AllowedSet → TaskRecord → PolicyContext → PolicyDecision
unfolding member join
evaluate_allowed names task context =
    let name = context.capability.name in
    if member name names
    then decided allow (some (fstring ("Capability '" ∷ name ∷ "' is in the allowed set" ∷ []))) []
    else decided deny
        (some (
          fstring (
            "Capability '"
            ∷ name
            ∷ "' is not in the allowed set. Allowed: "
            ∷ or_none (join (sorted str_lt names))
            ∷ [])))
        []

unfoldable pub health_check_allowed : AllowedSet → List String
health_check_allowed [] =
    "deny-default: no capabilities are allowed — every task will be denied" ∷ []
health_check_allowed (n ∷ names) = []

unfoldable pub add_capability : String → AllowedSet → AllowedSet
add_capability name names = if member name names then names else names ++ name ∷ []

unfoldable pub remove_capability : String → AllowedSet → AllowedSet
remove_capability name names = keep (λ n. not (str_eq n name)) names

-- `NullPolicyEngine`
abbrev pub evaluate_null : TaskRecord → PolicyContext → PolicyDecision
evaluate_null task context = decided allow none []

-- `_RISK_ORDER`
unfoldable pub risk_order : RiskLevel → ℕ
risk_order low = 0
risk_order medium = 1
risk_order high = 2
risk_order critical = 3

abbrev pub same_risk : RiskLevel → RiskLevel → Bool
unfolding risk_order
same_risk a b = risk_order a == risk_order b

pub record RiskLevelPolicyEngine : Type 0 where
  pub deny_above : RiskLevel
  pub require_approval_at : Option RiskLevel
  pub allowed_capabilities : Option (List String)

-- `allowed_capabilities is not None and name not in allowed_capabilities`
abbrev pub is_left_out : String → Option (List String) → Bool
is_left_out name none = false
is_left_out name (some names) = not (member name names)

-- `require_approval_at is not None and cap_risk == require_approval_at`
abbrev pub is_approval_level : RiskLevel → Option RiskLevel → Bool
is_approval_level risk none = false
is_approval_level risk (some level) = same_risk risk level

unfoldable pub evaluate_risk : RiskLevelPolicyEngine → TaskRecord → PolicyContext → PolicyDecision
unfolding risk_value risk_order
evaluate_risk self task context =
    let name = context.capability.name in
    let cap_risk = context.capability.risk_level in
    if is_left_out name self.allowed_capabilities
    then decided deny (some (fstring ("Capability '" ∷ name ∷ "' is not in the allowed set" ∷ [])))
        (("capability", str name) ∷ ("policy", str "allowlist") ∷ [])
    else if is_approval_level cap_risk self.require_approval_at
    then decided require_approval
        (some (
          fstring (
            "Capability '"
            ∷ name
            ∷ "' requires approval at risk level '"
            ∷ risk_value cap_risk
            ∷ "'"
            ∷ [])))
        (("risk_level", str (risk_value cap_risk)) ∷ ("policy", str "risk_threshold") ∷ [])
    else if ltb (risk_order self.deny_above) (risk_order cap_risk)
    then decided deny
        (some (
          fstring (
            "Capability '"
            ∷ name
            ∷ "' risk level '"
            ∷ risk_value cap_risk
            ∷ "' exceeds permitted maximum '"
            ∷ risk_value self.deny_above
            ∷ "'"
            ∷ [])))
        (("risk_level", str (risk_value cap_risk))
          ∷ ("deny_above", str (risk_value self.deny_above))
          ∷ ("policy", str "risk_threshold")
          ∷ [])
    else decided allow none []
