-- ===== src/Runtime/Policy/Risk.antt =====
-- The verdicts of the risk-level engine of engine/runtime/policy.py.
use conductor_engine.Base.{
  ◌≤◌, ◌≡◌, ◌≢◌, ◌↔◌, String, List, Option, none, some, Bool, true, false, refl, sym, ap, ltb, ◌∙◌,
  arith,
}
use conductor_engine.Interfaces.Task.{TaskRecord, RiskLevel}
use conductor_engine.Interfaces.Policy.{
  PolicyContext, PolicyDecisionType, allow, deny, require_approval,
}
use conductor_engine.Runtime.Policy.{
  risk_order, RiskLevelPolicyEngine, evaluate_risk, is_left_out, is_approval_level, member,
}

-- A name that is on the allowlist, if there is one.
abbrev pub Listed : String → Option (List String) → Type 0
Listed name none = Unit {0}
Listed name (some names) = member name names ≡ true

Listed-is_left_out :
    (name : String) (o : Option (List String)) → (is_left_out name o ≡ false) ↔ Listed name o
Listed-is_left_out name none = ((λ e. tt), (λ l. refl))
Listed-is_left_out name (some names) = ((λ e. ground arith), (λ l. ground arith))

-- The order of risks takes no two levels for one.
risk_order-one_to_one : (a b : RiskLevel) → risk_order a ≡ risk_order b → a ≡ b
unfolding risk_order
risk_order-one_to_one a b e = ground arith

is_approval_level-some :
    (r : RiskLevel) (o : Option RiskLevel) → (is_approval_level r o ≡ true) ↔ (o ≡ some r)
unfolding risk_order
is_approval_level-some r none = ((λ e. cc), (λ e. cc))
is_approval_level-some r (some level) =
    ((λ e. ap some (sym (risk_order-one_to_one r level (ground arith)))), (λ e. ground arith))

false-ne-true : ¬ (◌≡◌ {A = Bool} false true)
false-ne-true e = cc

-- The verdict, by the tests of the code.
verdict_of : (left_out approval above : Bool) → PolicyDecisionType
verdict_of true approval above = deny
verdict_of false true above = require_approval
verdict_of false false true = deny
verdict_of false false false = allow

evaluate_risk-verdict_of :
    (self : RiskLevelPolicyEngine) (task : TaskRecord) (context : PolicyContext)
    → (evaluate_risk self task context).decision
      ≡ verdict_of
          (is_left_out context.capability.name self.allowed_capabilities)
          (is_approval_level context.capability.risk_level self.require_approval_at)
          (ltb (risk_order self.deny_above) (risk_order context.capability.risk_level))
unfolding evaluate_risk verdict_of
evaluate_risk-verdict_of self task context = ground arith

verdict_of-allow :
    (l a b : Bool) → (verdict_of l a b ≡ allow) ↔ ((l ≡ false) × (a ≡ false) × (b ≡ false))
unfolding verdict_of
verdict_of-allow true a b = ((λ e. cc), (λ e. cc))
verdict_of-allow false true b = ((λ e. cc), (λ e. cc))
verdict_of-allow false false true = ((λ e. cc), (λ e. cc))
verdict_of-allow false false false = ((λ e. (refl, refl, refl)), (λ e. refl))

verdict_of-approval :
    (l a b : Bool) → (verdict_of l a b ≡ require_approval) ↔ ((l ≡ false) × (a ≡ true))
unfolding verdict_of
verdict_of-approval true a b = ((λ e. cc), (λ e. cc))
verdict_of-approval false true b = ((λ e. (refl, refl)), (λ e. refl))
verdict_of-approval false false true = ((λ e. cc), (λ e. cc))
verdict_of-approval false false false = ((λ e. cc), (λ e. cc))

false_of_not : (b : Bool) → ¬ (b ≡ true) → b ≡ false
false_of_not true h = absurd (h refl)
false_of_not false h = refl

-- The three verdicts of the engine on a capability, and nothing else decides: it is allowed
-- exactly if the allowlist does not exclude it, its risk is not the level at which approval is
-- required, and its risk is at most `deny_above`, which is itself allowed; and it needs approval
-- exactly if the allowlist does not exclude it and its risk is that level, be it above
-- `deny_above` or not.
pub evaluate_risk-threshold :
    (self : RiskLevelPolicyEngine) (task : TaskRecord) (context : PolicyContext)
    → let c = context.capability in
      let verdict = (evaluate_risk self task context).decision in
      ((verdict ≡ allow) ↔ (
        Listed c.name self.allowed_capabilities
        × (self.require_approval_at ≢ some c.risk_level)
        × (risk_order c.risk_level ≤ risk_order self.deny_above)))
      × ((verdict ≡ require_approval) ↔ (
          Listed c.name self.allowed_capabilities × (self.require_approval_at ≡ some c.risk_level)))
evaluate_risk-threshold self task context =
    let c = context.capability in
    let listed = Listed-is_left_out c.name self.allowed_capabilities in
    let level = is_approval_level-some c.risk_level self.require_approval_at in
    let allowing =
      verdict_of-allow (is_left_out c.name self.allowed_capabilities)
        (is_approval_level c.risk_level self.require_approval_at)
        (ltb (risk_order self.deny_above) (risk_order c.risk_level)) in
    let asking =
      verdict_of-approval (is_left_out c.name self.allowed_capabilities)
        (is_approval_level c.risk_level self.require_approval_at)
        (ltb (risk_order self.deny_above) (risk_order c.risk_level)) in
    rw evaluate_risk-verdict_of (
      (
        λ e.
            let (kept, free, within) = allowing.0 e in
            (listed.0 kept, (λ at. absurd (false-ne-true (sym free ∙ level.1 at))), ground arith),
        λ h. allowing.1 (listed.1 h.0, false_of_not _ (λ at. h.1 (level.0 at)), ground arith),
      ),
      (
        λ e. let (kept, at) = asking.0 e in (listed.0 kept, level.0 at),
        λ h. asking.1 (listed.1 h.0, level.1 h.1),
      ),
    )
