-- ===== src/Runtime/Policy/Allowed.antt =====
-- The default-deny engine of engine/runtime/policy.py under `add_capability` and
-- `remove_capability`.
use conductor_engine.Base.{
  String, ◌≡◌, refl, List, [], ◌∷◌, ◌++◌, arith, true, false, if◌then◌else◌, str_eq, eq_iff,
}
use conductor_engine.Interfaces.Task.{TaskRecord}
use conductor_engine.Interfaces.Policy.{PolicyContext, allow, deny}
use conductor_engine.Runtime.Policy.{
  member, AllowedSet, evaluate_allowed, add_capability, remove_capability,
}

member-append :
    (k name : String) (names : List String)
    → member k (names ++ name ∷ []) ≡ (if str_eq name k then true else member k names)
unfolding member
member-append k name [] = refl
member-append k name (n ∷ names) = ground (arith, member-append k name names)

member-add_capability :
    (k name : String) (names : AllowedSet)
    → member k (add_capability name names) ≡ (if str_eq name k then true else member k names)
unfolding add_capability
member-add_capability k name names = ground (arith, member-append k name names, eq_iff name k)

member-remove_capability :
    (k name : String) (names : AllowedSet)
    → member k (remove_capability name names) ≡ (if str_eq name k then false else member k names)
unfolding remove_capability member
member-remove_capability k name [] = ground arith
member-remove_capability k name (n ∷ names) =
    ground (arith, member-remove_capability k name names, eq_iff name k, eq_iff n k, eq_iff n name)

-- After a name is added, the engine allows every task of the capability of that name; after it is
-- removed, it denies them; and in both cases it decides of each other capability what it did
-- before.
pub evaluate_allowed-update :
    (name : String) (names : AllowedSet) (task : TaskRecord) (context : PolicyContext)
    → let asked = str_eq name context.capability.name in
      ((evaluate_allowed (add_capability name names) task context).decision
        ≡ (if asked then allow else (evaluate_allowed names task context).decision))
      × ((evaluate_allowed (remove_capability name names) task context).decision
          ≡ (if asked then deny else (evaluate_allowed names task context).decision))
unfolding evaluate_allowed
evaluate_allowed-update name names task context =
    let k = context.capability.name in
    (
      ground (arith, member-add_capability k name names),
      ground (arith, member-remove_capability k name names),
    )
