-- ===== src/Registry.antt =====
-- engine/registry/capabilities.py: the capabilities by name, and their execution controls.
use conductor_engine.Base.{
  String, List, [], ◌++◌, map, sorted, str_lt, str_eq, ◌∷◌, Option, none, some, fstring, Assoc,
  lookup, insert, has_key, if◌then◌else◌,
}
use conductor_engine.Base.Exec.{Result, ok, err, value_error, key_error}
use conductor_engine.Interfaces.Policy.{
  Capability, CapabilityDescriptor, CapabilityExecutionControls,
}

pub record CapabilityRegistry : Type 0 where
  pub capabilities : Assoc Capability
  pub execution_controls : Assoc CapabilityExecutionControls

abbrev pub empty : CapabilityRegistry
empty = record { capabilities = []; execution_controls = [] }

abbrev pub not_registered : String → String
not_registered name = fstring ("Capability '" ∷ name ∷ "' is not registered" ∷ [])

-- The assignment to the controls under `if execution_controls is not None`.
abbrev with_controls :
    String
    → Option CapabilityExecutionControls
    → Assoc CapabilityExecutionControls
    → Assoc CapabilityExecutionControls
with_controls name none m = m
with_controls name (some c) m = insert name c m

unfoldable pub register :
    Capability
    → Option CapabilityExecutionControls
    → CapabilityRegistry
    → Result (Unit {0}) × CapabilityRegistry
register capability controls r =
    let name = capability.descriptor.name in
    if has_key name r.capabilities
    then (err (value_error (fstring ("Capability '" ∷ name ∷ "' is already registered" ∷ []))), r)
    else (
      ok tt,
      record {
        capabilities = insert name capability r.capabilities;
        execution_controls = with_controls name controls r.execution_controls;
      },
    )

unfoldable pub get : String → CapabilityRegistry → Result Capability
get name r = elim (lookup name r.capabilities) [
  | none ↦ err (key_error (not_registered name))
  | some capability ↦ ok capability
]

unfoldable pub set_execution_controls :
    String
    → CapabilityExecutionControls
    → CapabilityRegistry
    → Result (Unit {0}) × CapabilityRegistry
set_execution_controls name controls r =
    if has_key name r.capabilities
    then (ok tt, record r { execution_controls = insert name controls r.execution_controls })
    else (err (value_error (not_registered name)), r)

abbrev pub no_controls : CapabilityExecutionControls
no_controls = record { timeout_seconds = none; min_interval_seconds = none }

unfoldable pub execution_controls : String → CapabilityRegistry → Result CapabilityExecutionControls
execution_controls name r =
    if has_key name r.capabilities
    then (elim (lookup name r.execution_controls) [ none ↦ ok no_controls | some c ↦ ok c ])
    else err (key_error (not_registered name))

-- `sorted(self._capabilities)`, with what is stored under each name.
abbrev pub by_name {ℓ} : {V : Type ℓ} → Assoc V → Assoc V
by_name m = sorted (λ a b. str_lt a.0 b.0) m

abbrev pub list : CapabilityRegistry → List CapabilityDescriptor
list r = map (λ c. c.1.descriptor) (by_name r.capabilities)

abbrev pub names : CapabilityRegistry → List String
names r = map (λ d. d.name) (list r)

abbrev pub mismatched : Assoc Capability → List String
mismatched [] = []
mismatched ((name, c) ∷ rest) =
    if str_eq c.descriptor.name name
    then mismatched rest
    else fstring (
        "capability registry key mismatch: stored as '" ∷ name ∷ "' but descriptor reports '"
        ∷ c.descriptor.name ∷ "'" ∷ [])
      ∷ mismatched rest

abbrev pub unknown : CapabilityRegistry → Assoc CapabilityExecutionControls → List String
unknown r [] = []
unknown r ((name, c) ∷ rest) =
    if has_key name r.capabilities
    then unknown r rest
    else fstring ("execution controls configured for unknown capability '" ∷ name ∷ "'" ∷ [])
      ∷ unknown r rest

abbrev pub when_empty : Assoc Capability → List String
when_empty [] = "capability registry has no registered capabilities" ∷ []
when_empty (c ∷ rest) = []

unfoldable pub health_check : CapabilityRegistry → List String
health_check r =
    when_empty r.capabilities
    ++ mismatched (by_name r.capabilities)
    ++ unknown r (by_name r.execution_controls)
