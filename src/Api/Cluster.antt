-- ===== src/Api/Cluster.antt =====
-- engine/api/cluster/registry.py: `EngineNode` and `EngineRegistry`. Each method holds the lock
-- while it reads and writes the dictionary of nodes, so calls follow one another.

pub mod Selection
pub mod Routes
pub mod Proxies
pub mod Answers
use conductor_engine.Base.{
  ℕ, String, List, [], ◌∷◌, Option, none, some, Bool, true, false, all, any, keep, ltb, str_eq,
  str_lt, ◌==◌, Assoc, lookup, insert, erase, values, sorted, if◌then◌else◌,
}

pub record EngineNode : Type 0 where
  pub engine_id : String
  pub name : String
  pub base_url : String
  pub tags : Assoc String
  pub capabilities : List String
  pub registered_at : ℕ
  pub last_seen : ℕ
  pub healthy : Bool

abbrev pub is_value : String → Option String → Bool
is_value v none = false
is_value v (some w) = str_eq w v

-- `matches_tags`
unfoldable pub matches_tags : EngineNode → (required : Assoc String) → Bool
matches_tags self required = all (λ pair. is_value pair.1 (lookup pair.0 self.tags)) required

-- `has_capability`
unfoldable pub has_capability : EngineNode → (name : String) → Bool
has_capability self name = any (λ c. str_eq c name) self.capabilities

pub record EngineRegistry : Type 0 where
  pub nodes : Assoc EngineNode

-- `register`
unfoldable pub register : EngineNode → EngineRegistry → EngineRegistry
register node self = record { nodes = insert node.engine_id node self.nodes }

-- `deregister`
unfoldable pub deregister : (engine_id : String) → EngineRegistry → EngineRegistry
deregister engine_id self = record { nodes = erase engine_id self.nodes }

-- `get`
unfoldable pub get : (engine_id : String) → EngineRegistry → Option EngineNode
get engine_id self = lookup engine_id self.nodes

-- `list`
unfoldable pub list : EngineRegistry → List EngineNode
list self = sorted (λ a b. str_lt a.name b.name) (values self.nodes)

abbrev pub beaten : (now : ℕ) → (healthy : Bool) → EngineNode → EngineNode
beaten now healthy node = record node { last_seen = now; healthy = healthy }

-- What a heartbeat does with the node that it finds.
unfoldable pub beat :
    (now : ℕ)
    → (engine_id : String) → (healthy : Bool) → Option EngineNode
    → EngineRegistry
    → Option EngineNode × EngineRegistry
beat now engine_id healthy none self = (none, self)
beat now engine_id healthy (some node) self =
    let node = beaten now healthy node in
    (some node, record { nodes = insert engine_id node self.nodes })

-- `heartbeat`, at a time `now`.
unfoldable pub heartbeat :
    (now : ℕ)
    → (engine_id : String) → (healthy : Bool) → EngineRegistry
    → Option EngineNode × EngineRegistry
heartbeat now engine_id healthy self = beat now engine_id healthy (lookup engine_id self.nodes) self

-- `if tags:`
abbrev pub narrowed : Option (Assoc String) → List EngineNode → List EngineNode
narrowed none nodes = nodes
narrowed (some []) nodes = nodes
narrowed (some (tag ∷ tags)) nodes = keep (λ n. matches_tags n (tag ∷ tags)) nodes

-- `select`
unfoldable pub select : (tags : Option (Assoc String)) → EngineRegistry → List EngineNode
select tags self =
    sorted (λ a b. ltb b.last_seen a.last_seen)
      (narrowed tags (keep (λ n. n.healthy) (values self.nodes)))
