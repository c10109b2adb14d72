-- ===== src/Api/Cluster/Selection.antt =====
-- What `EngineRegistry` of engine/api/cluster/registry.py promises to the routes.
use conductor_engine.Base.{
  ℕ, String, ◌≡◌, refl, ◌∙◌, List, [], ◌∷◌, Option, none, some, Bool, ◌&&◌, keep, arith, str_eq,
  ltb, Assoc, lookup, values, eq_iff, lookup-insert, lookup-erase, if◌then◌else◌,
}
use conductor_engine.Base.Ranked.{IsDescending, sorted-IsDescending, count, count-sorted}
use conductor_engine.Api.Cluster.{
  EngineNode, EngineRegistry, matches_tags, register, deregister, get, heartbeat, beat, beaten,
  narrowed, select,
}

-- The constraints that a caller asks for; none if it gives none.
abbrev pub required : Option (Assoc String) → Assoc String
required none = []
required (some tags) = tags

-- A node that a caller may be given: it is healthy and has every tag asked for.
abbrev pub is_eligible : Option (Assoc String) → EngineNode → Bool
is_eligible tags n = n.healthy && matches_tags n (required tags)

count-healthy :
    (p : EngineNode → Bool) (l : List EngineNode)
    → count p (keep (λ n. n.healthy) l) ≡ count (λ n. p n && is_eligible none n) l
unfolding matches_tags
count-healthy p [] = refl
count-healthy p (n ∷ rest) = ground (arith, count-healthy p rest)

count-tagged :
    (p : EngineNode → Bool) (tags : Assoc String) (l : List EngineNode)
    → count p (keep (λ n. matches_tags n tags) (keep (λ n. n.healthy) l))
      ≡ count (λ n. p n && is_eligible (some tags) n) l
count-tagged p tags [] = refl
count-tagged p tags (n ∷ rest) = ground (arith, count-tagged p tags rest)

count-narrowed :
    (p : EngineNode → Bool) (tags : Option (Assoc String)) (l : List EngineNode)
    → count p (narrowed tags (keep (λ n. n.healthy) l)) ≡ count (λ n. p n && is_eligible tags n) l
count-narrowed p none l = count-healthy p l
count-narrowed p (some []) l = unfold matches_tags in count-healthy p l
count-narrowed p (some (tag ∷ tags)) l = count-tagged p (tag ∷ tags) l

-- `select` returns each registered node that is healthy and has all the tags asked for as often as
-- it is registered, and no other node: among the nodes with any property there are as many. The
-- nodes that were seen last come first.
pub select_lem :
    (tags : Option (Assoc String)) (self : EngineRegistry) (p : EngineNode → Bool)
    → (count p (select tags self) ≡ count (λ n. p n && is_eligible tags n) (values self.nodes))
      × IsDescending (λ n. n.last_seen) (select tags self)
unfolding select
select_lem tags self p =
    let found = narrowed tags (keep (λ n. n.healthy) (values self.nodes)) in
    (
      count-sorted (λ a b. ltb b.last_seen a.last_seen) p found
          ∙ count-narrowed p tags (values self.nodes),
      sorted-IsDescending (λ n. n.last_seen) found,
    )

-- What a node becomes by a heartbeat, if it is registered.
abbrev pub beaten_if : (now : ℕ) → (healthy : Bool) → Option EngineNode → Option EngineNode
beaten_if now healthy none = none
beaten_if now healthy (some node) = some (beaten now healthy node)

get-beat :
    (now : ℕ) (id x : String) (healthy : Bool) (self : EngineRegistry) (found : Option EngineNode)
    → lookup id self.nodes ≡ found
    → (get x (beat now id healthy found self).1
        ≡ (if str_eq id x then beaten_if now healthy found else get x self))
      × ((beat now id healthy found self).0 ≡ beaten_if now healthy found)
unfolding get beat
get-beat now id x healthy self none e = (ground (arith, eq_iff id x), refl)
get-beat now id x healthy self (some node) e =
    (lookup-insert id x (beaten now healthy node) self.nodes, refl)

-- The registry is a map from ids to nodes: a node is found under its id as it was registered last,
-- and not after it was removed; a heartbeat returns the node and changes only its time and its
-- health, and it registers nothing; no operation touches the nodes of other ids.
pub registry_lem :
    (node : EngineNode) (id x : String) (now : ℕ) (healthy : Bool) (self : EngineRegistry)
    → (get x (register node self) ≡ (if str_eq node.engine_id x then some node else get x self))
      × (get x (deregister id self) ≡ (if str_eq id x then none else get x self))
      × (get x (heartbeat now id healthy self).1
          ≡ (if str_eq id x then beaten_if now healthy (get id self) else get x self))
      × ((heartbeat now id healthy self).0 ≡ beaten_if now healthy (get id self))
unfolding get register deregister heartbeat
registry_lem node id x now healthy self =
    let found = lookup id self.nodes in
    let beats = get-beat now id x healthy self found refl in
    (lookup-insert node.engine_id x node self.nodes, lookup-erase id x self.nodes, beats.0, beats.1)
