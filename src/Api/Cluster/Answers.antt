-- ===== src/Api/Cluster/Answers.antt =====
-- What the routes of engine/api/cluster/routes.py answer.
use Prim.Native.String.{String, ◌++◌ as str_append}
use text.Mathlib.TextLemmas.{cons-append, nil-append}
use mathlib.Core.Path.{subst}
use conductor_engine.Base.{
  ℕ, ◌≡◌, refl, List, [], ◌∷◌, Option, some, Bool, true, false, ◌&&◌, ◌||◌, ◌∙◌, sym, ap, ◌⊎◌, not,
  all, arith, ◌==◌, map, length, leb, Assoc, insert, values, inl, inr,
}
use conductor_engine.Base.Ranked.{count, IsDescending}
use conductor_engine.Base.Exec.{Exn}
use conductor_engine.Base.Parse.Pieces.{free}
use conductor_engine.Json.{Value}
use conductor_engine.Api.Http.{Response, body, failed}
use conductor_engine.Api.Cluster.{EngineNode, EngineRegistry, select}
use conductor_engine.Api.Cluster.Selection.{select_lem, is_eligible}
use conductor_engine.Api.Cluster.Routes.{
  split_once, read_tags, or_none, list_engines, node_to_response,
}
use conductor_engine.Api.Cluster.Proxies.{
  Call, Reply, SubmitToEngineRequest, run_task_auto_route, to_first, no_engines, routed, run_on,
}

-- A tag as a caller writes it.
abbrev pub written : String × String → String
written (k, v) = str_append k (String.◌∷◌ "=" v)

abbrev is_equals : ℕ → Bool
is_equals c = c == 61

split_once-written :
    (k v : String) → free is_equals k ≡ true → split_once (written (k, v)) ≡ some (k, v)
unfolding split_once free
split_once-written String.[] v h = rw nil-append refl
split_once-written (String.◌∷◌ c k) v h =
    rw cons-append (rw (split_once-written k v (ground arith)) (ground arith))

-- No name of a tag holds an equals sign.
abbrev pub named : List (String × String) → Bool
named l = all (λ tag. free is_equals tag.0) l

-- The dictionary of some tags: the last of a name counts.
abbrev pub dict : List (String × String) → Assoc String → Assoc String
dict [] d = d
dict ((k, v) ∷ rest) d = dict rest (insert k v d)

read_tags-written :
    (l : List (String × String)) (d : Assoc String)
    → named l ≡ true
    → read_tags (map written l) d ≡ body (dict l d)
unfolding read_tags
read_tags-written [] d h = refl
read_tags-written ((k, v) ∷ rest) d h =
    rw (split_once-written k v (ground arith))
      (read_tags-written rest (insert k v d) (ground arith))

-- `list_engines` reads back the tags that a caller writes as `key=value`, where no key holds an
-- equals sign, although values may: it answers with what `select` returns for the dictionary of
-- these tags, or for no constraint if there are none.
pub list_engines-written :
    (isoformat : ℕ → String) (l : List (String × String)) (registry : EngineRegistry)
    → named l ≡ true
    → list_engines isoformat (map written l) registry
      ≡ body (record {
        items = map (node_to_response isoformat) (select (or_none (dict l [])) registry);
        total = length (map (node_to_response isoformat) (select (or_none (dict l [])) registry));
      })
unfolding list_engines
list_engines-written isoformat l registry h = rw (read_tags-written l [] h) refl

-- The best node for some tags: it is one of the registered nodes, so that it has what all of them
-- have; it is healthy and has the tags; and no registered node that is so was seen later.
pub record IsBest (tags : Option (Assoc String)) (registry : EngineRegistry) (node : EngineNode)
    : Type 0 where
  pub registered : (q : EngineNode → Bool) → all q (values registry.nodes) ≡ true → q node ≡ true
  pub eligible : is_eligible tags node ≡ true
  pub latest :
      all (λ n. not (is_eligible tags n) || leb n.last_seen node.last_seen) (values registry.nodes)
      ≡ true

all-count :
    (q : EngineNode → Bool) (l : List EngineNode) → all q l ≡ (count (λ n. not (q n)) l == 0)
all-count q [] = refl
all-count q (n ∷ rest) = ground (arith, all-count q rest)

all-count_if :
    (q p : EngineNode → Bool) (l : List EngineNode)
    → all (λ n. not (p n) || q n) l ≡ (count (λ n. not (q n) && p n) l == 0)
all-count_if q p [] = refl
all-count_if q p (n ∷ rest) = ground (arith, all-count_if q p rest)

-- What holds of all nodes selected is what holds of all eligible ones.
all-select :
    (q : EngineNode → Bool) (tags : Option (Assoc String)) (registry : EngineRegistry)
    → all q (select tags registry)
      ≡ all (λ n. not (is_eligible tags n) || q n) (values registry.nodes)
all-select q tags registry =
    let same = (select_lem tags registry (λ n. not (q n))).0 in
    all-count q (select tags registry)
    ∙ ap (λ k. k == 0) same
    ∙ sym (all-count_if q (is_eligible tags) (values registry.nodes))

all-always : (p : EngineNode → Bool) (l : List EngineNode) → all (λ n. not (p n) || p n) l ≡ true
all-always p [] = refl
all-always p (n ∷ rest) = ground (arith, all-always p rest)

all-if :
    (p q : EngineNode → Bool) (l : List EngineNode)
    → all q l ≡ true
    → all (λ n. not (p n) || q n) l ≡ true
all-if p q [] h = refl
all-if p q (n ∷ rest) h = ground (arith, all-if p q rest)

first :
    (q : EngineNode → Bool) (tags : Option (Assoc String)) (registry : EngineRegistry)
    (node : EngineNode) (rest : List EngineNode)
    → select tags registry ≡ node ∷ rest
    → all (λ n. not (is_eligible tags n) || q n) (values registry.nodes) ≡ true
    → q node ≡ true
first q tags registry node rest e h =
    let held : all q (node ∷ rest) ≡ true = sym (ap (all q) e) ∙ all-select q tags registry ∙ h in
    ground (arith, held)

best :
    (tags : Option (Assoc String)) (registry : EngineRegistry) (node : EngineNode)
    (rest : List EngineNode)
    → select tags registry ≡ node ∷ rest
    → IsBest tags registry node
best tags registry node rest e = record {
  registered = λ q h.
      first q tags registry node rest e (all-if (is_eligible tags) q (values registry.nodes) h);
  eligible =
      first (is_eligible tags) tags registry node rest e
        (all-always (is_eligible tags) (values registry.nodes));
  latest =
      let ranked : IsDescending (λ (n : EngineNode). n.last_seen) (node ∷ rest) =
        subst (IsDescending (λ n. n.last_seen)) e (select_lem tags registry (λ n. true)).1 in
      let held : all (λ (n : EngineNode). leb n.last_seen node.last_seen) (node ∷ rest) ≡ true =
        ground (arith, ranked.0) in
      sym (all-select (λ n. leb n.last_seen node.last_seen) tags registry)
      ∙ ap (all (λ n. leb n.last_seen node.last_seen)) e
      ∙ held;
}

no-eligible :
    (p : EngineNode → Bool) (l : List EngineNode)
    → all (λ n. not (p n) || false) l ≡ true
    → all (λ n. not (p n)) l ≡ true
no-eligible p [] h = refl
no-eligible p (n ∷ rest) h = ground (arith, no-eligible p rest)

module _ (send : Call → Reply) (type_error : Value → Exn) (tags_repr : Assoc String → String)
    (b : SubmitToEngineRequest) (registry : EngineRegistry) where
  -- What an answer of the route comes from: the best node, or that there is none.
  abbrev pub IsRouted : Response Value → Type 0
  IsRouted answer =
      ((node : EngineNode) × IsBest (or_none b.engine_tags) registry node
        × (answer ≡ routed send type_error node (run_on send node b)))
      ⊎ ((all (λ n. not (is_eligible (or_none b.engine_tags) n)) (values registry.nodes) ≡ true)
          × (answer ≡ failed (no_engines send tags_repr b.engine_tags)))

  to_first-IsRouted :
      (found : List EngineNode)
      → select (or_none b.engine_tags) registry ≡ found
      → IsRouted (to_first send type_error tags_repr b found)
  unfolding to_first
  to_first-IsRouted [] e =
      let unmatched =
        sym (all-select (λ n. false) (or_none b.engine_tags) registry) ∙ ap (all (λ n. false)) e in
      inr
        (no-eligible (is_eligible (or_none b.engine_tags)) (values registry.nodes) unmatched, refl)
  to_first-IsRouted (node ∷ rest) e = inl (node, best _ registry node rest e, refl)

  -- `run_task_auto_route` sends the task to a node that is the best for the tags of the request,
  -- and answers what comes of that; it answers `no_available_engines` only if no registered node
  -- is healthy and has the tags.
  pub run_task_auto_route-IsBest :
      IsRouted (run_task_auto_route send type_error tags_repr b registry)
  unfolding run_task_auto_route
  run_task_auto_route-IsBest = to_first-IsRouted _ refl
