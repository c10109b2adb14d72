-- ===== src/Api/Cluster/Routes.antt =====
-- The routes of engine/api/cluster/routes.py that the registry answers. New ids and times are
-- arguments.

use Prim.Native.String.{String}
use Prim.Native.Char.{code}
use conductor_engine.Base.{
  ℕ, List, [], ◌∷◌, Option, none, some, Bool, true, ◌&&◌, ◌==◌, length, map, fstring, Assoc, insert,
  if◌then◌else◌,
}
use conductor_engine.Base.Parse.{quoted, is_empty}
use conductor_engine.Api.Http.{HttpError, Response, body, failed, crashed, and_on}
use conductor_engine.Api.Cluster.{
  EngineNode, EngineRegistry, register, deregister, get, heartbeat, select,
}

pub record EngineNodeResponse : Type 0 where
  pub engine_id : String
  pub name : String
  pub base_url : String
  pub tags : Assoc String
  pub capabilities : List String
  pub registered_at : String
  pub last_seen : String
  pub healthy : Bool

pub record EngineListResponse : Type 0 where
  pub items : List EngineNodeResponse
  pub total : ℕ

pub record RegisterEngineRequest : Type 0 where
  pub name : String
  pub base_url : String
  pub tags : Assoc String
  pub capabilities : List String

abbrev pub invalid_tag : String → HttpError
invalid_tag t = record {
  status_code = 400;
  code = "invalid_tag";
  message = fstring ("Tag must be key=value, got: " ∷ quoted t ∷ []);
}

abbrev pub not_registered : String → HttpError
not_registered engine_id = record {
  status_code = 404;
  code = "not_found";
  message = fstring ("Engine " ∷ quoted engine_id ∷ " is not registered" ∷ []);
}

-- `t.split("=", 1)`, if the text has an equals sign.
unfoldable pub split_once : String → Option (String × String)
split_once String.[] = none
split_once (String.◌∷◌ c s) =
    let rest = split_once s in
    if code c == 61
    then some ("", s)
    else elim rest [ none ↦ none | some (k, v) ↦ some (String.◌∷◌ c k, v) ]

abbrev pub put_tag : String → Option (String × String) → Assoc String → Response (Assoc String)
put_tag t none tag_filter = failed (invalid_tag t)
put_tag t (some (k, v)) tag_filter = body (insert k v tag_filter)

-- The loop over the `tag` parameters of a request.
unfoldable pub read_tags : List String → (tag_filter : Assoc String) → Response (Assoc String)
read_tags [] tag_filter = body tag_filter
read_tags (t ∷ rest) tag_filter = and_on (put_tag t (split_once t) tag_filter) (read_tags rest)

-- `tag_filter if tag_filter else None`
abbrev pub or_none : Assoc String → Option (Assoc String)
or_none [] = none
or_none (tag ∷ tags) = some (tag ∷ tags)

-- `s.rstrip("/")`
unfoldable pub rstrip_slash : String → String
rstrip_slash String.[] = ""
rstrip_slash (String.◌∷◌ c s) =
    let rest = rstrip_slash s in if code c == 47 && is_empty rest then "" else String.◌∷◌ c rest

-- `_get_node_or_404`
unfoldable pub get_node_or_404 : EngineRegistry → (engine_id : String) → Response EngineNode
get_node_or_404 registry engine_id = elim (get engine_id registry) [
  | none ↦ failed (not_registered engine_id)
  | some node ↦ body node
]

module _ (isoformat : ℕ → String) where
  -- `_node_to_response`
  unfoldable pub node_to_response : EngineNode → EngineNodeResponse
  node_to_response node = record {
    engine_id = node.engine_id;
    name = node.name;
    base_url = node.base_url;
    tags = node.tags;
    capabilities = node.capabilities;
    registered_at = isoformat node.registered_at;
    last_seen = isoformat node.last_seen;
    healthy = node.healthy;
  }

  -- `list_engines`; no `tag` parameter is the empty list of them.
  unfoldable pub list_engines : (tag : List String) → EngineRegistry → Response EngineListResponse
  list_engines tag registry = and_on (read_tags tag []) (λ tag_filter.
      let items = map node_to_response (select (or_none tag_filter) registry) in
      body (record { items = items; total = length items }))

  -- `register_engine`, with the new id and the two times that the clock gives.
  unfoldable pub register_engine :
      (uuid : String)
      → (registered_at last_seen : ℕ) → RegisterEngineRequest
      → EngineRegistry
      → Response EngineNodeResponse × EngineRegistry
  register_engine uuid registered_at last_seen b registry =
      let node : EngineNode = record {
        engine_id = uuid;
        name = b.name;
        base_url = rstrip_slash b.base_url;
        tags = b.tags;
        capabilities = b.capabilities;
        registered_at = registered_at;
        last_seen = last_seen;
        healthy = true;
      } in
      (body (node_to_response node), register node registry)

  -- `get_engine`
  unfoldable pub get_engine : (engine_id : String) → EngineRegistry → Response EngineNodeResponse
  get_engine engine_id registry =
      and_on (get_node_or_404 registry engine_id) (λ node. body (node_to_response node))

  -- `deregister_engine`
  unfoldable pub deregister_engine :
      (engine_id : String) → EngineRegistry → Response (Unit {0}) × EngineRegistry
  deregister_engine engine_id registry = elim (get_node_or_404 registry engine_id) [
    | body node ↦ (body tt, deregister engine_id registry)
    | failed e ↦ (failed e, registry)
    | crashed e ↦ (crashed e, registry)
  ]

  -- `engine_heartbeat`
  unfoldable pub engine_heartbeat :
      (now : ℕ)
      → (engine_id : String) → (healthy : Bool) → EngineRegistry
      → Response EngineNodeResponse × EngineRegistry
  engine_heartbeat now engine_id healthy registry =
      let (found, registry) = heartbeat now engine_id healthy registry in
      elim found [
        | none ↦ (failed (not_registered engine_id), registry)
        | some node ↦ (body (node_to_response node), registry)
      ]
