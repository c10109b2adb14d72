-- ===== src/Api/Cluster/Proxies.antt =====
-- The proxies of engine/api/cluster/routes.py: the routes that pass a request on to a remote
-- engine, which is reached over HTTP and is a parameter.
use Prim.Native.String.{String}
use conductor_engine.Base.{
  ℕ, List, [], ◌∷◌, Option, none, some, fstring, str_eq, Assoc, if◌then◌else◌,
}
use conductor_engine.Base.Exec.{Exn}
use conductor_engine.Base.Parse.{quoted}
use conductor_engine.Json.{Json, Value, Fields, end, field, str, int, object, fields, opt_str}
use conductor_engine.Api.Http.{HttpError, Response, body, failed, crashed, and_on}
use conductor_engine.Api.Cluster.{EngineNode, EngineRegistry, select}
use conductor_engine.Api.Cluster.Routes.{or_none, get_node_or_404}

pub record SubmitToEngineRequest : Type 0 where
  pub name : String
  pub capability : String
  pub input : Json
  pub metadata : Json
  pub max_retries : ℕ
  pub workflow_id : Option String
  pub engine_tags : Assoc String

-- `body.model_dump(exclude={"engine_tags"})`
unfoldable pub submission_of : SubmitToEngineRequest → Json
submission_of b =
    ("name", str b.name)
    ∷ ("capability", str b.capability)
    ∷ ("input", object (fields b.input))
    ∷ ("metadata", object (fields b.metadata))
    ∷ ("max_retries", int b.max_retries)
    ∷ ("workflow_id", opt_str b.workflow_id)
    ∷ []

-- What a proxied call comes to: the JSON of a response with a good status, an `httpx.HTTPError`
-- with its text, or another exception.
pub data Reply : Type 0 where
  json : Value → Reply
  http_error : String → Reply
  other_error : Exn → Reply

-- A call of the client: the method, the URL and the JSON sent.
pub data Call : Type 0 where
  get_url : (url : String) → Call
  post_url : (url : String) → Json → Call

abbrev pub proxy_error : List String → HttpError
proxy_error parts = record { status_code = 502; code = "proxy_error"; message = fstring parts }

module _ (send : Call → Reply) where
  -- What the proxies make of a reply.
  abbrev pub answered : (error : String → HttpError) → Reply → Response Value
  answered error (json v) = body v
  answered error (http_error e) = failed (error e)
  answered error (other_error e) = crashed e

  abbrev pub not_reached : (engine_id : String) → (e : String) → HttpError
  not_reached engine_id e =
      proxy_error ("Could not reach engine " ∷ quoted engine_id ∷ ": " ∷ e ∷ [])

  -- `get_engine_health`
  unfoldable pub get_engine_health : (engine_id : String) → EngineRegistry → Response Value
  get_engine_health engine_id registry = and_on (get_node_or_404 registry engine_id) (λ node.
      answered (not_reached engine_id)
        (send (get_url (fstring (node.base_url ∷ "/v1/health" ∷ [])))))

  -- `get_engine_snapshot`
  unfoldable pub get_engine_snapshot : (engine_id : String) → EngineRegistry → Response Value
  get_engine_snapshot engine_id registry = and_on (get_node_or_404 registry engine_id) (λ node.
      answered (not_reached engine_id)
        (send (get_url (fstring (node.base_url ∷ "/v1/snapshot" ∷ [])))))

  abbrev pub run_on : EngineNode → SubmitToEngineRequest → Reply
  run_on node b = send (post_url (fstring (node.base_url ∷ "/v1/tasks/run" ∷ [])) (submission_of b))

  -- `run_task_on_engine`
  unfoldable pub run_task_on_engine :
      (engine_id : String) → SubmitToEngineRequest → EngineRegistry → Response Value
  run_task_on_engine engine_id b registry =
      and_on (get_node_or_404 registry engine_id)
        (λ node. answered (not_reached engine_id) (run_on node b))

  -- The metadata that says which node ran a task.
  abbrev pub routed_to : EngineNode → Value
  routed_to node = object (
      field "engine_id" (str node.engine_id)
        (field "name" (str node.name) (field "base_url" (str node.base_url) end)))

  -- Assignment to a member of an object, with the other members in their places.
  abbrev pub put_member : String → Value → Fields → Fields
  put_member key v end = field key v end
  put_member key v (field name w rest) =
      let later = put_member key v rest in
      if str_eq name key then field key v rest else field name w later

  abbrev pub member : String → Fields → Option Value
  member key end = none
  member key (field name w rest) =
      let later = member key rest in if str_eq name key then some w else later

  -- `metadata["routed_to"] = …` of what the result has under `metadata`, an empty dictionary if it
  -- has nothing. A value that is no dictionary takes no such member; the text of its `TypeError`
  -- is the interpreter's.
  unfoldable pub annotate : (type_error : Value → Exn) → EngineNode → Fields → Response Value
  annotate type_error node result = elim (member "metadata" result) [
    | none ↦
        body
          (object (put_member "metadata" (object (field "routed_to" (routed_to node) end)) result))
    | some (object metadata) ↦ body (
        object (
          put_member "metadata" (object (put_member "routed_to" (routed_to node) metadata)) result))
    | some v ↦ crashed (type_error v)
  ]

  -- What `run_task_auto_route` makes of the reply of the node that it chose.
  abbrev pub routed : (type_error : Value → Exn) → EngineNode → Reply → Response Value
  routed type_error node (json (object result)) = annotate type_error node result
  routed type_error node (json v) = body v
  routed type_error node (http_error e) = failed (
      proxy_error
        ("Engine " ∷ quoted node.engine_id ∷ " (" ∷ node.name ∷ ") is unreachable: " ∷ e ∷ []))
  routed type_error node (other_error e) = crashed e

  -- The error of a request that no node can take, where `tags_repr` is the `repr` of the tags.
  abbrev pub no_engines : (tags_repr : Assoc String → String) → Assoc String → HttpError
  no_engines tags_repr tags = record {
    status_code = 400;
    code = "no_available_engines";
    message = fstring (
        "No healthy engine nodes available"
        ∷ elim tags [
          | [] ↦ ""
          | (tag ∷ rest) ↦ fstring (" matching tags " ∷ tags_repr (tag ∷ rest) ∷ [])
        ]
        ∷ []);
  }

  -- What `run_task_auto_route` does with the candidates: the first takes the task.
  unfoldable pub to_first :
      (type_error : Value → Exn)
      → (tags_repr : Assoc String → String) → SubmitToEngineRequest
      → (candidates : List EngineNode) → Response Value
  to_first type_error tags_repr b [] = failed (no_engines tags_repr b.engine_tags)
  to_first type_error tags_repr b (node ∷ rest) = routed type_error node (run_on node b)

  -- `run_task_auto_route`
  unfoldable pub run_task_auto_route :
      (type_error : Value → Exn)
      → (tags_repr : Assoc String → String) → SubmitToEngineRequest
      → EngineRegistry
      → Response Value
  run_task_auto_route type_error tags_repr b registry =
      to_first type_error tags_repr b (select (or_none b.engine_tags) registry)
