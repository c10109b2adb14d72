-- ===== src/Api/Tests.antt =====
-- The theorems about engine/api applied to a small fleet, to a store with a key, and to a bus.
use Prim.Native.String.{String}
use conductor_engine.Base.{
  str_eq, Bool, ℕ, ◌≡◌, refl, [], ◌∷◌, none, some, true, false, arith, lookup, insert, show,
  is_space, fstring, map, length,
}
use conductor_engine.Base.Exec.{Exn, value_error}
use conductor_engine.Base.Parse.{strip_left, strip_right}
use conductor_engine.Base.Parse.Pieces.{free}
use conductor_engine.Json.{Value, object, end}
use conductor_engine.Interfaces.Task.{TaskStatus}
use conductor_engine.Interfaces.Event.{EventType, TaskEvent}
use conductor_engine.Api.Http.{body}
use conductor_engine.Api.Cluster.{EngineNode, EngineRegistry, select}
use conductor_engine.Api.Cluster.Routes.{list_engines, node_to_response}
use conductor_engine.Api.Cluster.Proxies.{
  Call, Reply, json, SubmitToEngineRequest, run_task_auto_route,
}
use conductor_engine.Api.Cluster.Answers.{
  written, list_engines-written, IsRouted, run_task_auto_route-IsBest,
}
use conductor_engine.Api.Auth.Entry.{ApiKeyEntry, Disk, missing}
use conductor_engine.Api.Auth.Store.{
  ApiKeyStore, api_key_store, new_entry, generate, lookup_key, revoke, has_keys, used,
  reload_if_changed,
}
use conductor_engine.Api.Auth.Keys.{generate-lookup, revoke-lookup}
use conductor_engine.Api.Auth.Middleware.{
  passed, auth_context, behind_prefix, path_is_public, dispatch, check_header,
}
use conductor_engine.Api.Auth.File.{IsKeyed, store-IsKeyed}
use conductor_engine.Api.Auth.Access.{Authentic, dispatch-Authentic, dispatch-revoked}
use conductor_engine.Runtime.Store.{memory_get}
use conductor_engine.Runtime.Store.Law.{memory_store}
use conductor_engine.Supervisor.Service.{not_found}
use conductor_engine.Supervisor.Samples.{config, fresh}
use conductor_engine.Base.Exec.{done}
use conductor_engine.Base.Parse.{quoted}
use conductor_engine.Api.Http.{failed}
use conductor_engine.Api.Auth.Middleware.{open_access}
use conductor_engine.Api.Tasks.{
  ApproveTaskRequest, CancelTaskRequest, approve_task, cancel_task, run_queued_task, get_task, http,
}
use conductor_engine.Api.Tasks.Refused.{IsPython, routes-missing}
use conductor_engine.Api.Bus.{
  SseEventBus, subscribes, unsubscribes, emits, shuts_down, delivers, steps,
}
use conductor_engine.Api.Bus.Order.{received, received-steps}

abbrev node : String → String → ℕ → EngineNode
node id pool seen = record {
  engine_id = id;
  name = id;
  base_url = "http://10.0.0.5:8080";
  tags = ("pool", pool) ∷ [];
  capabilities = [];
  registered_at = 0;
  last_seen = seen;
  healthy = true;
}

abbrev fleet : EngineRegistry
fleet = record {
  nodes = ("a", node "a" "gpu" 3) ∷ ("b", node "b" "cpu" 5) ∷ ("c", node "c" "gpu" 4) ∷ [];
}

list_engines-written_example :
    list_engines show (map written (("pool", "gpu") ∷ ("note", "a=b") ∷ [])) fleet
    ≡ body (record {
      items =
          map
            (node_to_response show)
            (select (some (("pool", "gpu") ∷ ("note", "a=b") ∷ [])) fleet);
      total = length (
          map
            (node_to_response show)
            (select (some (("pool", "gpu") ∷ ("note", "a=b") ∷ [])) fleet));
    })
unfolding insert free
list_engines-written_example =
    list_engines-written show (("pool", "gpu") ∷ ("note", "a=b") ∷ []) fleet refl

abbrev request : SubmitToEngineRequest
request = record {
  name = "a task";
  capability = "infer";
  input = [];
  metadata = [];
  max_retries = 0;
  workflow_id = none;
  engine_tags = ("pool", "gpu") ∷ [];
}

abbrev answer : Call → Reply
answer call = json (object end)

abbrev type_error : Value → Exn
type_error v = value_error "no item assignment"

run_task_auto_route-IsBest_example :
    IsRouted answer type_error
      (λ tags. "")
      request
      fleet
      (run_task_auto_route answer type_error (λ tags. "") request fleet)
run_task_auto_route-IsBest_example =
    run_task_auto_route-IsBest answer type_error (λ tags. "") request fleet

-- A hash for the tests.
abbrev hash : String → String
hash raw = fstring ("#" ∷ raw ∷ [])

abbrev no_disk : Disk
no_disk = record { content = missing; mtime = 0 }

abbrev bare : ApiKeyStore
bare = record { has_path = true; entries = []; dirty = false; last_mtime = none }

abbrev bot : ApiKeyEntry
bot = new_entry hash "a1" "monday" "bot" (some ("task:read" ∷ []))

abbrev bot_key : String
bot_key = fstring ("cond_" ∷ "a1" ∷ [])

abbrev one_key : ApiKeyStore
one_key = record {
  has_path = true;
  entries = (hash bot_key, bot) ∷ [];
  dirty = true;
  last_mtime = some 1;
}

generate-lookup_example :
    let made = generate hash "a1" "monday" 1 "bot" (some ("task:read" ∷ [])) bare no_disk in
    let use_ = record (made.0.1) { last_used_at = some "tuesday" } in
    ((lookup_key hash "tuesday" made.0.0 made.2 made.1).0 ≡ some use_)
    × ((lookup_key hash "tuesday" made.0.0 made.2 (api_key_store "tuesday" made.2)).0 ≡ some use_)
    × (made.0.1.actor ≡ "bot")
    × (made.0.1.scopes ≡ "task:read" ∷ [])
generate-lookup_example =
    generate-lookup hash "a1" "monday" "tuesday" "bot" (some ("task:read" ∷ [])) 1 bare no_disk refl
      tt refl

revoke-lookup_example :
    let revoked = revoke 5 (hash bot_key) one_key no_disk in
    (revoked.0 ≡ true)
    × ((lookup_key hash "tuesday" bot_key revoked.2 revoked.1).0 ≡ none)
    × ((lookup_key hash "tuesday" bot_key revoked.2 one_key).0 ≡ none)
unfolding lookup fstring
revoke-lookup_example =
    revoke-lookup hash bot_key "tuesday" 5 one_key one_key no_disk bot ((refl, refl, refl), tt) refl
      refl refl (omega arith)

store-IsKeyed_example :
    IsKeyed (api_key_store "monday" no_disk).entries
    × IsKeyed (generate hash "a2" "monday" 7 "ops" none one_key no_disk).1.entries
    × IsKeyed (lookup_key hash "monday" bot_key no_disk one_key).1.entries
    × IsKeyed (revoke 7 (hash bot_key) one_key no_disk).1.entries
store-IsKeyed_example =
    store-IsKeyed hash "monday" "a2" bot_key (hash bot_key) "ops" none 7 no_disk one_key refl
      ((refl, refl, refl), tt)

dispatch-Authentic_example :
    Authentic hash
      (behind_prefix "Bearer " "Bearer cond_a1")
      (reload_if_changed "tuesday" no_disk one_key)
      (auth_context "bot" (some ("task:read" ∷ [])))
unfolding has_keys path_is_public behind_prefix dispatch check_header lookup_key lookup used
    reload_if_changed fstring strip_left strip_right is_space
dispatch-Authentic_example =
    dispatch-Authentic hash "tuesday" "/v1/tasks" "Bearer cond_a1" no_disk one_key
      (auth_context "bot" (some ("task:read" ∷ []))) refl ((refl, refl, refl), tt) refl refl refl

dispatch-revoked_example :
    (dispatch hash "tuesday" "/v1/tasks" ""
      (revoke 5 (hash bot_key) one_key no_disk).2
      (revoke 5 (hash bot_key) one_key no_disk).1).0
    ≡ passed (record { actor = "api"; scopes = "*" ∷ [] })
unfolding lookup fstring
dispatch-revoked_example =
    dispatch-revoked hash "tuesday" "/v1/tasks" "" 5 (hash bot_key) bot no_disk one_key refl refl

abbrev event : String → TaskEvent
event id = record {
  event_type = EventType.task_started;
  task_id = id;
  task_name = "a task";
  capability = "flaky";
  status = TaskStatus.running;
  attempt = 1;
  timestamp = 0;
  workflow_id = none;
  error = none;
  metadata = [];
}

abbrev bus : SseEventBus
bus = record {
  subscribers = 0 ∷ 1 ∷ [];
  running = some true;
  made = 2;
  scheduled = [];
  delivered = [];
}

received-steps_example :
    received 1 (
      steps
        (emits (event "t")
          ∷ subscribes
          ∷ delivers
          ∷ unsubscribes 0
          ∷ emits (event "u")
          ∷ shuts_down
          ∷ [])
        bus)
    ≡ some (event "t") ∷ some (event "u") ∷ none ∷ []
received-steps_example =
    received-steps 1
      (emits (event "t")
        ∷ subscribes
        ∷ delivers
        ∷ unsubscribes 0
        ∷ emits (event "u")
        ∷ shuts_down
        ∷ [])
      bus (record { once = refl; old = omega arith; runs = refl }) refl

-- No class of the tests has another one below it.
abbrev same_class : String → String → Bool
same_class a b = str_eq a b

python : IsPython same_class
python = record { value_error = refl; full = refl; full-value = refl; full-key = refl }

abbrev approval : ApproveTaskRequest
approval = record { actor = "api"; run = true; metadata = [] }

abbrev cancellation : CancelTaskRequest
cancellation = record { actor = "api"; reason = none; metadata = [] }

routes-missing_example :
    (approve_task same_class config 3 "t" approval open_access fresh
      ≡ (done (failed (http 404 "approve_failed" (not_found "t").message)), fresh))
    × (cancel_task same_class config "t" cancellation open_access fresh
        ≡ (done (failed (http 404 "cancel_failed" (not_found "t").message)), fresh))
    × (run_queued_task same_class config 3 "t" fresh
        ≡ (done (failed (http 404 "not_found" (not_found "t").message)), fresh))
    × (get_task same_class config "t" fresh ≡ (
      done (failed (http 404 "not_found" (fstring ("Task " ∷ quoted "t" ∷ " not found" ∷ [])))),
      fresh,
    ))
unfolding memory_store memory_get lookup
routes-missing_example =
    routes-missing same_class python config 3 "t" approval cancellation open_access fresh refl
