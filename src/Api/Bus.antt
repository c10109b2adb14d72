-- ===== src/Api/Bus.antt =====
-- `SSEEventBus` of engine/api/bus.py, with the part of the asyncio loop that it uses: callbacks
-- that were scheduled run in their order, one by one.
pub mod Order
use conductor_engine.Base.{
  ℕ, suc, List, [], ◌∷◌, ◌++◌, Option, none, some, Bool, true, false, ◌==◌, map, length,
  if◌then◌else◌, keep,
}
use conductor_engine.Interfaces.Event.{TaskEvent}

-- A queue is known by a number. `running` is `none` before a loop is attached, and then whether
-- the loop runs. `scheduled` are the calls of `put_nowait` that the loop has still to make, each
-- of a queue and an event or the sentinel, and `delivered` those that it has made.
pub record SseEventBus : Type 0 where
  pub subscribers : List ℕ
  pub running : Option Bool
  pub made : ℕ
  pub scheduled : List (ℕ × Option TaskEvent)
  pub delivered : List (ℕ × Option TaskEvent)

-- `attach_loop`, of a loop that runs.
unfoldable pub attach_loop : SseEventBus → SseEventBus
attach_loop self = record self { running = some true }

-- `subscribe`
unfoldable pub subscribe : SseEventBus → ℕ × SseEventBus
subscribe self =
    let q = self.made in (q, record self { subscribers = self.subscribers ++ q ∷ []; made = suc q })

-- `list.remove`, which takes out the first equal value; without one, the list stays as it is.
unfoldable pub remove : ℕ → List ℕ → List ℕ
remove q [] = []
remove q (r ∷ rest) = let others = remove q rest in if r == q then rest else r ∷ others

-- `unsubscribe`
unfoldable pub unsubscribe : ℕ → SseEventBus → SseEventBus
unsubscribe q self = record self { subscribers = remove q self.subscribers }

-- `subscriber_count`
abbrev pub subscriber_count : SseEventBus → ℕ
subscriber_count self = length self.subscribers

abbrev pub is_running : Option Bool → Bool
is_running none = false
is_running (some b) = b

-- What `emit` and `shutdown` do with the subscribers.
unfoldable pub broadcast : Option TaskEvent → SseEventBus → SseEventBus
broadcast event self =
    if is_running self.running
    then record self { scheduled = self.scheduled ++ map (λ q. (q, event)) self.subscribers }
    else self

-- `emit`
unfoldable pub emit : TaskEvent → SseEventBus → SseEventBus
emit event self = broadcast (some event) self

-- `shutdown`
unfoldable pub shutdown : SseEventBus → SseEventBus
shutdown self = broadcast none self

-- The loop makes its next call.
unfoldable pub deliver_from : List (ℕ × Option TaskEvent) → SseEventBus → SseEventBus
deliver_from [] self = self
deliver_from (call ∷ rest) self = record self {
  scheduled = rest;
  delivered = self.delivered ++ call ∷ [];
}

abbrev pub deliver : SseEventBus → SseEventBus
deliver self = deliver_from self.scheduled self

-- What happens to a bus whose loop is attached.
pub data Step : Type 0 where
  subscribes : Step
  unsubscribes : ℕ → Step
  emits : TaskEvent → Step
  shuts_down : Step
  delivers : Step

unfoldable pub step : Step → SseEventBus → SseEventBus
step subscribes self = (subscribe self).1
step (unsubscribes q) self = unsubscribe q self
step (emits e) self = emit e self
step shuts_down self = shutdown self
step delivers self = deliver self

unfoldable pub steps : List Step → SseEventBus → SseEventBus
steps [] self = self
steps (s ∷ rest) self = steps rest (step s self)
