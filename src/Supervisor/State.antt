-- ===== src/Supervisor/State.antt =====
-- What a `TaskSupervisor` of engine/supervisor/service.py works with: the collaborators that it is
-- built from, and the state that its methods change.
use conductor_engine.Base.{
  ℕ, suc, ◌+◌, ◌-◌, String, Bool, List, Option, none, some, Assoc, lookup, insert, ltb,
  if◌then◌else◌,
}
use conductor_engine.Interfaces.Retry.{RetryStrategy, EscalationPolicy}
use conductor_engine.Interfaces.Policy.{PolicyEngine}
use conductor_engine.Interfaces.Event.{TaskEvent}
use conductor_engine.Interfaces.Store.{TaskStore}
use conductor_engine.Interfaces.Guild.{KnowledgeBase, PeerSuggestions}
use conductor_engine.Registry.{CapabilityRegistry}
use conductor_engine.Runtime.Queue.{TaskQueue}
use conductor_engine.Json.{Json}

-- What the operating system and other packages answer: the wall clock's nth reading, the time that
-- passes before a reading of the monotonic clock, the nth uuid, the hash prefix of a dumped
-- dictionary, a duration under the format `.2f`, and whether the event bus raises on an event.
pub record Environment : Type 0 where
  pub wall : ℕ → ℕ
  pub lag : ℕ → ℕ
  pub uuid4 : ℕ → String
  pub fingerprint : Json → String
  pub two_places : ℕ → String
  pub bus_raises : TaskEvent → Bool

-- The arguments of `TaskSupervisor.__init__` that no method replaces.
pub record Config (S G : Type 0) : Type 0 where
  pub registry : CapabilityRegistry
  pub store : TaskStore S
  pub policy : PolicyEngine
  pub retry_strategy : RetryStrategy
  pub escalation_policy : Option EscalationPolicy
  pub guild_knowledge : Option (KnowledgeBase G)
  pub peer_suggestions : Option (PeerSuggestions G)
  pub workdir : String
  pub env : Environment

-- `events` are those that the bus took, `reads`, `ids` and `runs` count the readings of the clock,
-- the uuids and the runs of capabilities so far, and `monotonic` is the monotonic clock.
pub record State (S G : Type 0) : Type 0 where
  pub tasks : S
  pub queue : TaskQueue
  pub guild : G
  pub last_start : Assoc ℕ
  pub events : List TaskEvent
  pub reads : ℕ
  pub ids : ℕ
  pub runs : ℕ
  pub monotonic : ℕ

module _ {S G : Type 0} (config : Config S G) where
  open config use {env}

  -- `_now()`
  unfoldable pub now : State S G → ℕ × State S G
  now s = (env.wall s.reads, record s { reads = suc s.reads })

  -- `timestamp or _now()`
  unfoldable pub stamp : Option ℕ → State S G → ℕ × State S G
  unfolding now
  stamp none s = now s
  stamp (some t) s = (t, s)

  -- `time.monotonic()`
  unfoldable pub monotonic : State S G → ℕ × State S G
  monotonic s = let t = s.monotonic + env.lag s.monotonic in (t, record s { monotonic = t })

  -- `time.sleep`, which suspends for no less than it is asked.
  unfoldable pub sleep : ℕ → State S G → State S G
  sleep d s = record s { monotonic = s.monotonic + d + env.lag s.monotonic }

  -- The wait of `_wait_for_execution_window` for a capability that has a minimal interval.
  unfoldable pub wait_after : Option ℕ → ℕ → ℕ → State S G → ℕ × State S G
  unfolding monotonic sleep
  wait_after none min_interval t s = (t, s)
  wait_after (some previous) min_interval t s =
      let elapsed = t - previous in
      if ltb elapsed min_interval then monotonic (sleep (min_interval - elapsed) s) else (t, s)

  -- The wait and the new start, where `previous` is the last start.
  unfoldable pub take_window :
      String → (min_interval : ℕ) → (previous : Option ℕ) → State S G → State S G
  take_window name min_interval previous s =
      let (t, s) = monotonic s in
      let (t, s) = wait_after previous min_interval t s in
      record s { last_start = insert name t s.last_start }

  -- `_wait_for_execution_window`
  unfoldable pub wait_for_execution_window : String → Option ℕ → State S G → State S G
  wait_for_execution_window name none s = s
  wait_for_execution_window name (some min_interval) s =
      take_window name min_interval (lookup name s.last_start) s
