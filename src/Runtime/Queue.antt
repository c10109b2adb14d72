-- ===== src/Runtime/Queue.antt =====
-- engine/runtime/queue.py: the FIFO queues of task ids. An object of either class is its deque; a
-- bounded one has a capacity too.
pub mod Fifo
use conductor_engine.Base.{
  ℕ, ◌+◌, ◌-◌, ◌*◌, String, List, [], ◌∷◌, ◌++◌, Option, none, some, Bool, true, length, leb, ltb,
  ◌==◌, if◌then◌else◌, fstring, show,
}
use conductor_engine.Base.Exec.{Exn, Outcome, done, raised, Exec}

-- `max_size` is `none` for `InMemoryTaskQueue`.
pub record TaskQueue : Type 0 where
  pub items : List String
  pub max_size : Option ℕ

abbrev pub in_memory : TaskQueue
in_memory = record { items = []; max_size = none }

abbrev pub bounded : ℕ → TaskQueue
bounded n = record { items = []; max_size = some n }

abbrev pub queue_full : ℕ → Exn
queue_full n = record {
  error_type = "QueueFull";
  message = fstring (
      "Queue is full ("
      ∷ show n
      ∷ " tasks). Wait for tasks to complete before submitting more."
      ∷ []);
}

-- The guard of the bounded queue; the other has none.
abbrev at_capacity : TaskQueue → Option Exn
at_capacity q = elim q.max_size [
  | none ↦ none
  | some n ↦ if leb n (length q.items) then some (queue_full n) else none
]

unfoldable pub enqueue : String → Exec TaskQueue (Unit {0})
enqueue task_id q = elim (at_capacity q) [
  | some e ↦ (raised e, q)
  | none ↦ (done tt, record q { items = q.items ++ task_id ∷ [] })
]

popleft : List String → Option (String × List String)
popleft [] = none
popleft (x ∷ rest) = some (x, rest)

unfoldable pub dequeue : TaskQueue → Option String × TaskQueue
unfolding popleft
dequeue q = elim (popleft q.items) [
  | none ↦ (none, q)
  | some (x, rest) ↦ (some x, record q { items = rest })
]

abbrev pub size : TaskQueue → ℕ
size q = length q.items

-- `available` may be negative in Python only if a queue is over capacity, which never happens.
unfoldable pub available : ℕ → TaskQueue → ℕ
available n q = n - size q

-- `utilization > 0.9`, without the division: an empty capacity counts as full.
unfoldable pub over_utilized : ℕ → TaskQueue → Bool
over_utilized n q = if n == 0 then true else ltb (9 * n) (10 * size q)

-- `percent k n` is Python's text of `k / n` under the format `.0%`.
unfoldable pub health_check : (percent : ℕ → ℕ → String) → TaskQueue → List String
unfolding over_utilized
health_check percent q = elim q.max_size [
  | none ↦ []
  | some n ↦
      if over_utilized n q
      then fstring
          ("queue: " ∷ percent (size q) n ∷ " full (" ∷ show (size q) ∷ "/" ∷ show n ∷ ")" ∷ [])
        ∷ []
      else []
]
