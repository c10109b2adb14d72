-- ===== src/Runtime/Queue/Fifo.antt =====
-- What the queues of engine/runtime/queue.py promise to the supervisor and to the API server.
use mathlib.Core.List.{append-nil, append_assoc}
use conductor_engine.Base.{
  ℕ, zero, suc, ◌+◌, ◌≤◌, String, ◌≡◌, refl, List, [], ◌∷◌, ◌++◌, Option, none, some, arith, length,
  length-append, take, Option-cases, Bool-cases, leb, leb→le, ◌⊎◌, inl, inr, ap,
}
use conductor_engine.Base.Exec.{Exn, done, raised, ◌>>◌, pure, Exec}
use conductor_engine.Runtime.Queue.{TaskQueue, enqueue, dequeue, size, queue_full}

-- A number of ids that a capacity allows.
abbrev Fits : ℕ → Option ℕ → Type 0
Fits k none = Unit {0}
Fits k (some n) = k ≤ n

-- The deque holds no more than the capacity.
abbrev pub IsWithin : TaskQueue → Type 0
IsWithin q = Fits (size q) q.max_size

-- There is room for `k` more tasks.
abbrev pub HasRoom : TaskQueue → ℕ → Type 0
HasRoom q k = (n : ℕ) → q.max_size ≡ some n → size q + k ≤ n

-- A bounded queue that holds its capacity refuses the task with QueueFull and stays as it is.
pub enqueue-full :
    (q : TaskQueue) (x : String) (n : ℕ)
    → q.max_size ≡ some n
    → n ≤ size q
    → enqueue x q ≡ (raised (queue_full n), q)
unfolding enqueue
enqueue-full q x n bound full = ground arith

pub enqueue-room :
    (q : TaskQueue) (x : String)
    → HasRoom q 1
    → enqueue x q ≡ (done tt, record q { items = q.items ++ x ∷ [] })
unfolding enqueue
enqueue-room q x room = elim (Option-cases q.max_size) [
  | inl unbounded ↦ ground arith
  | inr (n, bound) ↦ ground (arith, room n bound)
]

-- A call of `enqueue` raises or returns.
pub enqueue-cases :
    (x : String) (items : List String) (m : Option ℕ)
    → ((e : Exn) × ((enqueue x (record { items = items; max_size = m })).0 ≡ raised e))
      ⊎ ((enqueue x (record { items = items; max_size = m })).0 ≡ done tt)
unfolding enqueue
enqueue-cases x items none = inr refl
enqueue-cases x items (some n) = elim (Bool-cases (leb n (length items))) [
  | inl full ↦ inl (
    queue_full n,
    rw (enqueue-full (record { items = items; max_size = some n }) x n refl (leb→le n _ full)) refl,
  )
  | inr room ↦
      inr (
        rw (enqueue-room (record { items = items; max_size = some n }) x (λ k e. ground arith))
          refl)
]

enqueue-Fits :
    (items : List String) (x : String) (m : Option ℕ)
    → Fits (length items) m
    → IsWithin (enqueue x (record { items = items; max_size = m })).1
unfolding enqueue
enqueue-Fits items x none h = tt
enqueue-Fits items x (some n) h = elim (Bool-cases (leb n (length items))) [
  | inl full ↦ rw (enqueue-full _ x n refl (leb→le n _ full)) h
  | inr room ↦
      rw (enqueue-room (record { items = items; max_size = some n }) x (λ k e. ground arith))
        (ground (arith, length-append items (x ∷ [])))
]

dequeue-Fits :
    (items : List String) (m : Option ℕ)
    → Fits (length items) m
    → IsWithin (dequeue (record { items = items; max_size = m })).1
unfolding dequeue
dequeue-Fits [] m h = h
dequeue-Fits (x ∷ items) none h = tt
dequeue-Fits (x ∷ items) (some n) h = omega arith

-- Neither operation, whether it succeeds or not, takes a queue over its capacity.
pub queue-IsWithin :
    (q : TaskQueue) (x : String) → IsWithin q → IsWithin (enqueue x q).1 × IsWithin (dequeue q).1
queue-IsWithin q x h = (enqueue-Fits q.items x q.max_size h, dequeue-Fits q.items q.max_size h)

-- Calls of `enqueue` in a row; the first that raises ends them.
pub enqueue_all : List String → Exec TaskQueue (Unit {0})
enqueue_all [] = pure tt
enqueue_all (x ∷ xs) = do enqueue x; enqueue_all xs

enqueue_all_lem :
    (xs : List String) (q : TaskQueue)
    → HasRoom q (length xs)
    → enqueue_all xs q ≡ (done tt, record q { items = q.items ++ xs })
unfolding enqueue_all
enqueue_all_lem [] q room = ground (arith, append-nil q.items)
enqueue_all_lem (x ∷ xs) q room = rw (enqueue-room q x (λ n e. omega (arith, room n e))) (
    rw
      (enqueue_all_lem xs (record q { items = q.items ++ x ∷ [] })
        (λ n e. omega (arith, room n e, length-append q.items (x ∷ []))))
      (ground (arith, append_assoc q.items (x ∷ []) xs)))

-- Calls of `dequeue` in a row, and the ids that they return.
pub dequeue_all : ℕ → TaskQueue → List String
dequeue_all zero q = []
dequeue_all (suc n) q =
    let rest = dequeue_all n (dequeue q).1 in elim (dequeue q).0 [ none ↦ [] | some x ↦ x ∷ rest ]

dequeue_all-take :
    (n : ℕ) (items : List String) (max_size : Option ℕ)
    → dequeue_all n (record { items = items; max_size = max_size }) ≡ take n items
unfolding dequeue_all dequeue
dequeue_all-take zero items m = refl
dequeue_all-take (suc n) [] m = refl
dequeue_all-take (suc n) (x ∷ items) m = ap (λ l. x ∷ l) (dequeue_all-take n items m)

-- First in, first out: with room for the tasks `xs`, enqueueing them raises nothing, and then `k`
-- calls of `dequeue` return the first `k` of the ids that were there followed by `xs`.
pub fifo :
    (q : TaskQueue) (xs : List String) (k : ℕ)
    → HasRoom q (length xs)
    → ((enqueue_all xs q).0 ≡ done tt)
      × (dequeue_all k (enqueue_all xs q).1 ≡ take k (q.items ++ xs))
fifo q xs k room =
    rw (enqueue_all_lem xs q room) (refl, dequeue_all-take k (q.items ++ xs) q.max_size)
