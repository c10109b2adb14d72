-- ===== src/Api/Bus/Order.antt =====
-- What each subscriber of the bus of engine/api/bus.py gets.
use mathlib.Core.Path.{subst}
use mathlib.Core.List.{append-nil, append_assoc}
use conductor_engine.Base.{
  ℕ, suc, ◌<◌, ◌≡◌, ◌≢◌, refl, sym, ap, ◌∙◌, List, [], ◌∷◌, ◌++◌, Option, none, some, Bool, true,
  false, ◌==◌, map, ◌&&◌, not, arith, if◌then◌else◌,
}
use conductor_engine.Interfaces.Event.{TaskEvent}
use conductor_engine.Api.Bus.{
  SseEventBus, subscribe, remove, unsubscribe, broadcast, emit, shutdown, deliver_from, deliver,
  is_running, Step, subscribes, unsubscribes, emits, shuts_down, delivers, step, steps,
}

-- What the calls of `put_nowait` put into a queue.
abbrev pub put_into : ℕ → List (ℕ × Option TaskEvent) → List (Option TaskEvent)
put_into q [] = []
put_into q ((r, e) ∷ rest) = let more = put_into q rest in if r == q then e ∷ more else more

-- What a subscriber gets: what its queue was given, and what the loop has still to give it.
abbrev pub received : ℕ → SseEventBus → List (Option TaskEvent)
received q self = put_into q self.delivered ++ put_into q self.scheduled

abbrev pub times_in : ℕ → List ℕ → ℕ
times_in q [] = 0
times_in q (r ∷ rest) = if r == q then suc (times_in q rest) else times_in q rest

-- The queue is subscribed, once, and the loop runs.
pub record IsListening (q : ℕ) (self : SseEventBus) : Type 0 where
  pub once : times_in q self.subscribers ≡ 1
  pub old : q < self.made
  pub runs : self.running ≡ some true

-- What the bus sends in some steps: events, and sentinels.
abbrev pub sent : List Step → List (Option TaskEvent)
sent [] = []
sent (emits e ∷ rest) = some e ∷ sent rest
sent (shuts_down ∷ rest) = none ∷ sent rest
sent (s ∷ rest) = sent rest

-- No step takes the queue out.
abbrev pub stays : ℕ → List Step → Bool
stays q [] = true
stays q (unsubscribes r ∷ rest) = not (r == q) && stays q rest
stays q (s ∷ rest) = stays q rest

put_into-append :
    (q : ℕ) (l m : List (ℕ × Option TaskEvent)) → put_into q (l ++ m) ≡ put_into q l ++ put_into q m
put_into-append q [] m = refl
put_into-append q ((r, e) ∷ rest) m = ground (arith, put_into-append q rest m)

broadcast-absent :
    (q : ℕ) (e : Option TaskEvent) (l : List ℕ)
    → times_in q l ≡ 0
    → put_into q (map (λ r. (r, e)) l) ≡ []
broadcast-absent q e [] h = refl
broadcast-absent q e (r ∷ rest) h = ground (arith, broadcast-absent q e rest)

broadcast-once :
    (q : ℕ) (e : Option TaskEvent) (l : List ℕ)
    → times_in q l ≡ 1
    → put_into q (map (λ r. (r, e)) l) ≡ e ∷ []
broadcast-once q e [] h = absurd (omega (arith, h))
broadcast-once q e (r ∷ rest) h = ground (arith, broadcast-absent q e rest, broadcast-once q e rest)

times_in-append : (q r : ℕ) (l : List ℕ) → r ≢ q → times_in q (l ++ r ∷ []) ≡ times_in q l
times_in-append q r [] other = ground arith
times_in-append q r (s ∷ rest) other = ground (arith, times_in-append q r rest other)

times_in-remove : (q r : ℕ) (l : List ℕ) → (r == q) ≡ false → times_in q (remove r l) ≡ times_in q l
unfolding remove
times_in-remove q r [] other = refl
times_in-remove q r (s ∷ rest) other = grind (arith, times_in-remove q r rest other)

received-broadcast :
    (q : ℕ) (e : Option TaskEvent) (self : SseEventBus)
    → IsListening q self
    → received q (broadcast e self) ≡ received q self ++ e ∷ []
unfolding broadcast
received-broadcast q e self h = rw h.runs (
    ap (λ l. put_into q self.delivered ++ l)
      (put_into-append q self.scheduled _
        ∙ ap (λ l. put_into q self.scheduled ++ l) (broadcast-once q e self.subscribers h.once))
    ∙ sym (append_assoc (put_into q self.delivered) (put_into q self.scheduled) (e ∷ [])))

received-deliver :
    (q : ℕ) (l : List (ℕ × Option TaskEvent)) (self : SseEventBus)
    → self.scheduled ≡ l
    → received q (deliver_from l self) ≡ received q self
unfolding deliver_from
received-deliver q [] self h = refl
received-deliver q (call ∷ rest) self h =
    ap (λ m. m ++ put_into q rest) (put_into-append q self.delivered (call ∷ []))
    ∙ append_assoc (put_into q self.delivered) (put_into q (call ∷ [])) (put_into q rest)
    ∙ ap (λ m. put_into q self.delivered ++ m)
        (sym (put_into-append q (call ∷ []) rest) ∙ ap (put_into q) (sym h))

broadcast-IsListening :
    (q : ℕ) (e : Option TaskEvent) (self : SseEventBus)
    → IsListening q self
    → IsListening q (broadcast e self)
unfolding broadcast
broadcast-IsListening q e self h =
    subst
      (λ (o : Option Bool). IsListening q (
        if is_running o
        then record self { scheduled = self.scheduled ++ map (λ (r : ℕ). (r, e)) self.subscribers }
        else self))
      (sym h.runs) (record { once = h.once; old = h.old; runs = h.runs })

deliver-IsListening :
    (q : ℕ) (l : List (ℕ × Option TaskEvent)) (self : SseEventBus)
    → IsListening q self
    → IsListening q (deliver_from l self)
unfolding deliver_from
deliver-IsListening q [] self h = h
deliver-IsListening q (call ∷ rest) self h = record { once = h.once; old = h.old; runs = h.runs }

-- A subscriber of a running bus gets what was on its way to it, and then every event that is
-- emitted and every sentinel of a shutdown, once and in the order in which they were sent,
-- whatever subscribes, unsubscribes or is delivered in between, as long as it is not itself
-- unsubscribed.
pub received-steps :
    (q : ℕ) (l : List Step) (self : SseEventBus)
    → IsListening q self
    → stays q l ≡ true
    → received q (steps l self) ≡ received q self ++ sent l
unfolding steps step emit shutdown subscribe unsubscribe
received-steps q [] self h stay = sym (append-nil (received q self))
received-steps q (subscribes ∷ rest) self h stay =
    received-steps q rest _
      (record {
        once =
            times_in-append q self.made self.subscribers (λ e. absurd (omega (arith, h.old, e)))
            ∙ h.once;
        old = omega (arith, h.old);
        runs = h.runs;
      })
      stay
received-steps q (unsubscribes r ∷ rest) self h stay =
    received-steps q rest _
      (record {
        once = times_in-remove q r self.subscribers (ground arith) ∙ h.once;
        old = h.old;
        runs = h.runs;
      })
      (ground arith)
received-steps q (emits e ∷ rest) self h stay =
    received-steps q rest (broadcast (some e) self) (broadcast-IsListening q (some e) self h) stay
    ∙ ap (λ m. m ++ sent rest) (received-broadcast q (some e) self h)
    ∙ append_assoc (received q self) (some e ∷ []) (sent rest)
received-steps q (shuts_down ∷ rest) self h stay =
    received-steps q rest (broadcast none self) (broadcast-IsListening q none self h) stay
    ∙ ap (λ m. m ++ sent rest) (received-broadcast q none self h)
    ∙ append_assoc (received q self) (none ∷ []) (sent rest)
received-steps q (delivers ∷ rest) self h stay =
    received-steps q rest (deliver self) (deliver-IsListening q self.scheduled self h) stay
    ∙ ap (λ m. m ++ sent rest) (received-deliver q self.scheduled self refl)
