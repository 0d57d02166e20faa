-- ===== src/Degradation/Bus/Delivery.antt =====
-- What becomes of a published event.
use mathlib.Core.List.{append-nil, append_assoc}
use aq_trading.Prelude.{
  ℕ, suc, zero, ◌+◌, ◌≤◌, ◌≡◌, refl, true, false, List, [], ◌∷◌, ◌++◌, length, length-append, arith,
  ◌∙◌, if◌then◌else◌, ap, ◌⊎◌, ◌↔◌,
}
use aq_trading.Prelude.Int.{pos, ◌≤ℤ◌, ◌<ℤ◌}
use aq_trading.Degradation.Types.{SystemEvent, is_critical}
use aq_trading.Degradation.Bus.{EventBus, publish, is_full, notify, dispatch_once, dispatch_loop}

-- Below a positive bound, the queue has at most so many events.
abbrev pub IsBounded : EventBus → Type 0
IsBounded b =
    let size = b.config.event_bus_queue_size in pos 0 <ℤ size → pos (length b.queue) ≤ℤ size

-- The bus takes one more event.
abbrev pub HasSpace : EventBus → Type 0
HasSpace b =
    let size = b.config.event_bus_queue_size in (size ≤ℤ pos 0) ⊎ (pos (length b.queue) <ℤ size)

-- Publishing keeps the queue within its bound. The event is accepted exactly where the configured size of the
-- queue is not positive or the queue has fewer events than that. An accepted event stands last in the queue and
-- nothing is dropped; a refused one is counted, the queue is as before, and the emergency callback, if there is
-- one, is called with the event exactly when the event is critical.
pub publish-outcome :
    (e : SystemEvent) (b : EventBus)
    → IsBounded b
    → let (b', accepted) = publish e b in
      IsBounded b'
      × ((accepted ≡ true) ↔ HasSpace b)
      × (accepted ≡ true
          → (b'.queue ≡ b.queue ++ e ∷ [])
            × (b'.drop_count ≡ b.drop_count)
            × (b'.emergencies ≡ b.emergencies))
      × (accepted ≡ false
          → (b'.queue ≡ b.queue)
            × (b'.drop_count ≡ b.drop_count + 1)
            × (b'.emergencies ≡ (
                if b.has_callback
                then (if is_critical e then b.emergencies ++ e ∷ [] else b.emergencies)
                else b.emergencies)))
unfolding publish is_full
publish-outcome e b h = ground (arith, length-append b.queue (e ∷ []))

-- An event goes to each subscriber in turn.
pub calls_with : SystemEvent → List ℕ → List (ℕ × SystemEvent)
calls_with e [] = []
calls_with e (h ∷ hs) = (h, e) ∷ calls_with e hs

-- The calls that the dispatcher makes for a queue: for each event in turn, each subscriber in turn.
pub calls_for : List ℕ → List SystemEvent → List (ℕ × SystemEvent)
calls_for subscribers [] = []
calls_for subscribers (e ∷ es) = calls_with e subscribers ++ calls_for subscribers es

notify_lem : (e : SystemEvent) (hs : List ℕ) → notify e hs ≡ calls_with e hs
unfolding notify calls_with
notify_lem e [] = refl
notify_lem e (h ∷ hs) = ap (λ calls. (h, e) ∷ calls) (notify_lem e hs)

dispatch_once-nil : (b : EventBus) → b.queue ≡ [] → dispatch_once b ≡ b
unfolding dispatch_once
dispatch_once-nil b empty = ground arith

dispatch_once-cons :
    (e : SystemEvent) (es : List SystemEvent) (b : EventBus)
    → b.running ≡ true
    → b.queue ≡ e ∷ es
    → dispatch_once b
      ≡ record b { queue = es; delivered = b.delivered ++ calls_with e b.subscribers }
unfolding dispatch_once
dispatch_once-cons e es b run eq = ground (arith, notify_lem e b.subscribers)

drains :
    (rounds : ℕ) (q : List SystemEvent) (b : EventBus)
    → b.running ≡ true
    → b.queue ≡ q
    → length q ≤ rounds
    → let b' = dispatch_loop rounds b in
      (b'.queue ≡ []) × (b'.delivered ≡ b.delivered ++ calls_for b.subscribers q)
unfolding dispatch_loop calls_for
drains zero [] b run eq le = (eq, rw append-nil)
drains zero (e ∷ es) b run eq le = elim le [ ]
drains (suc rounds) [] b run eq le =
    rw (dispatch_once-nil b eq, dispatch_loop) (drains rounds [] b run eq (omega arith))
drains (suc rounds) (e ∷ es) b run eq le =
    let b' = record b { queue = es; delivered = b.delivered ++ calls_with e b.subscribers } in
    let ih = drains rounds es b' run refl (omega arith) in
    rw (dispatch_once-cons e es b run eq, dispatch_loop) (ih.0, ih.1 ∙ rw append_assoc)

-- A running bus that dispatches at least as many rounds as it has events ends with an empty queue, and
-- has called every subscriber with every queued event: in the order of publication, and for one event
-- in the order of subscription.
pub dispatch_loop-drains :
    (rounds : ℕ) (b : EventBus)
    → b.running ≡ true
    → length b.queue ≤ rounds
    → let b' = dispatch_loop rounds b in
      (b'.queue ≡ []) × (b'.delivered ≡ b.delivered ++ calls_for b.subscribers b.queue)
dispatch_loop-drains rounds b run le = drains rounds b.queue b run refl le
