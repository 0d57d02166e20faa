-- ===== src/Degradation/Bus.antt =====
-- The event bus: backend/src/degradation/event_bus.py. The queue is a list, head first; what
-- the bus hands to code that it does not know is recorded: the events that the emergency callback got,
-- and the pairs of a subscriber and an event in the order of the calls. A handler's exception is
-- caught by the bus, so it changes nothing here. The fallback file takes each line.
pub mod Delivery
use aq_trading.Prelude.{
  ℕ, suc, zero, ◌+◌, Bool, true, false, not, ◌&&◌, Option, none, some, List, [], ◌∷◌, ◌++◌, map,
  length, if◌then◌else◌,
}
use aq_trading.Prelude.Int.{ℤ, pos, ltb_ℤ, leb_ℤ}
use aq_trading.Degradation.Types.{SystemEvent, is_critical, DegradationConfig}

-- A line of the fallback log; the reason is `QueueFull` at the only call.
pub record LogEntry : Type 0 where
  pub event : SystemEvent
  pub critical : Bool

pub record EventBus : Type 0 where
  pub config : DegradationConfig
  pub queue : List SystemEvent
  pub subscribers : List ℕ
  pub drop_count : ℕ
  -- `none` without a fallback path
  pub fallback_log : Option (List LogEntry)
  -- whether an emergency callback is set
  pub has_callback : Bool
  pub running : Bool
  -- the calls that the bus has made
  pub emergencies : List SystemEvent
  pub delivered : List (ℕ × SystemEvent)

unfoldable pub new : DegradationConfig → Option (List LogEntry) → EventBus
new config log = record {
  config = config;
  queue = [];
  subscribers = [];
  drop_count = 0;
  fallback_log = log;
  has_callback = false;
  running = false;
  emergencies = [];
  delivered = [];
}

-- `asyncio.Queue.full`: a queue whose `maxsize` is 0 or less is never full.
unfoldable pub is_full : EventBus → Bool
is_full b =
    let size = b.config.event_bus_queue_size in
    ltb_ℤ (pos 0) size && leb_ℤ size (pos (length b.queue))

unfoldable pub write_fallback_log : SystemEvent → EventBus → EventBus
unfolding is_critical
write_fallback_log e b = elim b.fallback_log [
  | none ↦ b
  | some lines ↦ record b {
    fallback_log = some (lines ++ record { event = e; critical = is_critical e } ∷ []);
  }
]

unfoldable pub local_emergency_degrade : SystemEvent → EventBus → EventBus
local_emergency_degrade e b =
    if b.has_callback then record b { emergencies = b.emergencies ++ e ∷ [] } else b

unfoldable pub publish : SystemEvent → EventBus → EventBus × Bool
unfolding is_full write_fallback_log local_emergency_degrade is_critical
publish e b =
    let logged = write_fallback_log e (record b { drop_count = b.drop_count + 1 }) in
    let dropped = if is_critical e then local_emergency_degrade e logged else logged in
    if is_full b then (dropped, false) else (record b { queue = b.queue ++ e ∷ [] }, true)

unfoldable pub subscribe : ℕ → EventBus → EventBus
subscribe handler b = record b { subscribers = b.subscribers ++ handler ∷ [] }

unfoldable pub set_emergency_callback : EventBus → EventBus
set_emergency_callback b = record b { has_callback = true }

unfoldable pub start : EventBus → EventBus
start b = record b { running = true }

unfoldable pub stop : EventBus → EventBus
stop b = record b { running = false }

-- The calls of `_notify_subscribers`.
unfoldable pub notify : SystemEvent → List ℕ → List (ℕ × SystemEvent)
notify e handlers = map (λ h. (h, e)) handlers

-- A round of `_dispatch_loop` on the events in the queue; on an empty queue `get` times out.
unfoldable pub deliver : List SystemEvent → EventBus → EventBus
unfolding notify
deliver [] b = b
deliver (e ∷ rest) b = record b { queue = rest; delivered = b.delivered ++ notify e b.subscribers }

unfoldable pub dispatch_once : EventBus → EventBus
unfolding deliver
dispatch_once b = if b.running then deliver b.queue b else b

-- `_dispatch_loop` for a number of rounds
unfoldable pub dispatch_loop : ℕ → EventBus → EventBus
unfolding dispatch_once
dispatch_loop zero b = b
dispatch_loop (suc rounds) b = dispatch_loop rounds (dispatch_once b)
