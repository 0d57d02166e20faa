-- ===== src/Closing/Updates.antt =====
-- `OrderUpdateHandler` of backend/src/workers/order_handler.py.
pub mod Progress
use aq_trading.Prelude.{
  ℕ, Bool, true, false, not, ◌&&◌, Option, none, some, List, [], ◌∷◌, keep, ◌==◌, ltb, leb,
  if◌then◌else◌,
}
use aq_trading.Prelude.Dict.{Dict, lookup, values}
use aq_trading.Prelude.Int.{ℤ, pos, ◌+ℤ◌, ltb_ℤ, leb_ℤ, eqb_ℤ}
use aq_trading.Prelude.Table.{Found, missing, one, multiple_results, scalar_one_or_none}
use aq_trading.Closing.Types.{
  PositionStatus, open_, closed, close_retryable, RequestStatus, OrderStatus, Position,
  CloseRequest, remaining_qty, OrderRecord, Store, write_position, write_request, write_order,
}

-- The broker's words for a status, as `BROKER_STATUS_MAP` has them in capitals; any other text is `other`.
pub data BrokerStatus : Type 0 where
  new submitted partial partial_fill filled cancelled rejected expired other : BrokerStatus

-- `BROKER_STATUS_MAP.get`
unfoldable pub broker_status_map : BrokerStatus → Option OrderStatus
broker_status_map BrokerStatus.new = some OrderStatus.pending
broker_status_map BrokerStatus.submitted = some OrderStatus.submitted
broker_status_map BrokerStatus.partial = some OrderStatus.partial_fill
broker_status_map BrokerStatus.partial_fill = some OrderStatus.partial_fill
broker_status_map BrokerStatus.filled = some OrderStatus.filled
broker_status_map BrokerStatus.cancelled = some OrderStatus.cancelled
broker_status_map BrokerStatus.rejected = some OrderStatus.rejected
broker_status_map BrokerStatus.expired = some OrderStatus.expired
broker_status_map BrokerStatus.other = none

-- `TERMINAL_STATES`
unfoldable pub is_terminal : OrderStatus → Bool
is_terminal OrderStatus.filled = true
is_terminal OrderStatus.cancelled = true
is_terminal OrderStatus.rejected = true
is_terminal OrderStatus.expired = true
is_terminal _ = false

unfoldable pub is_filled : OrderStatus → Bool
is_filled OrderStatus.filled = true
is_filled _ = false

-- `STATUS_ORDER`
unfoldable pub status_order : OrderStatus → ℕ
status_order OrderStatus.pending = 0
status_order OrderStatus.submitted = 1
status_order OrderStatus.partial_fill = 2
status_order OrderStatus.cancel_requested = 2
status_order OrderStatus.cancelled = 3
status_order OrderStatus.rejected = 3
status_order OrderStatus.expired = 3
status_order OrderStatus.filled = 4

abbrev pub max_ℤ : ℤ → ℤ → ℤ
max_ℤ a b = if ltb_ℤ a b then b else a

-- Whether an update is older than the one that the order has seen, where both have a sequence number.
unfoldable pub is_stale : Option ℤ → Option ℤ → Bool
is_stale (some seq) (some seen) = leb_ℤ seq seen
is_stale _ _ = false

-- What an update does to an order, and whether its close request is looked at.
module _ (now : ℕ) (new_status : OrderStatus) (filled_qty : ℤ) (seq : Option ℤ) where
  abbrev more_filled : OrderRecord → OrderRecord
  more_filled o = record o { filled_qty = max_ℤ o.filled_qty filled_qty; broker_update_seq = seq }

  -- An order that is cancelled, rejected or expired.
  unfoldable pub update_ended : OrderRecord → OrderRecord × Bool
  unfolding is_filled
  update_ended o =
      let upgraded = record o {
        status = OrderStatus.filled;
        filled_qty = filled_qty;
        broker_update_seq = seq;
        last_broker_update_at = some now;
      } in
      if is_filled new_status
      then (if ltb_ℤ o.filled_qty filled_qty then (upgraded, true) else (more_filled o, false))
      else (more_filled o, false)

  -- An order that is not terminal.
  unfoldable pub update_open : OrderRecord → OrderRecord × Bool
  unfolding status_order
  update_open o =
      let advanced = record (more_filled o) {
        status = new_status;
        last_broker_update_at = some now;
      } in
      if ltb (status_order new_status) (status_order o.status)
      then (more_filled o, false)
      else (advanced, true)

  unfoldable pub update_order : OrderRecord → OrderRecord × Bool
  unfolding is_stale is_filled is_terminal update_ended update_open
  update_order o =
      if is_stale seq o.broker_update_seq
      then (o, false)
      else if is_filled o.status
      then (o, false)
      else if is_terminal o.status
      then update_ended o
      else update_open o

-- `all(p(o) for o in orders)`
abbrev pub all_orders : (OrderStatus → Bool) → List OrderRecord → Bool
all_orders p [] = true
all_orders p (o ∷ os) = let rest = all_orders p os in if p o.status then rest else false

abbrev pub sum_filled : List OrderRecord → ℤ
sum_filled [] = pos 0
sum_filled (o ∷ os) = o.filled_qty +ℤ sum_filled os

-- The end of `_update_close_request`, on the orders of the request.
unfoldable pub settle : ℕ → CloseRequest → Position → List OrderRecord → Store → Store
unfolding is_terminal is_filled remaining_qty
settle now r p orders s =
    let r' = record r { filled_qty = sum_filled orders } in
    let completed =
      write_position
        (record p { status = closed; closed_at = some now; active_close_request_id = none })
        (write_request (record r' { status = RequestStatus.completed; completed_at = some now })
          s) in
    let reopened =
      write_position (record p { status = open_; active_close_request_id = none })
        (write_request (record r' { status = RequestStatus.failed; completed_at = some now }) s) in
    let to_retry =
      write_position (record p { status = close_retryable })
        (write_request (record r' { status = RequestStatus.retryable }) s) in
    if not (all_orders is_terminal orders)
    then write_request r' s
    else if all_orders is_filled orders && eqb_ℤ (remaining_qty r') (pos 0)
    then completed
    else if eqb_ℤ r'.filled_qty (pos 0)
    then reopened
    else to_retry

abbrev pub is_for : ℕ → OrderRecord → Bool
is_for id o = elim o.close_request_id [ none ↦ false | some k ↦ k == id ]

unfoldable pub settle_found : ℕ → Option CloseRequest → Store → Store
unfolding settle
settle_found now none s = s
settle_found now (some r) s = elim (lookup r.position_id s.positions) [
  | none ↦ s
  | some p ↦ settle now r p (keep (is_for r.id) (values s.orders)) s
]

-- `_update_close_request`
unfoldable pub update_close_request : ℕ → Option ℕ → Store → Store
unfolding settle_found
update_close_request now none s = s
update_close_request now (some id) s = settle_found now (lookup id s.requests) s

abbrev pub has_broker_id : ℕ → OrderRecord → Bool
has_broker_id broker_id o = elim o.broker_order_id [ none ↦ false | some k ↦ k == broker_id ]

pub record Update : Type 0 where
  pub broker_order_id : ℕ
  pub broker_status : BrokerStatus
  pub filled_qty : ℤ
  pub broker_update_seq : Option ℤ

-- The order is written, and the request if that is due.
unfoldable pub apply_update : ℕ → OrderRecord × Bool → Store → Store
unfolding update_close_request
apply_update now (o, false) s = write_order o s
apply_update now (o, true) s = update_close_request now o.close_request_id (write_order o s)

unfoldable pub update_found :
    ℕ → Update → Option OrderStatus → Found OrderRecord → Store → Option Store
unfolding apply_update update_order
update_found now u status missing s = some s
update_found now u status multiple_results s = none
update_found now u none (one o) s = some s
update_found now u (some status) (one o) s =
    some (apply_update now (update_order now status u.filled_qty u.broker_update_seq o) s)

-- `on_order_update`; `none` is the exception on two orders with one id of the broker.
unfoldable pub on_order_update : ℕ → Update → Store → Option Store
unfolding update_found broker_status_map
on_order_update now u s =
    update_found now u (broker_status_map u.broker_status)
      (scalar_one_or_none (keep (has_broker_id u.broker_order_id) (values s.orders))) s
