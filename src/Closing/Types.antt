-- ===== src/Closing/Types.antt =====
-- The rows of backend/src/models/close_request.py, outbox.py, order.py and position.py, as far as the
-- closing of a position reads or writes them, and the tables as dicts by their primary keys.
use aq_trading.Prelude.{ℕ, Option}
use aq_trading.Prelude.Dict.{Dict, insert}
use aq_trading.Prelude.Int.{ℤ, ◌-ℤ◌}
use aq_trading.Portfolio.Repo.{Side, AssetType}

pub data PositionStatus : Type 0 where
  open_ closing closed close_retryable close_failed : PositionStatus

pub data RequestStatus : Type 0 where
  pending submitted completed retryable failed : RequestStatus

pub data EventStatus : Type 0 where
  waiting processing done given_up : EventStatus

pub data OrderStatus : Type 0 where
  pending submitted partial_fill cancel_requested filled cancelled rejected expired : OrderStatus

pub record Position : Type 0 where
  pub id : ℕ
  pub symbol : ℕ
  pub asset_type : AssetType
  pub quantity : ℤ
  pub status : PositionStatus
  pub active_close_request_id : Option ℕ
  pub closed_at : Option ℕ

pub record CloseRequest : Type 0 where
  pub id : ℕ
  pub position_id : ℕ
  pub idempotency_key : ℕ
  pub status : RequestStatus
  pub symbol : ℕ
  pub side : Side
  pub asset_type : AssetType
  pub target_qty : ℤ
  pub filled_qty : ℤ
  pub retry_count : ℕ
  pub max_retries : ℕ
  pub created_at : ℕ
  pub submitted_at : Option ℕ
  pub completed_at : Option ℕ

-- The property `remaining_qty`.
unfoldable pub remaining_qty : CloseRequest → ℤ
remaining_qty r = r.target_qty -ℤ r.filled_qty

-- An event of the type `SUBMIT_CLOSE_ORDER`, the only one, with its payload.
pub record OutboxEvent : Type 0 where
  pub id : ℕ
  pub close_request_id : ℕ
  pub symbol : ℕ
  pub side : Side
  pub qty : ℤ
  pub status : EventStatus
  pub retry_count : ℕ
  pub processed_at : Option ℕ

pub record OrderRecord : Type 0 where
  pub id : ℕ
  pub broker_order_id : Option ℕ
  pub status : OrderStatus
  pub filled_qty : ℤ
  pub close_request_id : Option ℕ
  pub broker_update_seq : Option ℤ
  pub last_broker_update_at : Option ℕ
  pub reconcile_not_found_count : ℕ

pub record Store : Type 0 where
  pub positions : Dict Position
  pub requests : Dict CloseRequest
  pub outbox : Dict OutboxEvent
  pub orders : Dict OrderRecord

-- An assignment to the fields of a row, or a new row.
abbrev pub write_position : Position → Store → Store
write_position p s = record s { positions = insert s.positions p.id p }

abbrev pub write_request : CloseRequest → Store → Store
write_request r s = record s { requests = insert s.requests r.id r }

abbrev pub write_event : OutboxEvent → Store → Store
write_event e s = record s { outbox = insert s.outbox e.id e }

abbrev pub write_order : OrderRecord → Store → Store
write_order o s = record s { orders = insert s.orders o.id o }
