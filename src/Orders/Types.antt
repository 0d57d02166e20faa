-- ===== src/Orders/Types.antt =====
-- The values of backend/src/orders/models.py, and the signals and the fills of
-- backend/src/strategies/signals.py.
use aq_trading.Prelude.{ℕ, Option, none}
use aq_trading.Prelude.Int.{ℤ, pos}
use aq_trading.Portfolio.Repo.{Side}

pub data OrderStatus : Type 0 where
  pending submitted partial_fill cancel_requested filled cancelled rejected expired unknown :
      OrderStatus

pub data OrderType : Type 0 where
  market limit : OrderType

pub record Signal : Type 0 where
  pub strategy_id : ℕ
  pub symbol : ℕ
  pub action : Side
  pub quantity : ℤ
  pub order_type : OrderType
  pub limit_price : Option ℤ

pub record Order : Type 0 where
  pub order_id : ℕ
  pub broker_order_id : Option ℕ
  pub strategy_id : ℕ
  pub symbol : ℕ
  pub side : Side
  pub quantity : ℤ
  pub order_type : OrderType
  pub limit_price : Option ℤ
  pub status : OrderStatus
  pub filled_qty : ℤ
  pub avg_fill_price : Option ℤ
  pub updated_at : ℕ
  pub error_message : Option ℕ

pub record OrderFill : Type 0 where
  pub fill_id : ℕ
  pub order_id : ℕ
  pub quantity : ℤ
  pub price : ℤ

unfoldable pub from_signal : Signal → ℕ → ℕ → Order
from_signal s order_id now = record {
  order_id = order_id;
  broker_order_id = none;
  strategy_id = s.strategy_id;
  symbol = s.symbol;
  side = s.action;
  quantity = s.quantity;
  order_type = s.order_type;
  limit_price = s.limit_price;
  status = pending;
  filled_qty = pos 0;
  avg_fill_price = none;
  updated_at = now;
  error_message = none;
}
