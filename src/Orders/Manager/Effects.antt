-- ===== src/Orders/Manager/Effects.antt =====
-- What a fill does.
use aq_trading.Prelude.{ℕ, ◌≡◌, ◌⊎◌, refl, none, some, [], ◌∷◌, ◌++◌, or_else}
use aq_trading.Prelude.Dict.{lookup}
use aq_trading.Prelude.Int.{ℤ, pos, ◌+ℤ◌, ◌*ℤ◌, ◌≤ℤ◌, ◌<ℤ◌}
use aq_trading.Portfolio.Repo.{AssetType, Tables}
use aq_trading.Portfolio.Fill.{Fill}
use aq_trading.Orders.Types.{OrderStatus, filled, partial_fill, Order, OrderFill}
use aq_trading.Orders.Manager.Fills.{noted}
use aq_trading.Orders.Manager.{OrderManager, write, fill_order, order_of}

pub order_of_unknown :
    (f : OrderFill) (s : OrderManager)
    → lookup f.order_id s.broker_id_map ≡ none
    → order_of f s ≡ none
unfolding order_of
order_of_unknown f s h = rw (order_of, h) refl

module _ (divide : ℤ → ℤ → ℤ) (f : OrderFill) (now : ℕ) (s : OrderManager) (o : Order) where
  -- The volume-weighted average price after the fill.
  abbrev average : ℤ
  average =
      divide (or_else o.avg_fill_price (pos 0) *ℤ o.filled_qty +ℤ f.price *ℤ f.quantity)
        (o.filled_qty +ℤ f.quantity)

  abbrev pub filled_order : Order
  filled_order = fill_order f average now o

  -- The state before the order is taken out.
  abbrev booked : Tables → OrderManager
  booked t = record (write filled_order (noted f s)) {
    portfolio = t;
    published = s.published ++ f ∷ [];
    persisted = s.persisted ++ filled_order ∷ [];
  }

  -- The order as far as the fill goes: filled and taken out of the active orders, or still active.
  abbrev pub IsSettled : OrderManager → Type 0
  IsSettled s' =
      ((o.quantity ≤ℤ filled_order.filled_qty)
        × (filled_order.status ≡ filled)
        × (order_of f s' ≡ none)
        × (lookup o.order_id s'.active_orders ≡ none))
      ⊎ ((filled_order.filled_qty <ℤ o.quantity)
          × (filled_order.status ≡ partial_fill)
          × (order_of f s' ≡ some filled_order))

  -- The object after the fill, with either status.
  abbrev with_status : OrderStatus → Order
  with_status status = record filled_order { status = status }

  -- What the portfolio is to record: the fill's quantity and price, the order's symbol, side and strategy.
  abbrev pub fill_to_record : Fill
  fill_to_record = record {
    account_id = s.account_id;
    symbol = o.symbol;
    side = o.side;
    quantity = f.quantity;
    price = f.price;
    commission = pos 0;
    strategy_id = some o.strategy_id;
    order_id = none;
    broker_order_id = none;
    asset_type = AssetType.stock;
    strike = none;
    expiry = none;
    put_call = none;
  }
