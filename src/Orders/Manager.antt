-- ===== src/Orders/Manager.antt =====
-- `OrderManager` of backend/src/orders/manager.py. An order is one object that the dict of active
-- orders and the running calls share: `objects` is the store of these objects, by their order id, and
-- `active_orders` holds references into it. A method is split where it awaits the broker or the
-- portfolio, since another one runs there. What is published and what is written to the orders table is
-- recorded; a failure to write is caught by the source.
pub mod Fills
pub mod Links
pub mod Effects
pub mod Losses
use aq_trading.Prelude.{
  ℕ, Bool, true, false, Option, none, some, List, [], ◌∷◌, ◌++◌, if◌then◌else◌, or_else,
}
use aq_trading.Prelude.Dict.{Dict, contains, lookup, insert, erase}
use aq_trading.Prelude.Int.{ℤ, pos, ◌+ℤ◌, ◌*ℤ◌, leb_ℤ, eqb_ℤ}
use aq_trading.Prelude.Result.{Result, ok, raised}
use aq_trading.Orders.Types.{
  OrderStatus, submitted, partial_fill, filled, rejected, Signal, Order, OrderFill, from_signal,
}
use aq_trading.Portfolio.Repo.{stock, Tables}
use aq_trading.Portfolio.Fill.{Fill, record_fill}

pub record OrderManager : Type 0 where
  pub account_id : ℕ
  pub objects : Dict Order
  pub active_orders : Dict ℕ
  pub broker_id_map : Dict ℕ
  pub processed_fills : List ℕ
  pub portfolio : Tables
  pub published : List OrderFill
  pub persisted : List Order

unfoldable pub new : ℕ → Tables → OrderManager
new account_id t = record {
  account_id = account_id;
  objects = [];
  active_orders = [];
  broker_id_map = [];
  processed_fills = [];
  portfolio = t;
  published = [];
  persisted = [];
}

-- What a call for a fill raises.
pub data FillError : Type 0 where
  division_by_zero : FillError
  multiple_results : FillError
  key_error : FillError

-- The store after an assignment to the fields of an object.
abbrev pub write : Order → OrderManager → OrderManager
write o s = record s { objects = insert s.objects o.order_id o }

unfoldable pub persist_order : Order → OrderManager → OrderManager
persist_order o s = record s { persisted = s.persisted ++ o ∷ [] }

-- `process_signal` until it awaits the broker: the order is known and persisted before it is sent.
unfoldable pub register : Signal → ℕ → ℕ → OrderManager → OrderManager
unfolding from_signal persist_order
register signal order_id now s =
    let o = from_signal signal order_id now in
    persist_order o
      (record (write o s) { active_orders = insert s.active_orders order_id order_id })

-- The rest of it, when the broker has taken the order.
unfoldable pub accept : Order → ℕ → ℕ → OrderManager → OrderManager
unfolding persist_order
accept o broker_id now s =
    let o' = record o { broker_order_id = some broker_id; status = submitted; updated_at = now } in
    persist_order o'
      (record (write o' s) { broker_id_map = insert s.broker_id_map broker_id o.order_id })

-- The rest of it, when the broker has refused the order.
unfoldable pub refuse : Order → ℕ → ℕ → OrderManager → OrderManager
unfolding persist_order
refuse o error now s =
    let o' = record o { status = rejected; error_message = some error; updated_at = now } in
    persist_order o' (write o' s)

-- The whole of it, when nothing runs in between.
unfoldable pub process_signal : Signal → ℕ → ℕ → Result ℕ ℕ → OrderManager → OrderManager
unfolding register accept refuse from_signal
process_signal signal order_id now (ok broker_id) s =
    accept (from_signal signal order_id now) broker_id now (register signal order_id now s)
process_signal signal order_id now (raised error) s =
    refuse (from_signal signal order_id now) error now (register signal order_id now s)

-- The order that a fill is for.
unfoldable pub order_of : OrderFill → OrderManager → Option Order
order_of f s = elim (lookup f.order_id s.broker_id_map) [
  | none ↦ none
  | some order_id ↦ elim (lookup order_id s.active_orders) [
    | none ↦ none
    | some reference ↦ lookup reference s.objects
  ]
]

-- What the first part of `handle_fill` hands to the second.
pub data Begun : Type 0 where
  ignored : Begun
  filling : Order → Begun
  failed : FillError → Begun

-- The order as a fill leaves it.
unfoldable pub fill_order : OrderFill → ℤ → ℕ → Order → Order
fill_order f avg now o =
    let filled_qty = o.filled_qty +ℤ f.quantity in
    record o {
      filled_qty = filled_qty;
      avg_fill_price = some avg;
      updated_at = now;
      status = (if leb_ℤ o.quantity filled_qty then filled else partial_fill);
    }

-- The arguments of the call of the portfolio; the others have their defaults.
abbrev pub portfolio_fill : ℕ → Order → OrderFill → Fill
portfolio_fill account_id o f = record {
  account_id = account_id;
  symbol = o.symbol;
  side = o.side;
  quantity = f.quantity;
  price = f.price;
  commission = pos 0;
  strategy_id = some o.strategy_id;
  order_id = none;
  broker_order_id = none;
  asset_type = stock;
  strike = none;
  expiry = none;
  put_call = none;
}

-- `del` on the two dicts, with the exception that is raised, if any.
unfoldable pub remove : Order → OrderManager → OrderManager × Option FillError
remove o s = elim (lookup o.order_id s.active_orders) [
  | none ↦ (s, some key_error)
  | some reference ↦
      let s' = record s { active_orders = erase s.active_orders o.order_id } in
      elim o.broker_order_id [
        | none ↦ (s', some key_error)
        | some broker_id ↦ elim (lookup broker_id s.broker_id_map) [
          | none ↦ (s', some key_error)
          | some order_id ↦ (record s' { broker_id_map = erase s.broker_id_map broker_id }, none)
        ]
      ]
]

unfoldable pub remove_filled : OrderStatus → Order → OrderManager → OrderManager × Option FillError
unfolding remove
remove_filled filled o s = remove o s
remove_filled _ o s = (s, none)

-- The rest of `handle_fill`, by what the portfolio does with the fill.
unfoldable pub end_on :
    OrderFill → Order → Option Tables → OrderManager → OrderManager × Option FillError
unfolding remove_filled persist_order
end_on f o none s = (s, some multiple_results)
end_on f o (some portfolio) s =
    remove_filled o.status o
      (persist_order o (record s { portfolio = portfolio; published = s.published ++ f ∷ [] }))

-- The new values of an order, by the average price of its fills; without one the quantity is already written.
unfoldable pub begin_with : OrderFill → ℕ → Order → Option ℤ → OrderManager → OrderManager × Begun
unfolding fill_order
begin_with f now o none s =
    (write (record o { filled_qty = o.filled_qty +ℤ f.quantity }) s, failed division_by_zero)
begin_with f now o (some avg) s =
    (write (fill_order f avg now o) s, filling (fill_order f avg now o))

module _ (divide : ℤ → ℤ → ℤ) where
  -- `_calc_avg_price`; `none` is the division by zero.
  unfoldable pub calc_avg_price : ℤ → ℤ → OrderFill → Option ℤ
  calc_avg_price prev_qty prev_avg f =
      let total_qty = prev_qty +ℤ f.quantity in
      let total_value = prev_avg *ℤ prev_qty +ℤ f.price *ℤ f.quantity in
      if eqb_ℤ total_qty (pos 0) then none else some (divide total_value total_qty)

  unfoldable pub begin_on : OrderFill → ℕ → Option Order → OrderManager → OrderManager × Begun
  unfolding begin_with
  begin_on f now none s = (s, ignored)
  begin_on f now (some o) s =
      begin_with f now o (calc_avg_price o.filled_qty (or_else o.avg_fill_price (pos 0)) f) s

  -- `handle_fill` until it awaits the portfolio.
  unfoldable pub begin_fill : OrderFill → ℕ → OrderManager → OrderManager × Begun
  unfolding begin_on order_of
  begin_fill f now s =
      if contains f.fill_id s.processed_fills
      then (s, ignored)
      else begin_on f now (order_of f s)
          (record s { processed_fills = f.fill_id ∷ s.processed_fills })

  -- The rest of `handle_fill`. The order is read again after the portfolio is awaited: `o` is the object as it
  -- then is.
  unfoldable pub end_fill : OrderFill → Order → OrderManager → OrderManager × Option FillError
  unfolding end_on
  end_fill f o s = end_on f o (record_fill divide (portfolio_fill s.account_id o f) s.portfolio) s

  unfoldable pub end_begun : OrderFill → OrderManager × Begun → OrderManager × Option FillError
  unfolding end_fill
  end_begun f (s, ignored) = (s, none)
  end_begun f (s, filling o) = end_fill f o s
  end_begun f (s, failed error) = (s, some error)

  -- The whole of it, when nothing runs in between.
  unfoldable pub handle_fill : OrderFill → ℕ → OrderManager → OrderManager × Option FillError
  unfolding begin_fill end_begun
  handle_fill f now s = end_begun f (begin_fill f now s)
