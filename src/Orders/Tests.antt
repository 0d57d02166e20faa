-- ===== src/Orders/Tests.antt =====
-- An order and its fills at concrete inputs.
use aq_trading.Prelude.{◌/◌, ◌≡◌, refl, none, some, [], ◌∷◌}
use aq_trading.Prelude.Dict.{lookup}
use aq_trading.Prelude.Int.{ℤ, pos}
use aq_trading.Portfolio.Repo.{buy, Tables}
use aq_trading.Orders.Types.{market, submitted, filled, Signal, Order, OrderFill, from_signal}
use aq_trading.Orders.Manager.{
  OrderManager, new, persist_order, write, register, accept, begin_fill, handle_fill, order_of,
}
use aq_trading.Orders.Manager.Fills.{handles, run, duplicate_ignored}
use aq_trading.Orders.Manager.Links.{IsLinked, IsTracked}
use aq_trading.Orders.Manager.Links.Filling.{
  Reachable, starts, registered, accepted, Reachable-IsLinked,
}
use aq_trading.Orders.Manager.Losses.{early_fill_lost}

abbrev divide : ℤ → ℤ → ℤ
divide (pos a) (pos b) = pos (a / b)
divide a b = pos 0

abbrev signal : Signal
signal = record {
  strategy_id = 3;
  symbol = 7;
  action = buy;
  quantity = pos 100;
  order_type = market;
  limit_price = none;
}

abbrev no_rows : Tables
no_rows = record { positions = []; transactions = [] }

abbrev empty : OrderManager
empty = new 1 no_rows

abbrev pending_order : Order
pending_order = from_signal signal 11 5

abbrev placed : OrderManager
placed = accept pending_order 900 6 (register signal 11 5 empty)

abbrev fill : OrderFill
fill = record { fill_id = 40; order_id = 900; quantity = pos 60; price = pos 50 }

abbrev rest : OrderFill
rest = record { fill_id = 41; order_id = 900; quantity = pos 40; price = pos 50 }

-- The order in the broker's hands.
abbrev placed_order : Order
placed_order = record pending_order {
  broker_order_id = some 900;
  status = submitted;
  updated_at = 6;
}

-- The order of the broker's id, before the broker has named it.
order_before : order_of fill (register signal 11 5 empty) ≡ none
unfolding order_of register new
order_before = refl

placed-Reachable : Reachable divide placed
unfolding new register from_signal persist_order
placed-Reachable =
    accepted pending_order 900 6 (register signal 11 5 empty) refl refl refl
      (registered signal 11 5 empty refl (starts 1 no_rows))

duplicate_ignored_example :
    let s' = run divide (handles rest 8 ∷ []) (begin_fill divide fill 7 placed).0 in
    handle_fill divide fill 9 s' ≡ (s', none)
duplicate_ignored_example = duplicate_ignored divide fill fill 7 9 (handles rest 8 ∷ []) placed refl

Reachable-IsLinked_example : IsLinked placed
Reachable-IsLinked_example = Reachable-IsLinked divide placed placed-Reachable

unmapped : lookup 900 (register signal 11 5 empty).broker_id_map ≡ none
unfolding register new persist_order
unmapped = refl

early_fill_lost_example :
    let s = register signal 11 5 empty in
    let s' = accept pending_order 900 6 (handle_fill divide fill 5 s).0 in
    (handle_fill divide fill 7 s' ≡ (s', none)) × (s'.portfolio ≡ s.portfolio)
early_fill_lost_example =
    early_fill_lost divide fill 5 6 7 pending_order (register signal 11 5 empty) unmapped

placed-IsTracked : IsTracked fill placed_order placed
unfolding accept register new from_signal persist_order
placed-IsTracked = (refl, refl, refl, refl)

abbrev full_order : Order
full_order = record placed_order { status = filled; filled_qty = pos 100 }

abbrev both_begun : OrderManager
both_begun = write full_order placed

full-IsTracked : IsTracked fill full_order both_begun
unfolding accept register new from_signal persist_order
full-IsTracked = (refl, refl, refl, refl)
