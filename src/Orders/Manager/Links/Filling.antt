-- ===== src/Orders/Manager/Links/Filling.antt =====
-- Fills keep the links of the orders, and what may happen to a manager.
use aq_trading.Prelude.{
  some_injective, ℕ, ◌≡◌, ◌≢◌, inl, inr, refl, Bool-cases, Option, none, some, arith,
}
use aq_trading.Prelude.Dict.{lookup, lookup-insert_same, contains}
use aq_trading.Prelude.Int.{ℤ}
use aq_trading.Portfolio.Repo.{Tables}
use aq_trading.Orders.Types.{Signal, Order, OrderFill, OrderStatus, filled}
use aq_trading.Orders.Manager.Fills.{noted}
use aq_trading.Orders.Manager.Links.{
  IsLinked, IsTracked, write-IsLinked, register-IsLinked, accept-IsLinked, linked-IsTracked,
  tracked-remove, removed-IsLinked,
}
use aq_trading.Orders.Manager.{
  OrderManager, new, key_error, register, accept, refuse, begin_on, begin_with, begin_fill, Begun,
  ignored, filling, failed, end_begun, order_of, fill_order, remove_filled, end_on, end_fill,
  handle_fill, persist_order,
}

-- A fill keeps the links, in its parts and whole.
begin_with-IsLinked :
    (f : OrderFill) (now : ℕ) (o : Order) (avg : Option ℤ) (s : OrderManager)
    → lookup o.order_id s.objects ≡ some o
    → IsLinked s
    → IsLinked (begin_with f now o avg s).0
unfolding begin_with fill_order
begin_with-IsLinked f now o none s found h = write-IsLinked o _ s found refl refl h
begin_with-IsLinked f now o (some avg) s found h = write-IsLinked o _ s found refl refl h

-- What the rest of a fill needs of its beginning.
abbrev pub IsBegun : OrderFill → OrderManager × Begun → Type 0
IsBegun f (s, ignored) = Unit
IsBegun f (s, filling o) = IsTracked f o s
IsBegun f (s, failed error) = error ≢ key_error

begin_with-IsBegun :
    (f : OrderFill) (now : ℕ) (o : Order) (avg : Option ℤ) (s : OrderManager)
    → IsTracked f o s
    → IsBegun f (begin_with f now o avg s)
unfolding begin_with fill_order
begin_with-IsBegun f now o none s t = ground arith
begin_with-IsBegun f now o (some avg) s (mapped, found, with_broker, active) = (
  mapped,
  lookup-insert_same s.objects o.order_id (fill_order f avg now o) o.order_id refl,
  with_broker,
  active,
)

remove_filled-IsLinked :
    (f : OrderFill) (o : Order) (status : OrderStatus) (s : OrderManager)
    → IsTracked f o s
    → IsLinked s
    → IsLinked (remove_filled status o s).0 × ((remove_filled status o s).1 ≢ some key_error)
unfolding remove_filled
remove_filled-IsLinked f o filled s tracked h =
    rw (tracked-remove f o s tracked) (removed-IsLinked f o s tracked h, λ e. cc)
remove_filled-IsLinked f o _ s tracked h = (h, λ e. cc)

end_on-IsLinked :
    (f : OrderFill) (o : Order) (t : Option Tables) (s : OrderManager)
    → IsTracked f o s
    → IsLinked s
    → IsLinked (end_on f o t s).0 × ((end_on f o t s).1 ≢ some key_error)
unfolding end_on remove_filled persist_order
end_on-IsLinked f o none s tracked h = (h, λ e. cc)
end_on-IsLinked f o (some t) s tracked h = remove_filled-IsLinked f o o.status _ tracked h

module _ (divide : ℤ → ℤ → ℤ) where
  begin_on-IsLinked :
      (f : OrderFill) (now : ℕ) (o : Option Order) (s : OrderManager)
      → order_of f s ≡ o
      → IsLinked s
      → IsLinked (begin_on divide f now o (noted f s)).0
        × IsBegun f (begin_on divide f now o (noted f s))
  unfolding begin_on
  begin_on-IsLinked f now none s e h = (h, tt)
  begin_on-IsLinked f now (some o) s e h =
      let tracked = linked-IsTracked f s o h e in
      (
        begin_with-IsLinked f now o _ (noted f s) tracked.1 h,
        begin_with-IsBegun f now o _ (noted f s) tracked,
      )

  begin_fill-IsLinked :
      (f : OrderFill) (now : ℕ) (s : OrderManager)
      → IsLinked s
      → IsLinked (begin_fill divide f now s).0 × IsBegun f (begin_fill divide f now s)
  unfolding begin_fill
  begin_fill-IsLinked f now s h = elim (Bool-cases (contains f.fill_id s.processed_fills)) [
    | inl known ↦ rw known (h, tt)
    | inr fresh ↦ rw fresh (begin_on-IsLinked f now (order_of f s) s refl h)
  ]

  end_begun-IsLinked :
      (f : OrderFill) (s : OrderManager) (b : Begun)
      → IsLinked s
      → IsBegun f (s, b)
      → IsLinked (end_begun divide f (s, b)).0 × ((end_begun divide f (s, b)).1 ≢ some key_error)
  unfolding end_begun end_fill
  end_begun-IsLinked f s ignored h t = (h, λ e. cc)
  end_begun-IsLinked f s (filling o) h t = end_on-IsLinked f o _ s t h
  end_begun-IsLinked f s (failed error) h t = (h, λ e. t (some_injective e))

  -- A fill that is handled whole keeps the links between the broker's ids, the active orders and the order
  -- objects, whatever the portfolio does with it; and it does not end in the `KeyError` of a `del`.
  pub handle_fill-IsLinked :
      (f : OrderFill) (now : ℕ) (s : OrderManager)
      → IsLinked s
      → IsLinked (handle_fill divide f now s).0 × ((handle_fill divide f now s).1 ≢ some key_error)
  unfolding handle_fill
  handle_fill-IsLinked f now s h =
      let b = begin_fill-IsLinked f now s h in
      end_begun-IsLinked f (begin_fill divide f now s).0 (begin_fill divide f now s).1 b.0 b.1

-- The managers that come of orders and fills. An order id is a fresh uuid; the broker answers once for an order,
-- about the object that was registered; fills arrive at any time, in any order, also twice or for no order.
pub data Reachable (divide : ℤ → ℤ → ℤ) : OrderManager → Type 0 where
  starts : (account_id : ℕ) (t : Tables) → Reachable divide (new account_id t)
  registered :
      (signal : Signal) (order_id now : ℕ) (s : OrderManager)
      → lookup order_id s.objects ≡ none
      → Reachable divide s
      → Reachable divide (register signal order_id now s)
  accepted :
      (o : Order) (broker_id now : ℕ) (s : OrderManager)
      → lookup o.order_id s.objects ≡ some o
      → lookup o.order_id s.active_orders ≡ some o.order_id
      → o.broker_order_id ≡ none
      → Reachable divide s
      → Reachable divide (accept o broker_id now s)
  refused :
      (o : Order) (error now : ℕ) (s : OrderManager)
      → lookup o.order_id s.objects ≡ some o
      → Reachable divide s
      → Reachable divide (refuse o error now s)
  filled_by :
      (f : OrderFill) (now : ℕ) (s : OrderManager)
      → Reachable divide s
      → Reachable divide (handle_fill divide f now s).0

refuse-IsLinked :
    (o : Order) (error now : ℕ) (s : OrderManager)
    → lookup o.order_id s.objects ≡ some o
    → IsLinked s
    → IsLinked (refuse o error now s)
unfolding refuse persist_order
refuse-IsLinked o error now s found h = write-IsLinked o _ s found refl refl h

-- In every manager that comes of orders and fills, the entry of a broker's id leads to an active order whose object
-- has that id.
pub Reachable-IsLinked : (divide : ℤ → ℤ → ℤ) (s : OrderManager) → Reachable divide s → IsLinked s
unfolding new
Reachable-IsLinked divide _ (starts account_id t) = λ broker_id order_id mapped. cc
Reachable-IsLinked divide _ (registered signal order_id now s fresh r) =
    register-IsLinked signal order_id now s fresh (Reachable-IsLinked divide s r)
Reachable-IsLinked divide _ (accepted o broker_id now s found active none_yet r) =
    accept-IsLinked o broker_id now s found none_yet active (Reachable-IsLinked divide s r)
Reachable-IsLinked divide _ (refused o error now s found r) =
    refuse-IsLinked o error now s found (Reachable-IsLinked divide s r)
Reachable-IsLinked divide _ (filled_by f now s r) =
    (handle_fill-IsLinked divide f now s (Reachable-IsLinked divide s r)).0
