-- ===== src/Orders/Manager/Links.antt =====
-- The broker's ids, the active orders and the order objects agree.
pub mod Filling
use aq_trading.Prelude.{
  some_injective, ℕ, ◌≡◌, ◌≢◌, ◌⊎◌, inl, inr, refl, sym, ◌∙◌, ap, subst, Bool-cases, Option-cases,
  Bool, true, false, Option, none, some, List, [], ◌∷◌, ◌==◌, same_or_not, ==_iff, arith,
  if◌then◌else◌,
}
use aq_trading.Prelude.Dict.{
  Dict, lookup, insert, erase, lookup-insert_same, lookup-insert_ne, lookup-erase_same,
  lookup-erase_ne, contains,
}
use aq_trading.Prelude.Int.{ℤ}
use aq_trading.Portfolio.Repo.{Tables}
use aq_trading.Orders.Types.{Signal, Order, OrderFill, OrderStatus, submitted, filled, from_signal}
use aq_trading.Orders.Manager.Fills.{noted}
use aq_trading.Orders.Manager.{
  OrderManager, FillError, key_error, write, register, accept, refuse, begin_on, begin_with,
  begin_fill, Begun, ignored, filling, failed, end_begun, order_of, fill_order, remove,
  remove_filled, end_on, end_fill, handle_fill, persist_order,
}

-- The entry of a broker's id leads to an active order that has it.
abbrev pub Linked : OrderManager → ℕ → ℕ → Type 0
Linked s broker_id order_id =
    (o : Order) × ((lookup order_id s.objects ≡ some o)
      × (o.order_id ≡ order_id)
      × (o.broker_order_id ≡ some broker_id)
      × (lookup order_id s.active_orders ≡ some order_id))

abbrev pub IsLinked : OrderManager → Type 0
IsLinked s =
    (broker_id order_id : ℕ)
    → lookup broker_id s.broker_id_map ≡ some order_id
    → Linked s broker_id order_id

-- An assignment that leaves the ids of an object alone.
pub write-IsLinked :
    (o o' : Order) (s : OrderManager)
    → lookup o.order_id s.objects ≡ some o
    → o'.order_id ≡ o.order_id
    → o'.broker_order_id ≡ o.broker_order_id
    → IsLinked s
    → IsLinked (write o' s)
write-IsLinked o o' s found same same_broker h broker_id order_id mapped =
    let (p, (at, named, with_broker, active)) = h broker_id order_id mapped in
    elim (same_or_not order_id o'.order_id) [
      | inl here ↦ (
        o',
        (
          lookup-insert_same s.objects o'.order_id o' order_id here,
          sym here,
          same_broker ∙ ap (λ (x : Order). x.broker_order_id) (one_object at here) ∙ with_broker,
          active,
        ),
      )
      | inr elsewhere ↦ (
        p,
        (
          lookup-insert_ne s.objects o'.order_id o' order_id elsewhere ∙ at,
          named,
          with_broker,
          active,
        ),
      )
    ]
  where
    one_object :
        {p : Order} {order_id : ℕ}
        → lookup order_id s.objects ≡ some p
        → order_id ≡ o'.order_id
        → o ≡ p
    one_object at here = cc

-- A new object, and a new active order.
pub register-IsLinked :
    (signal : Signal) (order_id now : ℕ) (s : OrderManager)
    → lookup order_id s.objects ≡ none
    → IsLinked s
    → IsLinked (register signal order_id now s)
unfolding register from_signal persist_order
register-IsLinked signal new_id now s fresh h broker_id order_id mapped =
    let (p, (at, named, with_broker, active)) = h broker_id order_id mapped in
    let other : order_id ≢ new_id = (λ e. cc) in
    (
      p,
      (
        lookup-insert_ne s.objects new_id (from_signal signal new_id now) order_id other ∙ at,
        named,
        with_broker,
        lookup-insert_ne s.active_orders new_id new_id order_id other ∙ active,
      ),
    )

-- The broker takes an order under an id that it has not used.
pub accept-IsLinked :
    (o : Order) (new_id now : ℕ) (s : OrderManager)
    → lookup o.order_id s.objects ≡ some o
    → o.broker_order_id ≡ none
    → lookup o.order_id s.active_orders ≡ some o.order_id
    → IsLinked s
    → IsLinked (accept o new_id now s)
unfolding accept persist_order
accept-IsLinked o new_id now s found without_broker active_o h broker_id order_id mapped =
    elim (same_or_not broker_id new_id) [
      | inl here ↦
          let same : o.order_id ≡ order_id =
            some_injective (
              sym (lookup-insert_same s.broker_id_map new_id o.order_id broker_id here) ∙ mapped) in
          (
            record o { broker_order_id = some new_id; status = submitted; updated_at = now },
            (
              lookup-insert_same s.objects o.order_id _ order_id (sym same),
              same,
              ap some (sym here),
              cc,
            ),
          )
      | inr elsewhere ↦
          let (p, (at, named, with_broker, active)) = h broker_id order_id (
            sym (lookup-insert_ne s.broker_id_map new_id o.order_id broker_id elsewhere)
            ∙ mapped) in
          let other : order_id ≢ o.order_id = (λ e. cc) in
          (
            p,
            (
              lookup-insert_ne s.objects o.order_id _ order_id other ∙ at,
              named,
              with_broker,
              active,
            ),
          )
    ]

-- What an order that a fill finds is.
abbrev pub IsTracked : OrderFill → Order → OrderManager → Type 0
IsTracked f o s =
    (lookup f.order_id s.broker_id_map ≡ some o.order_id)
    × (lookup o.order_id s.objects ≡ some o)
    × (o.broker_order_id ≡ some f.order_id)
    × (lookup o.order_id s.active_orders ≡ some o.order_id)

pub order_of_tracked :
    (f : OrderFill) (o : Order) (s : OrderManager) (order_id : ℕ)
    → lookup f.order_id s.broker_id_map ≡ some order_id
    → lookup order_id s.active_orders ≡ some order_id
    → lookup order_id s.objects ≡ some o
    → order_of f s ≡ some o
unfolding order_of
order_of_tracked f o s order_id mapped active found = rw (order_of, mapped, active, found) refl

pub linked-IsTracked :
    (f : OrderFill) (s : OrderManager) (o : Order)
    → IsLinked s
    → order_of f s ≡ some o
    → IsTracked f o s
unfolding order_of
linked-IsTracked f s o h found = elim (Option-cases (lookup f.order_id s.broker_id_map)) [
  | inl unknown ↦ ground arith
  | inr (order_id, mapped) ↦
      let (p, (at, named, with_broker, active)) = h f.order_id order_id mapped in
      let same : p ≡ o =
        some_injective (sym (order_of_tracked f p s order_id mapped active at) ∙ found) in
      subst (λ (x : Order). IsTracked f x s) same
        (
          mapped ∙ ap some (sym named),
          ap (λ k. lookup k s.objects) named ∙ at,
          with_broker,
          ap (λ k. lookup k s.active_orders) named ∙ active ∙ ap some (sym named),
        )
]

-- The order that is filled leaves both dicts.
abbrev pub removed : OrderFill → Order → OrderManager → OrderManager
removed f o s = record s {
  active_orders = erase s.active_orders o.order_id;
  broker_id_map = erase s.broker_id_map f.order_id;
}

pub tracked-remove :
    (f : OrderFill) (o : Order) (s : OrderManager)
    → IsTracked f o s
    → remove o s ≡ (removed f o s, none)
unfolding remove
tracked-remove f o s (mapped, found, with_broker, active) =
    rw (remove, active, with_broker, mapped) refl

pub removed-IsLinked :
    (f : OrderFill) (o : Order) (s : OrderManager)
    → IsTracked f o s
    → IsLinked s
    → IsLinked (removed f o s)
removed-IsLinked f o s (mapped_o, found, with_broker_o, active_o) h broker_id order_id mapped =
    elim (same_or_not broker_id f.order_id) [
      | inl here ↦
          let gone : lookup f.order_id (erase s.broker_id_map f.order_id) ≡ none =
            lookup-erase_same s.broker_id_map f.order_id in
          cc
      | inr elsewhere ↦
          let (p, (at, named, with_broker, active)) =
            h broker_id order_id
              (sym (lookup-erase_ne s.broker_id_map f.order_id broker_id elsewhere) ∙ mapped) in
          let other : order_id ≢ o.order_id = (λ e. elsewhere cc) in
          (
            p,
            (
              at,
              named,
              with_broker,
              lookup-erase_ne s.active_orders o.order_id order_id other ∙ active,
            ),
          )
    ]
