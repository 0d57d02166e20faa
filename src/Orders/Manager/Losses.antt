-- ===== src/Orders/Manager/Losses.antt =====
-- Fills that are lost, and calls that end in an exception.
use aq_trading.Prelude.{ℕ, ◌≡◌, inl, inr, refl, ◌∙◌, ap, Bool-cases, none, some, [], ◌∷◌, ◌++◌}
use aq_trading.Prelude.Dict.{lookup, contains, lookup-erase_same}
use aq_trading.Prelude.Int.{ℤ}
use aq_trading.Portfolio.Repo.{Tables}
use aq_trading.Orders.Types.{OrderStatus, filled, Order, OrderFill}
use aq_trading.Orders.Manager.Fills.{duplicate_after_accept}
use aq_trading.Orders.Manager.Effects.{order_of_unknown}
use aq_trading.Orders.Manager.Links.{IsTracked, removed, tracked-remove}
use aq_trading.Orders.Manager.{
  OrderManager, persist_order, begin_on, begin_fill, order_of, accept, key_error, remove,
  remove_filled, end_on, end_begun, handle_fill,
}

handle_fill-unknown :
    (divide : ℤ → ℤ → ℤ) (f : OrderFill) (now : ℕ) (s : OrderManager)
    → order_of f s ≡ none
    → (handle_fill divide f now s ≡ ((begin_fill divide f now s).0, none))
      × ((begin_fill divide f now s).0.portfolio ≡ s.portfolio)
unfolding handle_fill begin_fill begin_on end_begun
handle_fill-unknown divide f now s unknown =
    elim (Bool-cases (contains f.fill_id s.processed_fills)) [
      | inl known ↦ rw known (refl, refl)
      | inr fresh ↦ rw (fresh, unknown) (refl, refl)
    ]

-- A fill that arrives before its order has its broker's id is lost: it is noted as processed, so when it is
-- delivered again after the order was accepted, neither the order nor the portfolio nor anything else changes.
pub early_fill_lost :
    (divide : ℤ → ℤ → ℤ) (f : OrderFill) (t₁ t₂ t₃ : ℕ) (o : Order) (s : OrderManager)
    → lookup f.order_id s.broker_id_map ≡ none
    → let accepted = accept o f.order_id t₂ (handle_fill divide f t₁ s).0 in
      (handle_fill divide f t₃ accepted ≡ (accepted, none)) × (accepted.portfolio ≡ s.portfolio)
unfolding accept persist_order
early_fill_lost divide f t₁ t₂ t₃ o s unknown =
    let (first, portfolio) = handle_fill-unknown divide f t₁ s (order_of_unknown f s unknown) in
    rw first (again, portfolio)
  where
    again :
        let accepted = accept o f.order_id t₂ (begin_fill divide f t₁ s).0 in
        handle_fill divide f t₃ accepted ≡ (accepted, none)
    again = duplicate_after_accept divide f t₁ t₃ t₂ o s

remove_missing :
    (o : Order) (s : OrderManager)
    → lookup o.order_id s.active_orders ≡ none
    → remove o s ≡ (s, some key_error)
unfolding remove
remove_missing o s gone = rw (remove, gone) refl

abbrev posted : OrderFill → Order → Tables → OrderManager → OrderManager
posted f o t s = record s {
  portfolio = t;
  published = s.published ++ f ∷ [];
  persisted = s.persisted ++ o ∷ [];
}

remove_filled-filled :
    (status : OrderStatus) (o : Order) (s : OrderManager)
    → status ≡ filled
    → remove_filled status o s ≡ remove o s
unfolding remove_filled
remove_filled-filled status o s e = rw e refl

end_on-filled :
    (f : OrderFill) (o : Order) (s : OrderManager) (t : Tables)
    → o.status ≡ filled
    → end_on f o (some t) s ≡ remove o (posted f o t s)
unfolding end_on persist_order
end_on-filled f o s t is_filled = remove_filled-filled o.status o (posted f o t s) is_filled

-- Two calls for fills of one order may overlap, since each awaits the portfolio between its parts. Where the order
-- is filled when both end, and the portfolio has taken both fills, the first call takes the order out and the
-- second ends in the `KeyError` of its `del`.
pub overlapping_fills :
    (f g : OrderFill) (o : Order) (s : OrderManager) (t u : Tables)
    → IsTracked f o s
    → o.status ≡ filled
    → ((end_on f o (some t) s).1 ≡ none)
      × ((end_on g o (some u) (end_on f o (some t) s).0).1 ≡ some key_error)
overlapping_fills f g o s t u tracked is_filled =
    let first = end_on-filled f o s t is_filled ∙ tracked-remove f o (posted f o t s) tracked in
    let after = removed f o (posted f o t s) in
    rw first (
      refl,
      ap (λ r. r.1)
          (end_on-filled g o after u is_filled
            ∙ remove_missing o (posted g o u after) (lookup-erase_same s.active_orders o.order_id)),
    )
