-- ===== src/Closing/Updates/Progress.antt =====
-- The updates of an order go forward, in whatever order they arrive.
use aq_trading.Prelude.{
  ℕ, ◌≤◌, ◌≡◌, ◌≢◌, inl, inr, refl, sym, ◌∙◌, ap, subst, some_injective, Bool, true, false, Option,
  none, some, List, [], ◌∷◌, keep, All, same_or_not, Option-cases, arith,
}
use aq_trading.Prelude.Dict.{Dict, lookup, insert, values, lookup-insert_same, lookup-insert_ne}
use aq_trading.Prelude.Dict.Keyed.{IsKeyed, insert-IsKeyed, keep-All}
use aq_trading.Prelude.Int.{ℤ, ◌≤ℤ◌}
use aq_trading.Prelude.Table.{Found, missing, one, multiple_results, scalar_one_or_none}
use aq_trading.Closing.Types.{Position, CloseRequest, OrderStatus, OrderRecord, Store, write_order}
use aq_trading.Closing.Updates.{
  Update, is_terminal, is_filled, status_order, update_ended, update_open, update_order, settle,
  settle_found, update_close_request, has_broker_id, apply_update, update_found, broker_status_map,
  on_order_update,
}

-- An order has gone forward: neither its status nor its filled quantity has gone back, and a filled order has not
-- changed at all.
abbrev pub GoesForward : OrderRecord → OrderRecord → Type 0
GoesForward o o' =
    (status_order o.status ≤ status_order o'.status)
    × (o.filled_qty ≤ℤ o'.filled_qty)
    × (o.status ≡ OrderStatus.filled → o' ≡ o)
    × (o'.id ≡ o.id)

module _ (now : ℕ) (status : OrderStatus) (filled_qty : ℤ) (seq : Option ℤ) where
  update_order-GoesForward :
      (o : OrderRecord) → GoesForward o (update_order now status filled_qty seq o).0
  unfolding update_order update_ended update_open is_filled is_terminal status_order
  update_order-GoesForward o = (ground arith, ground arith, λ e. ground arith, ground arith)

GoesForward-trans : (a b c : OrderRecord) → GoesForward a b → GoesForward b c → GoesForward a c
GoesForward-trans a b c (s₁, q₁, f₁, i₁) (s₂, q₂, f₂, i₂) = (
  omega (arith, s₁, s₂),
  omega (arith, q₁, q₂),
  (λ e. let same = f₁ e in f₂ (ap (λ (o : OrderRecord). o.status) same ∙ e) ∙ same),
  i₂ ∙ i₁,
)

GoesForward-refl : (a : OrderRecord) → GoesForward a a
GoesForward-refl a = (omega arith, omega arith, λ e. refl, refl)

settle-orders :
    (now : ℕ) (r : CloseRequest) (p : Position) (orders : List OrderRecord) (s : Store)
    → (settle now r p orders s).orders ≡ s.orders
unfolding settle
settle-orders now r p orders s = ground arith

settle_found-orders :
    (now : ℕ) (r : Option CloseRequest) (s : Store) → (settle_found now r s).orders ≡ s.orders
unfolding settle_found
settle_found-orders now none s = refl
settle_found-orders now (some r) s = ground (arith, settle-orders now r)

update_close_request-orders :
    (now : ℕ) (c : Option ℕ) (s : Store) → (update_close_request now c s).orders ≡ s.orders
unfolding update_close_request
update_close_request-orders now none s = refl
update_close_request-orders now (some id) s = settle_found-orders now (lookup id s.requests) s

apply_update-orders :
    (now : ℕ) (o : OrderRecord) (due : Bool) (s : Store)
    → (apply_update now (o, due) s).orders ≡ insert s.orders o.id o
unfolding apply_update
apply_update-orders now o false s = refl
apply_update-orders now o true s =
    update_close_request-orders now o.close_request_id (write_order o s)

-- A table of orders after updates: each row that was there has gone forward.
abbrev pub Goes : Dict OrderRecord → Dict OrderRecord → Type 0
Goes before after =
    IsKeyed (λ (o : OrderRecord). o.id) after
    × ((k : ℕ) (o : OrderRecord)
        → lookup k before ≡ some o
        → (o' : OrderRecord) × (lookup k after ≡ some o') × GoesForward o o')

Goes-refl : (d : Dict OrderRecord) → IsKeyed (λ (o : OrderRecord). o.id) d → Goes d d
Goes-refl d keyed = (keyed, λ k o found. (o, found, GoesForward-refl o))

Goes-trans : (a b c : Dict OrderRecord) → Goes a b → Goes b c → Goes a c
Goes-trans a b c f g = (
  g.0,
  λ k o found.
      let (o₁, found₁, forward₁) = f.1 k o found in
      let (o₂, found₂, forward₂) = g.1 k o₁ found₁ in
      (o₂, found₂, GoesForward-trans o o₁ o₂ forward₁ forward₂),
)

insert-Goes :
    (d : Dict OrderRecord) (o o' : OrderRecord)
    → IsKeyed (λ (o : OrderRecord). o.id) d
    → lookup o.id d ≡ some o
    → GoesForward o o'
    → Goes d (insert d o'.id o')
insert-Goes d o o' keyed current forward = (
  insert-IsKeyed (λ (o : OrderRecord). o.id) d o' keyed,
  λ k q found. elim (same_or_not k o'.id) [
    | inl same ↦
        let is_q : q ≡ o =
          some_injective (sym found ∙ ap (λ k. lookup k d) (same ∙ forward.3) ∙ current) in
        (o', lookup-insert_same d o'.id o' k same, subst (λ q. GoesForward q o') (sym is_q) forward)
    | inr other ↦ (q, lookup-insert_ne d o'.id o' k other ∙ found, GoesForward-refl q)
  ],
)

found-Current :
    (p : OrderRecord → Bool) (d : Dict OrderRecord) (o : OrderRecord)
    → IsKeyed (λ (o : OrderRecord). o.id) d
    → scalar_one_or_none (keep p (values d)) ≡ one o
    → lookup o.id d ≡ some o
unfolding scalar_one_or_none
found-Current p d o keyed found =
    go (keep p (values d)) (keep-All (λ (o : OrderRecord). o.id) p d keyed) found
  where
    go :
        (rows : List OrderRecord)
        → All (λ (o : OrderRecord). (lookup o.id d ≡ some o) × (p o ≡ true)) rows
        → scalar_one_or_none rows ≡ one o
        → lookup o.id d ≡ some o
    go [] h e = absurd cc
    go (q ∷ []) h e =
        let is_o : q ≡ o = cc in subst (λ (o : OrderRecord). lookup o.id d ≡ some o) is_o h.0.0
    go (_ ∷ _ ∷ _) h e = absurd cc

module _ (now : ℕ) where
  -- The tables after an update, where it does not raise.
  abbrev GoesAfter : Store → Option Store → Type 0
  GoesAfter s none = Unit
  GoesAfter s (some s') = Goes s.orders s'.orders

  update_found-GoesAfter :
      (u : Update) (status : Option OrderStatus) (found : Found OrderRecord) (s : Store)
      → IsKeyed (λ (o : OrderRecord). o.id) s.orders
      → ((o : OrderRecord) → found ≡ one o → lookup o.id s.orders ≡ some o)
      → GoesAfter s (update_found now u status found s)
  unfolding update_found
  update_found-GoesAfter u status missing s keyed current = Goes-refl s.orders keyed
  update_found-GoesAfter u status multiple_results s keyed current = tt
  update_found-GoesAfter u none (one o) s keyed current = Goes-refl s.orders keyed
  update_found-GoesAfter u (some status) (one o) s keyed current =
      let out = update_order now status u.filled_qty u.broker_update_seq o in
      subst (Goes s.orders) (sym (apply_update-orders now out.0 out.1 s)) (
        insert-Goes s.orders o out.0 keyed (current o refl)
          (update_order-GoesForward now status u.filled_qty u.broker_update_seq o))

  on_order_update-Goes :
      (u : Update) (s : Store)
      → IsKeyed (λ (o : OrderRecord). o.id) s.orders
      → GoesAfter s (on_order_update now u s)
  unfolding on_order_update
  on_order_update-Goes u s keyed =
      update_found-GoesAfter u (broker_status_map u.broker_status)
        (scalar_one_or_none (keep (has_broker_id u.broker_order_id) (values s.orders))) s keyed
        (λ o found. found-Current (has_broker_id u.broker_order_id) s.orders o keyed found)

-- Updates one after another, each at its time; `none` once one has raised.
unfoldable pub on_order_updates : List (ℕ × Update) → Store → Option Store
on_order_updates [] s = some s
on_order_updates ((now, u) ∷ rest) s = elim (on_order_update now u s) [
  | none ↦ none
  | some s' ↦ on_order_updates rest s'
]

none_ne_some {ℓ} : {A : Type ℓ} {a : A} → none ≢ some a
none_ne_some e = absurd cc

-- Whatever updates of the broker arrive, in whatever order and however often, if none of them raises then each order
-- of a table keyed by its ids is still there, its status has not gone back in the order pending, submitted,
-- partial_fill or cancel_requested, cancelled or rejected or expired, filled, its filled quantity has not decreased,
-- and an order that was filled is the same in every field.
pub on_order_updates-Goes :
    (us : List (ℕ × Update)) (s s' : Store)
    → IsKeyed (λ (o : OrderRecord). o.id) s.orders
    → on_order_updates us s ≡ some s'
    → Goes s.orders s'.orders
unfolding on_order_updates
on_order_updates-Goes [] s s' keyed e =
    subst (λ s'. Goes s.orders s'.orders) (some_injective e) (Goes-refl s.orders keyed)
on_order_updates-Goes ((now, u) ∷ rest) s s' keyed e =
    elim (Option-cases (on_order_update now u s)) [
      | inl raised ↦ absurd (none_ne_some (rw (on_order_updates, raised) at e))
      | inr (s₁, went) ↦
          let first : Goes s.orders s₁.orders =
            subst (GoesAfter now s) went (on_order_update-Goes now u s keyed) in
          Goes-trans s.orders s₁.orders s'.orders first
            (on_order_updates-Goes rest s₁ s' first.0 (rw (on_order_updates, went) at e))
    ]
