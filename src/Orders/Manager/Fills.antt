-- ===== src/Orders/Manager/Fills.antt =====
-- A fill is applied once.
use aq_trading.Prelude.{
  ℕ, ◌≡◌, inl, inr, refl, ap, Bool-cases, true, Option, none, some, List, [], ◌∷◌, ◌++◌, arith,
}
use aq_trading.Prelude.Dict.{contains}
use aq_trading.Prelude.Int.{ℤ}
use aq_trading.Portfolio.Repo.{Tables}
use aq_trading.Portfolio.Fill.{record_fill}
use aq_trading.Orders.Types.{OrderStatus, Signal, Order, OrderFill}
use aq_trading.Orders.Manager.{
  OrderManager, Begun, ignored, filling, failed, register, accept, refuse, begin_on, begin_with,
  begin_fill, order_of, remove, remove_filled, end_fill, end_begun, end_on, handle_fill,
  persist_order, portfolio_fill,
}

-- The fill is noted as processed.
abbrev pub noted : OrderFill → OrderManager → OrderManager
noted f s = record s { processed_fills = f.fill_id ∷ s.processed_fills }

remove-processed :
    (o : Order) (s : OrderManager) → (remove o s).0.processed_fills ≡ s.processed_fills
unfolding remove
remove-processed o s = ground arith

remove_filled-processed :
    (status : OrderStatus) (o : Order) (s : OrderManager)
    → (remove_filled status o s).0.processed_fills ≡ s.processed_fills
unfolding remove_filled
remove_filled-processed status o s = ground (arith, remove-processed o s)

end_on-processed :
    (f : OrderFill) (o : Order) (t : Option Tables) (s : OrderManager)
    → (end_on f o t s).0.processed_fills ≡ s.processed_fills
unfolding end_on persist_order
end_on-processed f o none s = refl
end_on-processed f o (some t) s =
    remove_filled-processed o.status o
      (persist_order o (record s { portfolio = t; published = s.published ++ f ∷ [] }))

begin_with-processed :
    (f : OrderFill) (now : ℕ) (o : Order) (avg : Option ℤ) (s : OrderManager)
    → (begin_with f now o avg s).0.processed_fills ≡ s.processed_fills
unfolding begin_with
begin_with-processed f now o none s = refl
begin_with-processed f now o (some avg) s = refl

module _ (divide : ℤ → ℤ → ℤ) where
  -- What happens to the manager: the parts of `process_signal`, a whole `handle_fill`, and its two parts.
  pub data Event : Type 0 where
    registers : Signal → ℕ → ℕ → Event
    accepts : Order → ℕ → ℕ → Event
    refuses : Order → ℕ → ℕ → Event
    handles : OrderFill → ℕ → Event
    begins : OrderFill → ℕ → Event
    ends : OrderFill → Order → Event

  unfoldable pub step : Event → OrderManager → OrderManager
  step (registers signal order_id now) s = register signal order_id now s
  step (accepts o broker_id now) s = accept o broker_id now s
  step (refuses o error now) s = refuse o error now s
  step (handles f now) s = (handle_fill divide f now s).0
  step (begins f now) s = (begin_fill divide f now s).0
  step (ends f o) s = (end_fill divide f o s).0

  unfoldable pub run : List Event → OrderManager → OrderManager
  unfolding step
  run [] s = s
  run (e ∷ es) s = run es (step e s)

  begin_on-processed :
      (f : OrderFill) (now : ℕ) (o : Option Order) (s : OrderManager)
      → (begin_on divide f now o s).0.processed_fills ≡ s.processed_fills
  unfolding begin_on
  begin_on-processed f now none s = refl
  begin_on-processed f now (some o) s = begin_with-processed f now o _ s

  begin_fill-processed :
      (f : OrderFill) (now : ℕ) (s : OrderManager) (k : ℕ)
      → contains k s.processed_fills ≡ true
      → contains k (begin_fill divide f now s).0.processed_fills ≡ true
  unfolding begin_fill
  begin_fill-processed f now s k h = elim (Bool-cases (contains f.fill_id s.processed_fills)) [
    | inl known ↦ rw known h
    | inr fresh ↦
        rw (fresh, begin_on-processed f now (order_of f s) (noted f s)) (ground (arith, h))
  ]

  begin_fill-adds :
      (f : OrderFill) (now : ℕ) (s : OrderManager)
      → contains f.fill_id (begin_fill divide f now s).0.processed_fills ≡ true
  unfolding begin_fill
  begin_fill-adds f now s = elim (Bool-cases (contains f.fill_id s.processed_fills)) [
    | inl known ↦ rw known known
    | inr fresh ↦ rw (fresh, begin_on-processed f now (order_of f s) (noted f s)) (ground arith)
  ]

  begin_fill-noted :
      (f : OrderFill) (now : ℕ) (s : OrderManager)
      → contains f.fill_id s.processed_fills ≡ true
      → begin_fill divide f now s ≡ (s, ignored)
  unfolding begin_fill
  begin_fill-noted f now s h = rw h refl

  end_fill-processed :
      (f : OrderFill) (o : Order) (s : OrderManager)
      → (end_fill divide f o s).0.processed_fills ≡ s.processed_fills
  unfolding end_fill
  end_fill-processed f o s =
      end_on-processed f o (record_fill divide (portfolio_fill s.account_id o f) s.portfolio) s

  end_begun-processed :
      (f : OrderFill) (s : OrderManager) (b : Begun)
      → (end_begun divide f (s, b)).0.processed_fills ≡ s.processed_fills
  unfolding end_begun
  end_begun-processed f s ignored = refl
  end_begun-processed f s (filling o) = end_fill-processed f o s
  end_begun-processed f s (failed error) = refl

  handle_fill-processed :
      (f : OrderFill) (now : ℕ) (s : OrderManager)
      → (handle_fill divide f now s).0.processed_fills
        ≡ (begin_fill divide f now s).0.processed_fills
  unfolding handle_fill
  handle_fill-processed f now s =
      end_begun-processed f (begin_fill divide f now s).0 (begin_fill divide f now s).1

  step-processed :
      (e : Event) (s : OrderManager) (k : ℕ)
      → contains k s.processed_fills ≡ true
      → contains k (step e s).processed_fills ≡ true
  unfolding step register accept refuse persist_order
  step-processed (registers signal order_id now) s k h = h
  step-processed (accepts o broker_id now) s k h = h
  step-processed (refuses o error now) s k h = h
  step-processed (handles f now) s k h =
      rw (handle_fill-processed f now s) (begin_fill-processed f now s k h)
  step-processed (begins f now) s k h = begin_fill-processed f now s k h
  step-processed (ends f o) s k h = rw (end_fill-processed f o s) h

  run-processed :
      (es : List Event) (s : OrderManager) (k : ℕ)
      → contains k s.processed_fills ≡ true
      → contains k (run es s).processed_fills ≡ true
  unfolding run
  run-processed [] s k h = h
  run-processed (e ∷ es) s k h = run-processed es (step e s) k (step-processed e s k h)

  -- Once a call for a fill has begun, every later call with the same fill id, after whatever else has happened to
  -- the manager and even before the first call has ended, leaves the manager as it is and raises nothing.
  pub duplicate_ignored :
      (f again : OrderFill) (now later : ℕ) (es : List Event) (s : OrderManager)
      → again.fill_id ≡ f.fill_id
      → handle_fill divide again later (run es (begin_fill divide f now s).0)
        ≡ (run es (begin_fill divide f now s).0, none)
  unfolding handle_fill end_begun
  duplicate_ignored f again now later es s same = ap (end_begun divide again) (
      begin_fill-noted again later _
        (rw same (run-processed es _ f.fill_id (begin_fill-adds f now s))))

  -- The same where the order of the fill is accepted in between.
  pub duplicate_after_accept :
      (f : OrderFill) (now later at : ℕ) (o : Order) (s : OrderManager)
      → let accepted = accept o f.order_id at (begin_fill divide f now s).0 in
        handle_fill divide f later accepted ≡ (accepted, none)
  unfolding run step
  duplicate_after_accept f now later at o s =
      duplicate_ignored f f now later (accepts o f.order_id at ∷ []) s refl
