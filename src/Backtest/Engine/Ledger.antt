-- ===== src/Backtest/Engine/Ledger.antt =====
-- The cash and the position of a simulation, against its trades.
use aq_trading.Prelude.{
  some_injective, ◌≡◌, inl, inr, refl, sym, subst, ◌∙◌, ap, true, false, Option, none, some, List,
  [], ◌∷◌, ◌++◌, leb, Bool-cases, Option-cases,
}
use aq_trading.Prelude.Int.{ℤ, pos, ◌+ℤ◌, ◌-ℤ◌, ◌*ℤ◌, int_laws}
use aq_trading.Prelude.Int.Ring.{cross}
use aq_trading.Portfolio.Repo.{Side, buy, sell}
use aq_trading.Backtest.Portfolio.{
  Bar, Signal, Trade, BacktestPortfolio, apply_trade, execute, average_cost, bought_at, apply_sell,
  apply_trade_on,
}
use aq_trading.Backtest.Engine.{
  BacktestConfig, Loop, allowed, keep_trade, execute_signal, execute_pending, observe, run,
}

abbrev flow_of : Side → Trade → ℤ
flow_of buy t = pos 0 -ℤ (t.fill_price *ℤ t.quantity +ℤ t.commission)
flow_of sell t = t.fill_price *ℤ t.quantity -ℤ t.commission

abbrev shares_of : Side → Trade → ℤ
shares_of buy t = t.quantity
shares_of sell t = pos 0 -ℤ t.quantity

-- What a trade does to the cash and to the position.
abbrev pub cash_flow : Trade → ℤ
cash_flow t = flow_of t.side t

abbrev pub shares : Trade → ℤ
shares t = shares_of t.side t

abbrev pub total : (Trade → ℤ) → List Trade → ℤ
total f [] = pos 0
total f (t ∷ ts) = f t +ℤ total f ts

total_snoc :
    (f : Trade → ℤ) (ts : List Trade) (t : Trade) → total f (ts ++ t ∷ []) ≡ total f ts +ℤ f t
total_snoc f [] t = omega int_laws
total_snoc f (u ∷ ts) t = omega (int_laws, cross (total_snoc f ts t))

-- `p` after a trade of a side, as far as its cash and its shares go.
abbrev Moves : Side → Trade → BacktestPortfolio → BacktestPortfolio → Type 0
Moves side t p p' =
    (p'.cash ≡ p.cash +ℤ flow_of side t) × (p'.position_qty ≡ p.position_qty +ℤ shares_of side t)

bought_at-Moves :
    (t : Trade) (avg : Option ℤ) (p p' : BacktestPortfolio)
    → bought_at t avg p ≡ some p'
    → Moves buy t p p'
unfolding bought_at
bought_at-Moves t none p p' e = (cc, cc)
bought_at-Moves t (some avg) p p' e =
    let same = some_injective e in
    (
      ap (λ (q : BacktestPortfolio). q.cash) (sym same) ∙ omega int_laws,
      ap (λ (q : BacktestPortfolio). q.position_qty) (sym same),
    )

module _ (divide : ℤ → ℤ → ℤ) where
  apply_trade_on-Moves :
      (side : Side) (t : Trade) (p p' : BacktestPortfolio)
      → apply_trade_on divide side t p ≡ some p'
      → Moves side t p p'
  unfolding apply_trade_on apply_sell
  apply_trade_on-Moves buy t p p' e = bought_at-Moves t (average_cost divide t p) p p' e
  apply_trade_on-Moves sell t p p' e =
      let same = some_injective e in
      (
        ap (λ (q : BacktestPortfolio). q.cash) (sym same),
        ap (λ (q : BacktestPortfolio). q.position_qty) (sym same) ∙ omega int_laws,
      )

  pub apply_trade-Moves :
      (t : Trade) (p p' : BacktestPortfolio)
      → apply_trade divide t p ≡ some p'
      → (p'.cash ≡ p.cash +ℤ cash_flow t) × (p'.position_qty ≡ p.position_qty +ℤ shares t)
  unfolding apply_trade
  apply_trade-Moves t p p' e = apply_trade_on-Moves t.side t p p' e

module _ {State : Type 0} (divide : ℤ → ℤ → ℤ) (config : BacktestConfig) where
  -- The cash is the initial capital and what the trades moved, and so is the position.
  abbrev pub IsBooked : Loop State → Type 0
  IsBooked l =
      (l.portfolio.cash ≡ config.initial_capital +ℤ total cash_flow l.trades)
      × (l.portfolio.position_qty ≡ total shares l.trades)

  keep_trade-IsBooked :
      (t : Trade) (l : Loop State) (p : Option BacktestPortfolio) (l' : Loop State)
      → apply_trade divide t l.portfolio ≡ p
      → keep_trade divide config t p l ≡ some l'
      → IsBooked l
      → IsBooked l'
  unfolding keep_trade
  keep_trade-IsBooked t l none l' applied e h = (cc, cc)
  keep_trade-IsBooked t l (some p) l' applied e h =
      let m = apply_trade-Moves divide t l.portfolio p applied in
      subst IsBooked (some_injective e) (
        omega (int_laws, cross m.0, cross h.0, cross (total_snoc cash_flow l.trades t)),
        omega (int_laws, cross m.1, cross h.1, cross (total_snoc shares l.trades t)),
      )

  module _ (s : Signal) (bar : Bar) (l : Loop State) where
    abbrev pub trade_of : Trade
    trade_of = execute divide config.slippage_bps config.commission_per_share s bar

    pub execute_signal-taken :
        allowed config s.action s bar l.portfolio ≡ true
        → execute_signal divide config s bar l
          ≡ keep_trade divide config trade_of (apply_trade divide trade_of l.portfolio) l
    unfolding execute_signal
    execute_signal-taken taken = rw taken refl

    pub execute_signal-refused :
        allowed config s.action s bar l.portfolio ≡ false
        → execute_signal divide config s bar l ≡ some (record l { pending_signal = none })
    unfolding execute_signal
    execute_signal-refused refused = rw refused refl

    execute_signal-IsBooked :
        (l' : Loop State)
        → execute_signal divide config s bar l ≡ some l'
        → IsBooked l
        → IsBooked l'
    execute_signal-IsBooked l' e h = elim (Bool-cases (allowed config s.action s bar l.portfolio)) [
      | inl taken ↦
          keep_trade-IsBooked trade_of l (apply_trade divide trade_of l.portfolio) l' refl
            (sym (execute_signal-taken taken) ∙ e) h
      | inr refused ↦ subst IsBooked (some_injective (sym (execute_signal-refused refused) ∙ e)) h
    ]

    pub execute_pending-early :
        leb config.start_date bar.date ≡ false
        → execute_pending divide config (some s) bar l ≡ some l
    unfolding execute_pending
    execute_pending-early early = rw early refl

    pub execute_pending-due :
        leb config.start_date bar.date ≡ true
        → execute_pending divide config (some s) bar l ≡ execute_signal divide config s bar l
    unfolding execute_pending
    execute_pending-due due = rw due refl

  execute_pending-IsBooked :
      (pending : Option Signal) (bar : Bar) (l l' : Loop State)
      → execute_pending divide config pending bar l ≡ some l'
      → IsBooked l
      → IsBooked l'
  unfolding execute_pending
  execute_pending-IsBooked none bar l l' e h = subst IsBooked (some_injective e) h
  execute_pending-IsBooked (some s) bar l l' e h =
      elim (Bool-cases (leb config.start_date bar.date)) [
        | inl due ↦ execute_signal-IsBooked s bar l l' (sym (execute_pending-due s bar l due) ∙ e) h
        | inr early ↦
            subst IsBooked (some_injective (sym (execute_pending-early s bar l early) ∙ e)) h
      ]

  module _ (on_market_data : Bar → BacktestPortfolio → State → State × List Signal) where
    pub run-executed :
        (bar : Bar) (bars : List Bar) (l m : Loop State)
        → execute_pending divide config l.pending_signal bar l ≡ some m
        → run divide config on_market_data (bar ∷ bars) l
          ≡ run divide config on_market_data bars (observe divide config on_market_data bar m)
    unfolding run
    run-executed bar bars l m executed = rw (run, executed) refl

    run-raised :
        (bar : Bar) (bars : List Bar) (l : Loop State)
        → execute_pending divide config l.pending_signal bar l ≡ none
        → run divide config on_market_data (bar ∷ bars) l ≡ none
    unfolding run
    run-raised bar bars l raised = rw (run, raised) refl

    -- A run of the loop that ends keeps the books, whatever the strategy does: where the cash is the initial capital
    -- and the money that the listed trades moved, prices with slippage and commissions included, and the position
    -- is the sum of their shares, both are so again at the end.
    pub run-IsBooked :
        (bars : List Bar) (l l' : Loop State)
        → run divide config on_market_data bars l ≡ some l'
        → IsBooked l
        → IsBooked l'
    unfolding run observe
    run-IsBooked [] l l' e h = subst IsBooked (some_injective e) h
    run-IsBooked (bar ∷ bars) l l' e h =
        elim (Option-cases (execute_pending divide config l.pending_signal bar l)) [
          | inl raised ↦ let never = sym (run-raised bar bars l raised) ∙ e in (cc, cc)
          | inr (m, executed) ↦
              run-IsBooked bars (observe divide config on_market_data bar m) l'
                (sym (run-executed bar bars l m executed) ∙ e)
                (execute_pending-IsBooked l.pending_signal bar l m executed h)
        ]
