-- ===== src/Backtest/Engine/Long.antt =====
-- The position is never short, and how far the cash may be overdrawn.
use aq_trading.Prelude.{
  some_injective, ◌≡◌, inl, inr, refl, sym, subst, true, false, Option, none, some, List, [], ◌∷◌,
  All, leb, arith, Bool-cases,
}
use aq_trading.Prelude.Int.{ℤ, pos, ◌+ℤ◌, ◌-ℤ◌, ◌*ℤ◌, ◌≤ℤ◌, leb_ℤ, eqb_ℤ, int_laws, +ℤ_parts}
use aq_trading.Prelude.Int.Ring.{cross, +ℤ-*ℤ}
use aq_trading.Portfolio.Repo.{Side, buy, sell}
use aq_trading.Backtest.Portfolio.{
  Bar, Signal, Trade, BacktestPortfolio, can_buy, can_sell, apply_trade, execute, fill_price_of,
  average_cost, bought_at, apply_sell, apply_trade_on,
}
use aq_trading.Backtest.Engine.{
  BacktestConfig, Loop, capture, allowed, keep_trade, execute_signal, execute_pending, observe, run,
}
use aq_trading.Backtest.Engine.Ledger.{
  trade_of, apply_trade-Moves, execute_signal-taken, execute_signal-refused, execute_pending-early,
  execute_pending-due, run-executed,
}

abbrev pub IsOrderable : Signal → Type 0
IsOrderable s = pos 0 ≤ℤ s.quantity

abbrev pub IsPending : Option Signal → Type 0
IsPending none = Unit
IsPending (some s) = IsOrderable s

-- The position is not short, and the signal that waits has a quantity that is not negative.
abbrev pub IsLong : {State : Type 0} → Loop State → Type 0
IsLong l = (pos 0 ≤ℤ l.portfolio.position_qty) × IsPending l.pending_signal

-- A portfolio that a trade leaves, not short.
abbrev Survives : Option BacktestPortfolio → Type 0
Survives r = (p' : BacktestPortfolio) × ((r ≡ some p') × (pos 0 ≤ℤ p'.position_qty))

bought_at-Survives :
    (t : Trade) (avg : ℤ) (p : BacktestPortfolio)
    → pos 0 ≤ℤ t.quantity
    → pos 0 ≤ℤ p.position_qty
    → Survives (bought_at t (some avg) p)
unfolding bought_at
bought_at-Survives t avg p bought long = (_, (refl, omega (int_laws)))

-- Where the portfolio allows a trade of the side.
abbrev Allowed : Side → Trade → BacktestPortfolio → Type 0
Allowed buy t p = Unit
Allowed sell t p = t.quantity ≤ℤ p.position_qty

grown :
    (a b : ℤ) → pos 0 ≤ℤ a → pos 0 ≤ℤ b → eqb_ℤ a (pos 0) ≡ false → eqb_ℤ (a +ℤ b) (pos 0) ≡ false
grown a b ha hb nonzero = ground (arith, +ℤ_parts a b)

module _ (divide : ℤ → ℤ → ℤ) where
  average_cost-some :
      (t : Trade) (p : BacktestPortfolio)
      → pos 0 ≤ℤ t.quantity
      → pos 0 ≤ℤ p.position_qty
      → (avg : ℤ) × (average_cost divide t p ≡ some avg)
  unfolding average_cost
  average_cost-some t p bought long = elim (Bool-cases (eqb_ℤ p.position_qty (pos 0))) [
    | inl flat ↦ (t.fill_price, rw flat refl)
    | inr held ↦ (
      divide (p.position_qty *ℤ p.position_avg_cost +ℤ t.quantity *ℤ t.fill_price)
          (p.position_qty +ℤ t.quantity),
      rw (held, grown p.position_qty t.quantity long bought held) refl,
    )
  ]

  apply_trade_on-Survives :
      (side : Side) (t : Trade) (p : BacktestPortfolio)
      → Allowed side t p
      → pos 0 ≤ℤ t.quantity
      → pos 0 ≤ℤ p.position_qty
      → Survives (apply_trade_on divide side t p)
  unfolding apply_trade_on apply_sell
  apply_trade_on-Survives buy t p can some_traded long =
      let (avg, e) = average_cost-some t p some_traded long in
      rw e (bought_at-Survives t avg p some_traded long)
  apply_trade_on-Survives sell t p can some_traded long = (_, (refl, omega int_laws))

  apply_trade-Survives :
      (t : Trade) (p : BacktestPortfolio)
      → Allowed t.side t p
      → pos 0 ≤ℤ t.quantity
      → pos 0 ≤ℤ p.position_qty
      → Survives (apply_trade divide t p)
  unfolding apply_trade
  apply_trade-Survives t p can some_traded long =
      apply_trade_on-Survives t.side t p can some_traded long

  module _ (config : BacktestConfig) where
    allowed-Allowed :
        (side : Side) (s : Signal) (bar : Bar) (t : Trade) (p : BacktestPortfolio)
        → t.quantity ≡ s.quantity
        → allowed config side s bar p ≡ true
        → Allowed side t p
    unfolding allowed can_sell
    allowed-Allowed buy s bar t p same taken = tt
    allowed-Allowed sell s bar t p same taken = ground (arith, taken, same)

leb_ℤ→le : (a b : ℤ) → leb_ℤ a b ≡ true → a ≤ℤ b
leb_ℤ→le a b h = ground arith

overdraft :
    (cash cash' gross slippage quantity commission : ℤ)
    → leb_ℤ (gross *ℤ quantity +ℤ commission) cash ≡ true
    → cash' ≡ cash +ℤ (pos 0 -ℤ ((gross +ℤ slippage) *ℤ quantity +ℤ commission))
    → pos 0 ≤ℤ cash' +ℤ slippage *ℤ quantity
overdraft cash cash' gross slippage quantity commission covered moved = omega (
  int_laws,
  cross moved,
  cross (+ℤ-*ℤ gross slippage quantity),
  leb_ℤ→le (gross *ℤ quantity +ℤ commission) cash covered,
)

module _ {State : Type 0} (divide : ℤ → ℤ → ℤ) (config : BacktestConfig) where
  -- A loop that has gone on, long as before.
  abbrev pub GoesOn : Option (Loop State) → Type 0
  GoesOn r = (l' : Loop State) × ((r ≡ some l') × IsLong l')

  keep_trade-GoesOn :
      (t : Trade) (r : Option BacktestPortfolio) (l : Loop State)
      → Survives r
      → GoesOn (keep_trade divide config t r l)
  unfolding keep_trade
  keep_trade-GoesOn t none l (p', (e, long)) = absurd (cc)
  keep_trade-GoesOn t (some p) l (p', (e, long)) = (
    _,
    (
      refl,
      (
        subst (λ (q : BacktestPortfolio). pos 0 ≤ℤ q.position_qty) (sym (some_injective e)) long,
        tt,
      ),
    ),
  )

  traded :
      (s : Signal) (bar : Bar) (l : Loop State)
      → IsOrderable s
      → pos 0 ≤ℤ l.portfolio.position_qty
      → allowed config s.action s bar l.portfolio ≡ true
      → Survives (apply_trade divide (trade_of divide config s bar l) l.portfolio)
  unfolding execute
  traded s bar l orderable long taken =
      let t = trade_of divide config s bar l in
      apply_trade-Survives divide t l.portfolio
        (allowed-Allowed divide config s.action s bar t l.portfolio refl taken) orderable long

  execute_signal-GoesOn :
      (s : Signal) (bar : Bar) (l : Loop State)
      → IsOrderable s
      → pos 0 ≤ℤ l.portfolio.position_qty
      → GoesOn (execute_signal divide config s bar l)
  execute_signal-GoesOn s bar l orderable long =
      elim (Bool-cases (allowed config s.action s bar l.portfolio)) [
        | inl taken ↦
            let t = trade_of divide config s bar l in
            rw (execute_signal-taken divide config s bar l taken) (
              keep_trade-GoesOn t (apply_trade divide t l.portfolio) l
                (traded s bar l orderable long taken))
        | inr refused ↦ (_, (execute_signal-refused divide config s bar l refused, (long, tt)))
      ]

  execute_pending-GoesOn :
      (pending : Option Signal) (bar : Bar) (l : Loop State)
      → IsPending pending
      → l.pending_signal ≡ pending
      → pos 0 ≤ℤ l.portfolio.position_qty
      → GoesOn (execute_pending divide config pending bar l)
  unfolding execute_pending
  execute_pending-GoesOn none bar l orderable is long =
      (l, (refl, (long, subst IsPending (sym is) tt)))
  execute_pending-GoesOn (some s) bar l orderable is long =
      elim (Bool-cases (leb config.start_date bar.date)) [
        | inl due ↦
            rw (execute_pending-due divide config s bar l due)
              (execute_signal-GoesOn s bar l orderable long)
        | inr early ↦ (
          l,
          (
            execute_pending-early divide config s bar l early,
            (long, subst IsPending (sym is) orderable),
          ),
        )
      ]

  module _ (on_market_data : Bar → BacktestPortfolio → State → State × List Signal) where
    -- Every signal of the strategy has a quantity that is not negative.
    abbrev pub OrdersShares : Type 0
    OrdersShares =
        (bar : Bar) (p : BacktestPortfolio) (state : State)
        → All IsOrderable (on_market_data bar p state).1

    capture-IsPending :
        (signals : List Signal) (pending : Option Signal)
        → All IsOrderable signals
        → IsPending pending
        → IsPending (capture signals pending)
    unfolding capture
    capture-IsPending [] pending all h = h
    capture-IsPending (s ∷ rest) pending all h = all.0

    observe-IsLong :
        (bar : Bar) (l : Loop State)
        → OrdersShares
        → IsLong l
        → IsLong (observe divide config on_market_data bar l)
    unfolding observe
    observe-IsLong bar l orders (long, pending) =
        (long, capture-IsPending _ l.pending_signal (orders bar l.portfolio l.strategy) pending)

    -- With a strategy whose signals have quantities that are not negative, the loop ends over any bars without an
    -- exception, from any state that is not short; and the position at its end is not short.
    pub run-GoesOn :
        (bars : List Bar) (l : Loop State)
        → OrdersShares
        → IsLong l
        → GoesOn (run divide config on_market_data bars l)
    unfolding run
    run-GoesOn [] l orders h = (l, (refl, h))
    run-GoesOn (bar ∷ bars) l orders (long, pending) =
        let (m, (executed, h)) = execute_pending-GoesOn l.pending_signal bar l pending refl long in
        rw (run-executed divide config on_market_data bar bars l m executed) (
          run-GoesOn bars (observe divide config on_market_data bar m) orders
            (observe-IsLong bar m orders h))

  -- A buy that the portfolio allows and that is then applied leaves a cash that, with the slippage on the bought
  -- shares added, is not negative: the guard looks at the open without slippage, so the cash itself can fall
  -- below zero, and by no more than that slippage.
  pub buy-overdraft :
      (s : Signal) (bar : Bar) (l : Loop State) (p' : BacktestPortfolio)
      → s.action ≡ buy
      → allowed config s.action s bar l.portfolio ≡ true
      → apply_trade divide (trade_of divide config s bar l) l.portfolio ≡ some p'
      → let t = trade_of divide config s bar l in pos 0 ≤ℤ p'.cash +ℤ t.slippage *ℤ t.quantity
  unfolding allowed can_buy execute fill_price_of
  buy-overdraft s bar l p' is_buy taken applied =
      let t = trade_of divide config s bar l in
      overdraft l.portfolio.cash p'.cash bar.open_price t.slippage s.quantity
        (config.commission_per_share *ℤ s.quantity) (rw is_buy at taken)
        (rw is_buy at (apply_trade-Moves divide t l.portfolio p' applied).0)
