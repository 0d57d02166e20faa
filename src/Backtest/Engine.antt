-- ===== src/Backtest/Engine.antt =====
-- The event loop of `BacktestEngine.run` in backend/src/backtest/engine.py. The strategy is a function of its
-- own state, the bar and the portfolio that the context shows it; the dates of bars are days. Traces and
-- attribution are left out: they read the trades and change none of what is here.
pub mod Ledger
pub mod Long
use aq_trading.Prelude.{
  ℕ, Bool, true, false, Option, none, some, List, [], ◌∷◌, ◌++◌, if◌then◌else◌, leb, or_else,
}
use aq_trading.Prelude.Int.{ℤ, ◌*ℤ◌}
use aq_trading.Portfolio.Repo.{Side, buy, sell}
use aq_trading.Backtest.Portfolio.{
  Bar, Signal, Trade, BacktestPortfolio, new, equity, can_buy, can_sell, apply_trade, execute,
}

pub record BacktestConfig : Type 0 where
  pub start_date : ℕ
  pub initial_capital : ℤ
  pub slippage_bps : ℤ
  pub commission_per_share : ℤ

pub record Loop (State : Type 0) : Type 0 where
  pub portfolio : BacktestPortfolio
  pub strategy : State
  pub pending_signal : Option Signal
  pub trades : List Trade
  pub equity_curve : List (ℕ × ℤ)
  pub first_signal_bar : Option ℕ

-- The signal that waits after a bar's signals.
unfoldable pub capture : List Signal → Option Signal → Option Signal
capture [] pending = pending
capture (s ∷ rest) pending = some s

-- Whether the portfolio takes a signal of a side at the bar's open.
unfoldable pub allowed : BacktestConfig → Side → Signal → Bar → BacktestPortfolio → Bool
unfolding can_buy can_sell
allowed config buy s bar p =
    can_buy bar.open_price s.quantity (config.commission_per_share *ℤ s.quantity) p
allowed config sell s bar p = can_sell s.quantity p

module _ {State : Type 0} (divide : ℤ → ℤ → ℤ) (config : BacktestConfig) where
  -- A trade that is applied is kept; `none` is the exception of the portfolio.
  unfoldable pub keep_trade : Trade → Option BacktestPortfolio → Loop State → Option (Loop State)
  keep_trade t none l = none
  keep_trade t (some p) l =
      some (record l { portfolio = p; pending_signal = none; trades = l.trades ++ t ∷ [] })

  unfoldable pub execute_signal : Signal → Bar → Loop State → Option (Loop State)
  unfolding allowed keep_trade
  execute_signal s bar l =
      let t = execute divide config.slippage_bps config.commission_per_share s bar in
      let traded = keep_trade t (apply_trade divide t l.portfolio) l in
      if allowed config s.action s bar l.portfolio
      then traded
      else some (record l { pending_signal = none })

  -- A signal waits through the warm-up; from the start date on it is executed at the open of the next bar.
  unfoldable pub execute_pending : Option Signal → Bar → Loop State → Option (Loop State)
  unfolding execute_signal
  execute_pending none bar l = some l
  execute_pending (some s) bar l =
      let executed = execute_signal s bar l in
      if leb config.start_date bar.date then executed else some l

  module _ (on_market_data : Bar → BacktestPortfolio → State → State × List Signal) where
    -- The rest of the loop's body, after the pending signal.
    unfoldable pub observe : Bar → Loop State → Loop State
    unfolding capture
    observe bar l =
        let (state, signals) = on_market_data bar l.portfolio l.strategy in
        let point : ℕ × ℤ = (bar.date, equity bar.close_price l.portfolio) in
        record l {
          strategy = state;
          pending_signal = capture signals l.pending_signal;
          first_signal_bar = elim signals [
            | [] ↦ l.first_signal_bar
            | _ ∷ _ ↦ some (or_else l.first_signal_bar bar.date)
          ];
          equity_curve =
              (if leb config.start_date bar.date
                then l.equity_curve ++ point ∷ []
                else l.equity_curve);
        }

    unfoldable pub run : List Bar → Loop State → Option (Loop State)
    unfolding execute_pending observe
    run [] l = some l
    run (bar ∷ bars) l = elim (execute_pending l.pending_signal bar l) [
      | none ↦ none
      | some l' ↦ run bars (observe bar l')
    ]

    unfoldable pub start : State → Loop State
    unfolding new
    start state = record {
      portfolio = new config.initial_capital;
      strategy = state;
      pending_signal = none;
      trades = [];
      equity_curve = [];
      first_signal_bar = none;
    }
