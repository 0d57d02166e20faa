-- ===== src/Backtest/Tests.antt =====
-- A simulation at concrete inputs.
use aq_trading.Prelude.{
  ℕ, suc, ◌/◌, ◌≡◌, inl, inr, Bool-cases, refl, true, none, some, List, [], ◌∷◌, ◌==◌,
  if◌then◌else◌, arith,
}
use aq_trading.Prelude.Int.{ℤ, pos, negsuc, ◌+ℤ◌, ◌-ℤ◌, ◌*ℤ◌, ◌≤ℤ◌}
use aq_trading.Portfolio.Repo.{buy}
use aq_trading.Backtest.Portfolio.{Bar, Signal, BacktestPortfolio, apply_trade, execute, equity}
use aq_trading.Backtest.Engine.{BacktestConfig, Loop, allowed, run, start}
use aq_trading.Backtest.Engine.Ledger.{IsBooked, trade_of, run-IsBooked}
use aq_trading.Backtest.Engine.Long.{OrdersShares, GoesOn, run-GoesOn, buy-overdraft}

abbrev divide : ℤ → ℤ → ℤ
divide (pos a) (pos b) = pos (a / b)
divide a b = pos 0

abbrev config : BacktestConfig
config = record {
  start_date = 1;
  initial_capital = pos 1000;
  slippage_bps = pos 100;
  commission_per_share = pos 1;
}

abbrev day : ℕ → Bar
day n = record { symbol = 7; date = n; open_price = pos 100; close_price = pos 100 }

abbrev order : ℤ → Signal
order quantity = record { symbol = 7; action = buy; quantity = quantity; date = 1 }

-- A strategy that buys five shares at its first bar.
abbrev buy_once : Bar → BacktestPortfolio → ℕ → ℕ × List Signal
buy_once bar p n = (suc n, if n == 0 then order (pos 5) ∷ [] else [])

abbrev bought : Loop ℕ
bought = record {
  portfolio = record { cash = pos 490; position_qty = pos 5; position_avg_cost = pos 101 };
  strategy = 2;
  pending_signal = none;
  trades =
      record {
        date = 2;
        symbol = 7;
        side = buy;
        quantity = pos 5;
        gross_price = pos 100;
        slippage = pos 1;
        commission = pos 5;
        signal_bar_date = 1;
        fill_price = pos 101;
      }
      ∷ [];
  equity_curve = (1, pos 1000) ∷ (2, pos 990) ∷ [];
  first_signal_bar = some 1;
}

abbrev beginning : Loop ℕ
beginning = start divide config buy_once 0

-- The signal of the first day is executed at the open of the second.
two_days : run divide config buy_once (day 1 ∷ day 2 ∷ []) beginning ≡ some bought
unfolding run start execute apply_trade allowed ◌+ℤ◌ ◌-ℤ◌ ◌*ℤ◌ equity
two_days = refl

run-IsBooked_example : IsBooked divide config bought
unfolding start ◌+ℤ◌
run-IsBooked_example =
    run-IsBooked divide config buy_once (day 1 ∷ day 2 ∷ []) beginning bought two_days (refl, refl)

buy_once-OrdersShares : OrdersShares divide config buy_once
buy_once-OrdersShares bar p n = elim (Bool-cases (n == 0)) [
  | inl first ↦ rw first (omega arith, tt)
  | inr later ↦ rw later tt
]

run-GoesOn_example :
    GoesOn divide config (run divide config buy_once (day 1 ∷ day 2 ∷ []) beginning)
unfolding start
run-GoesOn_example =
    run-GoesOn divide config buy_once (day 1 ∷ day 2 ∷ []) beginning buy_once-OrdersShares
      (omega arith, tt)

-- Cash for five shares at the open and the commission, and for no slippage.
abbrev tight : Loop ℕ
tight = record beginning {
  portfolio = record { cash = pos 505; position_qty = pos 0; position_avg_cost = pos 0 };
}

abbrev overdrawn : BacktestPortfolio
overdrawn = record { cash = negsuc 4; position_qty = pos 5; position_avg_cost = pos 101 }

covered : allowed config buy (order (pos 5)) (day 1) tight.portfolio ≡ true
unfolding allowed ◌+ℤ◌ ◌*ℤ◌
covered = refl

paid :
    apply_trade divide (trade_of divide config (order (pos 5)) (day 1) tight) tight.portfolio
    ≡ some overdrawn
unfolding apply_trade execute ◌+ℤ◌ ◌-ℤ◌ ◌*ℤ◌
paid = refl

buy-overdraft_example :
    let t = trade_of divide config (order (pos 5)) (day 1) tight in
    pos 0 ≤ℤ overdrawn.cash +ℤ t.slippage *ℤ t.quantity
buy-overdraft_example =
    buy-overdraft divide config (order (pos 5)) (day 1) tight overdrawn refl covered paid
