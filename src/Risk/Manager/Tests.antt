-- ===== src/Risk/Manager/Tests.antt =====
-- Evaluations of signals, and an order at the gate.
use aq_trading.Prelude.{◌≡◌, refl, true, false, none, some, [], ◌∷◌, All, arith}
use aq_trading.Prelude.Dict.{contains}
use aq_trading.Prelude.Int.{pos, negsuc, ◌+ℤ◌, ◌-ℤ◌, ◌*ℤ◌, ◌≤ℤ◌}
use aq_trading.Prelude.Result.{ok}
use aq_trading.Risk.Gate.{GateConfig, fail_closed, CurrentGreeks, check_order}
use aq_trading.Risk.Gate.Closed.{IsChecked, check_order-IsChecked}
use aq_trading.Risk.Manager.{
  buy, Signal, RiskConfig, Account, Holdings, RiskState, kill_switch, rejected, within_pct,
  check_symbol_allowed, evaluate,
}
use aq_trading.Risk.Manager.Limits.{
  WithinPortfolio, peak_with, evaluate_approves, within_pct_of_debt,
}
use aq_trading.Risk.Manager.Kills.{Query, evaluate_query, evaluate_all, loss_stops-All}

abbrev config : RiskConfig
config = record {
  max_position_value = pos 10000;
  max_position_pct = pos 5;
  max_quantity_per_order = 500;
  max_positions = 20;
  max_exposure_pct = pos 80;
  daily_loss_limit = pos 1000;
  max_drawdown_pct = pos 10;
  blocked_symbols = [];
  allowed_symbols = [];
}

abbrev an_account : Account
an_account = record { total_equity = pos 100000; buying_power = pos 50000 }

abbrev holdings : Holdings
holdings = record {
  account = some an_account;
  market_values = pos 20000 ∷ [];
  has_position = false;
}

abbrev a_signal : Signal
a_signal = record { strategy_id = 1; symbol = 2; action = buy; quantity = pos 10 }

abbrev started : RiskState
started = record {
  kill_reason = none;
  killed = false;
  paused_strategies = [];
  daily_pnl = pos 0;
  peak_equity = pos 0;
  last_greeks_check = none;
}

evaluate_approves_example :
    (started.killed ≡ false)
    × (contains 1 started.paused_strategies ≡ false)
    × (check_symbol_allowed 1 config a_signal ≡ true)
    × WithinPortfolio 1 config none holdings an_account a_signal
    × (pos 0 -ℤ config.daily_loss_limit ≤ℤ started.daily_pnl)
    × ((peak_with 1 config none holdings started an_account -ℤ an_account.total_equity) *ℤ pos 100
        ≤ℤ config.max_drawdown_pct *ℤ peak_with 1 config none holdings started an_account)
unfolding evaluate ◌*ℤ◌ ◌+ℤ◌ ◌-ℤ◌
evaluate_approves_example =
    evaluate_approves 1 config none holdings none a_signal an_account started refl refl
      (ground arith) refl

-- A day's loss beyond the limit.
abbrev lost : RiskState
lost = record started { daily_pnl = negsuc 1999 }

abbrev a_query : Query
a_query = record { redis = none; holdings = holdings; greeks = none; signal = a_signal }

loss_stops-All_example :
    All
      (λ v. v ≡ ok (rejected kill_switch))
      (evaluate_all 1 config (a_query ∷ a_query ∷ []) (evaluate_query 1 config a_query lost).0)
unfolding evaluate_query ◌*ℤ◌ ◌+ℤ◌ ◌-ℤ◌
loss_stops-All_example = loss_stops-All 1 config a_query (a_query ∷ a_query ∷ []) lost refl

within_pct_of_debt_example : within_pct (pos 50000) (negsuc 999) (pos 80) 1 ≡ ok true
within_pct_of_debt_example = within_pct_of_debt 50000 999 80 1

abbrev gate : GateConfig
gate = record {
  max_staleness_seconds = 60;
  fail_mode = fail_closed;
  hard_limits = λ g. some (pos 200);
}

abbrev current : CurrentGreeks
current = record { staleness = 5; value = λ g. pos 100 }

check_order-IsChecked_example : IsChecked gate (λ g. some (pos 50)) (some current)
unfolding check_order ◌+ℤ◌
check_order-IsChecked_example =
    check_order-IsChecked gate (λ g. some (pos 50)) (some current) refl refl
