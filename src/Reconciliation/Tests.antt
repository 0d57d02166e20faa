-- ===== src/Reconciliation/Tests.antt =====
-- A comparison at concrete inputs.
use aq_trading.Prelude.{
  ℕ, zero, suc, ◌+◌, ◌≡◌, ◌↔◌, ◌/◌, refl, none, some, List, [], ◌∷◌, keep, arith,
}
use aq_trading.Prelude.Int.{ℤ, pos, negsuc, ◌≤ℤ◌, ◌<ℤ◌}
use aq_trading.Portfolio.Repo.{stock, Position}
use aq_trading.Reconciliation.Comparator.{
  Discrepancy, ReconciliationConfig, BrokerPosition, BrokerAccount, compare_positions,
}
use aq_trading.Reconciliation.Comparator.Reports.{
  is_about, last_row, wanted, local_row, broker_row, Agrees, Enumerates, compare_positions-reports,
  compare_positions-clean,
}

abbrev config : ReconciliationConfig
config = record { account_id = 1; cash_tolerance = pos 10000; equity_tolerance_pct = pos 1000 }

abbrev row : ℕ → ℤ → Position
row symbol quantity = record {
  account_id = 1;
  symbol = symbol;
  asset_type = stock;
  strategy_id = none;
  quantity = quantity;
  avg_cost = pos 50;
  current_price = pos 60;
  strike = none;
  expiry = none;
  put_call = none;
}

abbrev local : List Position
local = row 7 (pos 100) ∷ row 8 (pos 20) ∷ []

abbrev broker : List BrokerPosition
broker = record { symbol = 7; quantity = pos 90; avg_cost = pos 50 } ∷ []

-- The symbols of the two sides, in some order.
abbrev symbols : List ℕ
symbols = 8 ∷ 7 ∷ []

symbols-Enumerates : Enumerates config 5 symbols local broker
unfolding last_row
symbols-Enumerates = ((refl, (refl, tt)), (tt, (tt, tt)), λ k unknown. ground (arith, unknown))

compare_positions-reports_example :
    (ds : List Discrepancy) × (compare_positions config 5 symbols local broker ≡ some ds)
    × ((k : ℕ) → keep (is_about k) ds ≡ wanted config 5 k (local_row local k) (broker_row broker k))
compare_positions-reports_example =
    compare_positions-reports config 5 symbols local broker symbols-Enumerates

compare_positions-clean_example :
    (compare_positions config 5 symbols local broker ≡ some [])
    ↔ ((k : ℕ) → Agrees (local_row local k) (broker_row broker k))
compare_positions-clean_example =
    compare_positions-clean config 5 symbols local broker symbols-Enumerates

abbrev minus : ℕ → ℤ
minus zero = pos 0
minus (suc n) = negsuc n

minus_sign : (n : ℕ) → minus n ≤ℤ pos 0
minus_sign zero = omega arith
minus_sign (suc n) = omega arith

-- The quotient of a number that is not negative, towards zero.
abbrev divide : ℤ → ℤ → ℤ
divide (pos a) (pos b) = pos (a / b)
divide (pos a) (negsuc b) = minus (a / (b + 1))
divide (negsuc a) b = pos 0

divide_signs : (a b : ℤ) → pos 0 ≤ℤ a → b <ℤ pos 0 → divide a b ≤ℤ pos 0
divide_signs (pos a) (pos b) ha hb = absurd (omega arith)
divide_signs (pos a) (negsuc b) ha hb = minus_sign (a / (b + 1))
divide_signs (negsuc a) b ha hb = omega arith

abbrev account : BrokerAccount
account = record { cash = pos 0; total_equity = pos 500 }
