-- ===== src/Portfolio/Tests.antt =====
-- Fills at concrete inputs.
use aq_trading.Prelude.{◌/◌, ◌≡◌, ◌⊎◌, ◌<◌, ◌≤◌, refl, none, some, [], ◌∷◌, arith, length}
use aq_trading.Prelude.Int.{ℤ, pos, negsuc, ◌+ℤ◌, ◌-ℤ◌, ◌*ℤ◌}
use aq_trading.Portfolio.Repo.{buy, sell, stock, Position, Tables}
use aq_trading.Portfolio.Fill.{Fill, updated, signed, change_of, record_fill}
use aq_trading.Portfolio.Accounting.{new_quantity, new_basis, profit, change_of_balance}
use aq_trading.Portfolio.Positions.{matching, IsRecorded, record_fill-outcome}

-- The quotient of natural numbers.
abbrev divide : ℤ → ℤ → ℤ
divide (pos a) (pos b) = pos (a / b)
divide a b = pos 0

-- A hundred shares bought at 70 beside a hundred at 50.
more :
    change_of divide buy (pos 100) (pos 50) (pos 100) (pos 70) ≡ updated (pos 200) (pos 60) (pos 0)
unfolding change_of ◌+ℤ◌ ◌*ℤ◌
more = refl

-- A sale of 150 out of 100 leaves 50 short, at the price of the sale.
flipped :
    change_of divide sell (pos 100) (pos 50) (pos 150) (pos 70)
    ≡ updated (negsuc 49) (pos 70) (pos 2000)
unfolding change_of ◌-ℤ◌ ◌*ℤ◌
flipped = refl

average :
    (pos 100 +ℤ pos 100) *ℤ divide (pos 50 *ℤ pos 100 +ℤ pos 70 *ℤ pos 100) (pos 100 +ℤ pos 100)
    ≡ pos 50 *ℤ pos 100 +ℤ pos 70 *ℤ pos 100
unfolding ◌+ℤ◌ ◌*ℤ◌
average = refl

change_of_balance_example :
    let c = change_of divide buy (pos 100) (pos 50) (pos 100) (pos 70) in
    (new_quantity c ≡ pos 100 +ℤ signed buy (pos 100))
    × (new_basis c ≡ pos 100 *ℤ pos 50 +ℤ signed buy (pos 100) *ℤ pos 70 +ℤ profit c)
change_of_balance_example =
    change_of_balance divide buy (pos 100) (pos 50) (pos 100) (pos 70) (omega arith)
      (λ long stays. average)

abbrev holding : Position
holding = record {
  account_id = 1;
  symbol = 7;
  asset_type = stock;
  strategy_id = some 3;
  quantity = pos 100;
  avg_cost = pos 50;
  current_price = pos 60;
  strike = none;
  expiry = none;
  put_call = none;
}

abbrev tables : Tables
tables = record { positions = holding ∷ record holding { symbol = 8 } ∷ []; transactions = [] }

abbrev fill : Fill
fill = record {
  account_id = 1;
  symbol = 7;
  side = sell;
  quantity = pos 150;
  price = pos 70;
  commission = pos 1;
  strategy_id = some 3;
  order_id = none;
  broker_order_id = some 12;
  asset_type = stock;
  strike = none;
  expiry = none;
  put_call = none;
}

record_fill-outcome_example :
    ((length (matching fill tables) ≤ 1)
      × ((t' : Tables) × ((record_fill divide fill tables ≡ some t') × IsRecorded fill tables t')))
    ⊎ ((1 < length (matching fill tables)) × (record_fill divide fill tables ≡ none))
record_fill-outcome_example = record_fill-outcome divide fill tables
