-- ===== src/Backtest/Portfolio.antt =====
-- `BacktestPortfolio` of backend/src/backtest/portfolio.py, `SimulatedFillEngine` of
-- backend/src/backtest/fill_engine.py, and `Trade` and `Bar` of backend/src/backtest/models.py.
use aq_trading.Prelude.{ℕ, Bool, Option, none, some, if◌then◌else◌}
use aq_trading.Prelude.Int.{ℤ, pos, ◌+ℤ◌, ◌-ℤ◌, ◌*ℤ◌, leb_ℤ, eqb_ℤ}
use aq_trading.Portfolio.Repo.{Side, buy, sell}

pub record Bar : Type 0 where
  pub symbol : ℕ
  pub date : ℕ
  pub open_price : ℤ
  pub close_price : ℤ

pub record Signal : Type 0 where
  pub symbol : ℕ
  pub action : Side
  pub quantity : ℤ
  pub date : ℕ

pub record Trade : Type 0 where
  pub date : ℕ
  pub symbol : ℕ
  pub side : Side
  pub quantity : ℤ
  pub gross_price : ℤ
  pub slippage : ℤ
  pub commission : ℤ
  pub signal_bar_date : ℕ
  pub fill_price : ℤ

-- `Trade.__post_init__`
unfoldable pub fill_price_of : Side → ℤ → ℤ → ℤ
fill_price_of buy gross slippage = gross +ℤ slippage
fill_price_of sell gross slippage = gross -ℤ slippage

pub record BacktestPortfolio : Type 0 where
  pub cash : ℤ
  pub position_qty : ℤ
  pub position_avg_cost : ℤ

unfoldable pub new : ℤ → BacktestPortfolio
new initial_capital = record {
  cash = initial_capital;
  position_qty = pos 0;
  position_avg_cost = pos 0;
}

unfoldable pub equity : ℤ → BacktestPortfolio → ℤ
equity current_price p = p.cash +ℤ p.position_qty *ℤ current_price

unfoldable pub can_buy : ℤ → ℤ → ℤ → BacktestPortfolio → Bool
can_buy price quantity commission p = leb_ℤ (price *ℤ quantity +ℤ commission) p.cash

unfoldable pub can_sell : ℤ → BacktestPortfolio → Bool
can_sell quantity p = leb_ℤ quantity p.position_qty

-- `_apply_buy`, at the average cost that it computes
unfoldable pub bought_at : Trade → Option ℤ → BacktestPortfolio → Option BacktestPortfolio
bought_at t none p = none
bought_at t (some avg) p = some (record {
  cash = p.cash -ℤ (t.fill_price *ℤ t.quantity +ℤ t.commission);
  position_qty = p.position_qty +ℤ t.quantity;
  position_avg_cost = avg;
})

unfoldable pub apply_sell : Trade → BacktestPortfolio → BacktestPortfolio
apply_sell t p = record p {
  cash = p.cash +ℤ (t.fill_price *ℤ t.quantity -ℤ t.commission);
  position_qty = p.position_qty -ℤ t.quantity;
}

module _ (divide : ℤ → ℤ → ℤ) where
  -- The new average cost of a buy; `none` is the division by zero.
  unfoldable pub average_cost : Trade → BacktestPortfolio → Option ℤ
  average_cost t p =
      let new_qty = p.position_qty +ℤ t.quantity in
      let total_value = p.position_qty *ℤ p.position_avg_cost +ℤ t.quantity *ℤ t.fill_price in
      if eqb_ℤ p.position_qty (pos 0)
      then some t.fill_price
      else if eqb_ℤ new_qty (pos 0)
      then none
      else some (divide total_value new_qty)

  unfoldable pub apply_trade_on : Side → Trade → BacktestPortfolio → Option BacktestPortfolio
  unfolding average_cost bought_at apply_sell
  apply_trade_on buy t p = bought_at t (average_cost t p) p
  apply_trade_on sell t p = some (apply_sell t p)

  unfoldable pub apply_trade : Trade → BacktestPortfolio → Option BacktestPortfolio
  unfolding apply_trade_on
  apply_trade t p = apply_trade_on t.side t p

  -- `SimulatedFillEngine.execute`, with its two settings
  unfoldable pub execute : ℤ → ℤ → Signal → Bar → Trade
  unfolding fill_price_of
  execute slippage_bps commission_per_share s bar =
      let slippage = divide (bar.open_price *ℤ slippage_bps) (pos 10000) in
      record {
        date = bar.date;
        symbol = s.symbol;
        side = s.action;
        quantity = s.quantity;
        gross_price = bar.open_price;
        slippage = slippage;
        commission = commission_per_share *ℤ s.quantity;
        signal_bar_date = s.date;
        fill_price = fill_price_of s.action bar.open_price slippage;
      }
