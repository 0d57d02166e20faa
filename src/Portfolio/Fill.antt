-- ===== src/Portfolio/Fill.antt =====
-- `PortfolioManager.record_fill` of backend/src/core/portfolio.py.
use aq_trading.Prelude.{ℕ, Option, none, some, if◌then◌else◌}
use aq_trading.Prelude.Int.{ℤ, pos, ◌+ℤ◌, ◌-ℤ◌, ◌*ℤ◌, ltb_ℤ, eqb_ℤ, abs}
use aq_trading.Portfolio.Repo.{
  AssetType, PutCall, Side, buy, sell, Position, Transaction, Tables, multiplier, Found, missing,
  one, multiple_results, get_position, create_position, update_position, close_position,
  record_transaction,
}

-- The arguments of a call.
pub record Fill : Type 0 where
  pub account_id : ℕ
  pub symbol : ℕ
  pub side : Side
  pub quantity : ℤ
  pub price : ℤ
  pub commission : ℤ
  pub strategy_id : Option ℕ
  pub order_id : Option ℕ
  pub broker_order_id : Option ℕ
  pub asset_type : AssetType
  pub strike : Option ℤ
  pub expiry : Option ℕ
  pub put_call : Option PutCall

-- What a fill makes of a position: it closes, or has a new quantity and average cost. The profit is
-- that of one unit of the multiplier.
pub data Change : Type 0 where
  closed : ℤ → Change
  updated : ℤ → ℤ → ℤ → Change

abbrev pub min_ℤ : ℤ → ℤ → ℤ
min_ℤ a b = if ltb_ℤ b a then b else a

-- `quantity if side == "buy" else -quantity`
unfoldable pub signed : Side → ℤ → ℤ
signed buy quantity = quantity
signed sell quantity = pos 0 -ℤ quantity

module _ (divide : ℤ → ℤ → ℤ) where
  -- The buy branch, from the old quantity and cost.
  unfoldable pub bought : ℤ → ℤ → ℤ → ℤ → Change
  bought old_qty old_cost quantity price =
      let new_qty = old_qty +ℤ quantity in
      let cover_qty = min_ℤ quantity (pos (abs old_qty)) in
      let total_cost = old_cost *ℤ old_qty +ℤ price *ℤ quantity in
      if eqb_ℤ new_qty (pos 0)
      then closed ((old_cost -ℤ price) *ℤ quantity)
      else if ltb_ℤ old_qty (pos 0)
      then updated new_qty (if ltb_ℤ (pos 0) new_qty then price else old_cost)
          ((old_cost -ℤ price) *ℤ cover_qty)
      else updated new_qty (divide total_cost new_qty) (pos 0)

  -- The sell branch.
  unfoldable pub sold : ℤ → ℤ → ℤ → ℤ → Change
  sold old_qty old_cost quantity price =
      let new_qty = old_qty -ℤ quantity in
      let sell_qty = min_ℤ quantity old_qty in
      let total_cost = old_cost *ℤ pos (abs old_qty) +ℤ price *ℤ quantity in
      if eqb_ℤ new_qty (pos 0)
      then closed ((price -ℤ old_cost) *ℤ quantity)
      else if ltb_ℤ (pos 0) old_qty
      then updated new_qty (if ltb_ℤ new_qty (pos 0) then price else old_cost)
          ((price -ℤ old_cost) *ℤ sell_qty)
      else updated new_qty (divide total_cost (pos (abs new_qty))) (pos 0)

  unfoldable pub change_of : Side → ℤ → ℤ → ℤ → ℤ → Change
  unfolding bought sold
  change_of buy old_qty old_cost quantity price = bought old_qty old_cost quantity price
  change_of sell old_qty old_cost quantity price = sold old_qty old_cost quantity price

  abbrev pub opened : Fill → Position
  opened f = record {
    account_id = f.account_id;
    symbol = f.symbol;
    asset_type = f.asset_type;
    strategy_id = f.strategy_id;
    quantity = signed f.side f.quantity;
    avg_cost = f.price;
    current_price = pos 0;
    strike = f.strike;
    expiry = f.expiry;
    put_call = f.put_call;
  }

  abbrev pub transaction : Fill → ℤ → Transaction
  transaction f realized_pnl = record {
    account_id = f.account_id;
    symbol = f.symbol;
    action = f.side;
    quantity = f.quantity;
    price = f.price;
    commission = f.commission;
    realized_pnl = realized_pnl;
    strategy_id = f.strategy_id;
    order_id = f.order_id;
    broker_order_id = f.broker_order_id;
  }

  -- The writes for an existing position, and the profit that is realized.
  unfoldable pub apply_change : Fill → Change → Tables → Tables × ℤ
  apply_change f (closed pnl) t =
      (close_position f.account_id f.symbol f.strategy_id t, pnl *ℤ multiplier f.asset_type)
  apply_change f (updated quantity avg_cost pnl) t = (
    update_position f.account_id f.symbol f.strategy_id (some quantity) (some avg_cost) none t,
    pnl *ℤ multiplier f.asset_type,
  )

  -- `none` is the exception of `get_position` on more than one row; nothing has been written then.
  unfoldable pub record_on : Fill → Found → Tables → Option Tables
  unfolding apply_change change_of
  record_on f missing t =
      some (record_transaction (transaction f (pos 0)) (create_position (opened f) t))
  record_on f (one p) t =
      let (t', pnl) =
        apply_change f (change_of f.side p.quantity p.avg_cost f.quantity f.price) t in
      some (record_transaction (transaction f pnl) t')
  record_on f multiple_results t = none

  unfoldable pub record_fill : Fill → Tables → Option Tables
  unfolding record_on
  record_fill f t = record_on f (get_position f.account_id f.symbol f.strategy_id t) t
