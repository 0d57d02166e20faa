-- ===== src/Portfolio/Repo.antt =====
-- `PortfolioRepository` of backend/src/db/repositories/portfolio_repo.py on the rows of its
-- tables: `Position` of backend/src/models/position.py and the transactions.
use aq_trading.Prelude.{
  ℕ, Bool, true, false, ◌&&◌, Option, none, some, List, [], ◌∷◌, ◌++◌, keep, ◌==◌, if◌then◌else◌,
  or_else,
}
use aq_trading.Prelude.Int.{ℤ, pos, ◌*ℤ◌, ◌-ℤ◌}

pub data AssetType : Type 0 where
  stock option future : AssetType

pub data PutCall : Type 0 where
  put call : PutCall

pub data Side : Type 0 where
  buy sell : Side

pub record Position : Type 0 where
  pub account_id : ℕ
  pub symbol : ℕ
  pub asset_type : AssetType
  pub strategy_id : Option ℕ
  pub quantity : ℤ
  pub avg_cost : ℤ
  pub current_price : ℤ
  pub strike : Option ℤ
  pub expiry : Option ℕ
  pub put_call : Option PutCall

pub record Transaction : Type 0 where
  pub account_id : ℕ
  pub symbol : ℕ
  pub action : Side
  pub quantity : ℤ
  pub price : ℤ
  pub commission : ℤ
  pub realized_pnl : ℤ
  pub strategy_id : Option ℕ
  pub order_id : Option ℕ
  pub broker_order_id : Option ℕ

pub record Tables : Type 0 where
  pub positions : List Position
  pub transactions : List Transaction

-- `100 if asset_type == AssetType.OPTION else 1`
unfoldable pub multiplier : AssetType → ℤ
multiplier option = pos 100
multiplier _ = pos 1

unfoldable pub market_value : Position → ℤ
unfolding multiplier
market_value p = p.quantity *ℤ p.current_price *ℤ multiplier p.asset_type

unfoldable pub unrealized_pnl : Position → ℤ
unfolding multiplier
unrealized_pnl p = (p.current_price -ℤ p.avg_cost) *ℤ p.quantity *ℤ multiplier p.asset_type

-- The condition on a column of an optional argument: `None` asks for nothing, and a row whose column is
-- NULL equals no text.
unfoldable pub strategy_is : Option ℕ → Option ℕ → Bool
strategy_is none s = true
strategy_is (some k) none = false
strategy_is (some k) (some s) = k == s

-- The rows that `get_position`, `update_position` and `close_position` select.
unfoldable pub selects : ℕ → ℕ → Option ℕ → Position → Bool
unfolding strategy_is
selects account symbol strategy p =
    p.account_id == account && p.symbol == symbol && strategy_is strategy p.strategy_id

-- `scalar_one_or_none`, which raises on more than one row
pub data Found : Type 0 where
  missing : Found
  one : Position → Found
  multiple_results : Found

unfoldable pub scalar_one_or_none : List Position → Found
scalar_one_or_none [] = missing
scalar_one_or_none (p ∷ []) = one p
scalar_one_or_none (p ∷ q ∷ rest) = multiple_results

unfoldable pub get_position : ℕ → ℕ → Option ℕ → Tables → Found
unfolding scalar_one_or_none selects
get_position account symbol strategy t =
    scalar_one_or_none (keep (selects account symbol strategy) t.positions)

unfoldable pub create_position : Position → Tables → Tables
create_position p t = record t { positions = t.positions ++ p ∷ [] }

-- The assignments of `update_position`.
unfoldable pub assign : Option ℤ → Option ℤ → Option ℤ → Position → Position
assign quantity avg_cost current_price p = record p {
  quantity = or_else quantity p.quantity;
  avg_cost = or_else avg_cost p.avg_cost;
  current_price = or_else current_price p.current_price;
}

-- The rows of a table, those that a condition selects changed.
abbrev pub change : (Position → Bool) → (Position → Position) → List Position → List Position
change chosen f [] = []
change chosen f (p ∷ ps) = (if chosen p then f p else p) ∷ change chosen f ps

-- `update_position` where its `get_position` finds the one row; where it finds none it does nothing.
unfoldable pub update_position : ℕ → ℕ → Option ℕ → Option ℤ → Option ℤ → Option ℤ → Tables → Tables
unfolding assign selects
update_position account symbol strategy quantity avg_cost current_price t = record t {
  positions =
      change (selects account symbol strategy) (assign quantity avg_cost current_price) t.positions;
}

abbrev pub drop_rows : (Position → Bool) → List Position → List Position
drop_rows chosen [] = []
drop_rows chosen (p ∷ ps) = let rest = drop_rows chosen ps in if chosen p then rest else p ∷ rest

unfoldable pub close_position : ℕ → ℕ → Option ℕ → Tables → Tables
unfolding selects
close_position account symbol strategy t = record t {
  positions = drop_rows (selects account symbol strategy) t.positions;
}

unfoldable pub record_transaction : Transaction → Tables → Tables
record_transaction x t = record t { transactions = t.transactions ++ x ∷ [] }
