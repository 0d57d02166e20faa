-- ===== src/Risk/Signals.antt =====
-- What the risk manager works on: backend/src/strategies/signals.py, backend/src/risk/models.py, and its own
-- state and answers.
use aq_trading.Prelude.{ℕ, Bool, Option, List}
use aq_trading.Prelude.Int.{ℤ}
use aq_trading.Risk.Gate.{GreeksCheckResult}

pub data SignalAction : Type 0 where
  buy sell : SignalAction

pub record Signal : Type 0 where
  pub strategy_id : ℕ
  pub symbol : ℕ
  pub action : SignalAction
  pub quantity : ℤ

pub record RiskConfig : Type 0 where
  pub max_position_value : ℤ
  pub max_position_pct : ℤ
  pub max_quantity_per_order : ℕ
  pub max_positions : ℕ
  pub max_exposure_pct : ℤ
  pub daily_loss_limit : ℤ
  pub max_drawdown_pct : ℤ
  pub blocked_symbols : List ℕ
  pub allowed_symbols : List ℕ

pub record Account : Type 0 where
  pub total_equity : ℤ
  pub buying_power : ℤ

-- What the portfolio answers: the account, the market values of its positions, and whether the signal's
-- strategy has a position in its symbol.
pub record Holdings : Type 0 where
  pub account : Option Account
  pub market_values : List ℤ
  pub has_position : Bool

-- A factor, as a fraction.
pub record Bias : Type 0 where
  pub over : ℤ
  pub under : ℕ

-- What Redis answers to `get`: a text that is a number, no value, a text that is none, or an exception.
pub data RedisAnswer : Type 0 where
  number : Bias → RedisAnswer
  no_value invalid_text redis_raised : RedisAnswer

pub data KillReason : Type 0 where
  manual : ℕ → KillReason
  daily_loss_exceeded drawdown_exceeded : KillReason

pub record RiskState : Type 0 where
  pub kill_reason : Option KillReason
  pub killed : Bool
  pub paused_strategies : List ℕ
  pub daily_pnl : ℤ
  pub peak_equity : ℤ
  pub last_greeks_check : Option GreeksCheckResult

-- The exceptions of a check: the account is `None`, or its equity is 0.
pub data CheckError : Type 0 where
  no_account division_by_zero : CheckError

pub data Rejection : Type 0 where
  kill_switch strategy_paused symbol_allowed position_limits portfolio_limits loss_limits
        greeks_limits :
      Rejection

pub data Verdict : Type 0 where
  approved : Verdict
  rejected : Rejection → Verdict
