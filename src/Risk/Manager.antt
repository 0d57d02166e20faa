-- ===== src/Risk/Manager.antt =====
-- `RiskManager` of backend/src/risk/manager.py. What the portfolio, Redis and the Greeks gate's parts answer
-- are arguments. Amounts are exact and counted in one grain, of which `grain` make 1; a percentage limit is in
-- percent.
pub mod Limits
pub mod Kills
mod Tests
pub use aq_trading.Risk.Signals.{
  SignalAction, buy, sell, Signal, RiskConfig, Account, Holdings, Bias, RedisAnswer, number,
  no_value, invalid_text, redis_raised, KillReason, manual, daily_loss_exceeded, drawdown_exceeded,
  RiskState, CheckError, no_account, division_by_zero, Rejection, kill_switch, strategy_paused,
  symbol_allowed, position_limits, portfolio_limits, loss_limits, greeks_limits, Verdict, approved,
  rejected,
}
use aq_trading.Prelude.{
  ℕ, ◌+◌, ◌*◌, ◌/◌, Bool, true, false, not, ◌&&◌, ◌||◌, Option, none, some, List, [], ◌∷◌, length,
  ◌==◌, ltb, leb, if◌then◌else◌,
}
use aq_trading.Prelude.Dict.{contains}
use aq_trading.Prelude.Int.{ℤ, pos, negsuc, ◌+ℤ◌, ◌-ℤ◌, ◌*ℤ◌, ltb_ℤ, eqb_ℤ}
use aq_trading.Prelude.Result.{Result, ok, raised}
use aq_trading.Risk.Gate.{GateConfig, Greek, CurrentGreeks, GreeksCheckResult, check_order}

unfoldable pub activate_kill_switch : KillReason → RiskState → RiskState
activate_kill_switch reason s = record s { killed = true; kill_reason = some reason }

unfoldable pub deactivate_kill_switch : RiskState → RiskState
deactivate_kill_switch s = record s { killed = false; kill_reason = none }

abbrev discard : ℕ → List ℕ → List ℕ
discard k [] = []
discard k (j ∷ rest) = let below = discard k rest in if j == k then below else j ∷ below

-- The paused strategies are a set.
unfoldable pub pause_strategy : ℕ → RiskState → RiskState
pause_strategy id s = record s {
  paused_strategies =
      (if contains id s.paused_strategies then s.paused_strategies else id ∷ s.paused_strategies);
}

unfoldable pub resume_strategy : ℕ → RiskState → RiskState
resume_strategy id s = record s { paused_strategies = discard id s.paused_strategies }

unfoldable pub update_daily_pnl : ℤ → RiskState → RiskState
update_daily_pnl change s = record s { daily_pnl = s.daily_pnl +ℤ change }

unfoldable pub reset_daily_stats : RiskState → RiskState
reset_daily_stats s = record s { daily_pnl = pos 0 }

-- `DEFAULT_RISK_BIAS`
abbrev pub default_risk_bias : Bias
default_risk_bias = record { over = pos 1; under = 1 }

unfoldable pub get_risk_bias : Option RedisAnswer → Bias
get_risk_bias (some (number bias)) = bias
get_risk_bias _ = default_risk_bias

-- `int(max * bias)`, towards 0
unfoldable pub scale : ℕ → Bias → ℤ
scale max b = elim b.over [
  | pos n ↦ pos (max * n / b.under)
  | negsuc n ↦ pos 0 -ℤ pos (max * (n + 1) / b.under)
]

-- `amount / equity * 100 > limit / under`, for an equity that is not 0
unfoldable pub exceeds_pct : ℤ → ℤ → ℤ → ℕ → Bool
exceeds_pct amount equity limit under =
    if ltb_ℤ (pos 0) equity
    then ltb_ℤ (limit *ℤ equity) (amount *ℤ pos (100 * under))
    else ltb_ℤ (amount *ℤ pos (100 * under)) (limit *ℤ equity)

-- The check of a percentage, which divides.
unfoldable pub within_pct : ℤ → ℤ → ℤ → ℕ → Result CheckError Bool
unfolding exceeds_pct
within_pct amount equity limit under =
    if eqb_ℤ equity (pos 0)
    then raised division_by_zero
    else ok (not (exceeds_pct amount equity limit under))

abbrev pub sum : List ℤ → ℤ
sum [] = pos 0
sum (v ∷ rest) = v +ℤ sum rest

abbrev is_empty : List ℕ → Bool
is_empty [] = true
is_empty (_ ∷ _) = false

-- The rest of a check, after a test of its own.
abbrev pub and_then : Result CheckError Bool → Result CheckError Bool → Result CheckError Bool
and_then (raised e) k = raised e
and_then (ok false) k = ok false
and_then (ok true) k = k

-- `self.check` and the rejection that it leads to, or the rest of `evaluate`.
abbrev pub then_check :
    RiskState × Result CheckError Bool
    → Rejection
    → (RiskState → RiskState × Result CheckError Verdict)
    → RiskState × Result CheckError Verdict
then_check (s, raised e) reason rest = (s, raised e)
then_check (s, ok false) reason rest = (s, ok (rejected reason))
then_check (s, ok true) reason rest = rest s

module _ (grain : ℕ) (config : RiskConfig) where
  -- `_get_current_price`
  abbrev pub current_price : ℤ
  current_price = pos (100 * grain)

  -- `_check_symbol_allowed`
  unfoldable pub check_symbol_allowed : Signal → Bool
  check_symbol_allowed signal =
      if contains signal.symbol config.blocked_symbols
      then false
      else if is_empty config.allowed_symbols
      then true
      else contains signal.symbol config.allowed_symbols

  module _ (redis : Option RedisAnswer) (holdings : Holdings) where
    abbrev pub value_of : Signal → ℤ
    value_of signal = signal.quantity *ℤ current_price

    unfoldable pub position_pct : Option Account → Signal → Bias → Result CheckError Bool
    unfolding within_pct
    position_pct none signal bias = raised no_account
    position_pct (some a) signal bias =
        within_pct (value_of signal) a.total_equity (config.max_position_pct *ℤ bias.over)
          bias.under

    -- `_check_position_limits`, by the action
    unfoldable pub check_position_limits : SignalAction → Signal → Result CheckError Bool
    unfolding scale position_pct get_risk_bias
    check_position_limits sell signal = ok true
    check_position_limits buy signal =
        let bias = get_risk_bias redis in
        and_then (ok (not (ltb_ℤ (scale config.max_quantity_per_order bias) signal.quantity))) (
          and_then
            (ok (
              not (
                ltb_ℤ (config.max_position_value *ℤ bias.over)
                  (value_of signal *ℤ pos bias.under))))
            (position_pct holdings.account signal bias))

    unfoldable pub max_positions_ok : SignalAction → Bool
    max_positions_ok sell = true
    max_positions_ok buy =
        holdings.has_position || ltb (length holdings.market_values) config.max_positions

    unfoldable pub new_exposure : SignalAction → Signal → ℤ
    new_exposure sell signal = pos 0
    new_exposure buy signal = value_of signal

    unfoldable pub buying_power_ok : SignalAction → Signal → Account → Bool
    buying_power_ok sell signal a = true
    buying_power_ok buy signal a = not (ltb_ℤ a.buying_power (value_of signal))

    -- `_check_portfolio_limits`
    unfoldable pub portfolio_of : Option Account → Signal → Result CheckError Bool
    unfolding max_positions_ok new_exposure buying_power_ok within_pct
    portfolio_of none signal = ok false
    portfolio_of (some a) signal = and_then (ok (max_positions_ok signal.action)) (
        and_then
          (within_pct (sum holdings.market_values +ℤ new_exposure signal.action signal)
            a.total_equity config.max_exposure_pct 1)
          (ok (buying_power_ok signal.action signal a)))

    unfoldable pub check_portfolio_limits : Signal → Result CheckError Bool
    unfolding portfolio_of
    check_portfolio_limits signal = portfolio_of holdings.account signal

    abbrev pub max_ℤ : ℤ → ℤ → ℤ
    max_ℤ a b = if ltb_ℤ a b then b else a

    -- The drawdown from the peak, where there is one.
    abbrev pub exceeds_drawdown : Account → RiskState → Bool
    exceeds_drawdown a s =
        ltb_ℤ (pos 0) s.peak_equity
        && ltb_ℤ (config.max_drawdown_pct *ℤ s.peak_equity)
            ((s.peak_equity -ℤ a.total_equity) *ℤ pos 100)

    unfoldable pub check_drawdown : Account → RiskState → RiskState × Result CheckError Bool
    unfolding activate_kill_switch
    check_drawdown a s =
        if exceeds_drawdown a s
        then (activate_kill_switch drawdown_exceeded s, ok false)
        else (s, ok true)

    unfoldable pub check_peak : Option Account → RiskState → RiskState × Result CheckError Bool
    unfolding check_drawdown
    check_peak none s = (s, raised no_account)
    check_peak (some a) s =
        check_drawdown a (record s { peak_equity = max_ℤ s.peak_equity a.total_equity })

    -- `_check_loss_limits`
    unfoldable pub check_loss_limits : RiskState → RiskState × Result CheckError Bool
    unfolding check_peak activate_kill_switch
    check_loss_limits s =
        if ltb_ℤ s.daily_pnl (pos 0 -ℤ config.daily_loss_limit)
        then (activate_kill_switch daily_loss_exceeded s, ok false)
        else check_peak holdings.account s

    module _ (greeks : Option GreeksCheckResult) where
      -- `_check_greeks_limits`; `greeks` is the answer of the gate, where one is configured.
      unfoldable pub greeks_of :
          Option GreeksCheckResult → RiskState → RiskState × Result CheckError Bool
      greeks_of none s = (s, ok true)
      greeks_of (some g) s = (record s { last_greeks_check = some g }, ok g.ok)

      unfoldable pub check_greeks_limits : RiskState → RiskState × Result CheckError Bool
      unfolding greeks_of
      check_greeks_limits s = greeks_of greeks s

      -- `evaluate`, from each of its checks on
      unfoldable pub from_greeks : RiskState → RiskState × Result CheckError Verdict
      unfolding check_greeks_limits
      from_greeks s = then_check (check_greeks_limits s) greeks_limits (λ s. (s, ok approved))

      unfoldable pub from_loss : RiskState → RiskState × Result CheckError Verdict
      unfolding check_loss_limits from_greeks
      from_loss s = then_check (check_loss_limits s) loss_limits from_greeks

      unfoldable pub from_portfolio : Signal → RiskState → RiskState × Result CheckError Verdict
      unfolding check_portfolio_limits from_loss
      from_portfolio signal s =
          then_check (s, check_portfolio_limits signal) portfolio_limits from_loss

      unfoldable pub from_position : Signal → RiskState → RiskState × Result CheckError Verdict
      unfolding check_position_limits from_portfolio
      from_position signal s =
          then_check (s, check_position_limits signal.action signal) position_limits
            (from_portfolio signal)

      unfoldable pub from_symbol : Signal → RiskState → RiskState × Result CheckError Verdict
      unfolding check_symbol_allowed from_position
      from_symbol signal s =
          then_check (s, ok (check_symbol_allowed signal)) symbol_allowed (from_position signal)

      unfoldable pub from_pause : Signal → RiskState → RiskState × Result CheckError Verdict
      unfolding from_symbol
      from_pause signal s =
          then_check (s, ok (not (contains signal.strategy_id s.paused_strategies))) strategy_paused
            (from_symbol signal)

      unfoldable pub evaluate : Signal → RiskState → RiskState × Result CheckError Verdict
      unfolding from_pause
      evaluate signal s =
          then_check (record s { last_greeks_check = none }, ok (not s.killed)) kill_switch
            (from_pause signal)
