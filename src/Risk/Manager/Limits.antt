-- ===== src/Risk/Manager/Limits.antt =====
-- What an approval means, and what a kill does.
use aq_trading.Prelude.{
  ℕ, ◌*◌, ◌≡◌, refl, sym, ◌∙◌, ap, Bool, true, false, not, Option, none, some, inl, inr, Bool-cases,
  arith,
}
use aq_trading.Prelude.Dict.{contains}
use aq_trading.Prelude.Int.{ℤ, pos, negsuc, ◌+ℤ◌, ◌-ℤ◌, ◌*ℤ◌, ◌≤ℤ◌, ◌<ℤ◌, ltb_ℤ}
use aq_trading.Prelude.Result.{Result, ok, raised}
use aq_trading.Risk.Gate.{GreeksCheckResult}
use aq_trading.Risk.Manager.{
  SignalAction, buy, Signal, RiskConfig, Account, Holdings, RedisAnswer, RiskState, CheckError,
  Rejection, kill_switch, strategy_paused, symbol_allowed, position_limits, portfolio_limits,
  loss_limits, Verdict, approved, sum, exceeds_pct, within_pct, and_then, then_check,
  check_symbol_allowed, value_of, check_position_limits, max_positions_ok, new_exposure,
  buying_power_ok, portfolio_of, check_portfolio_limits, max_ℤ, check_drawdown, check_peak,
  check_loss_limits, from_greeks, from_loss, from_portfolio, from_position, from_symbol, from_pause,
  evaluate,
}

-- An evaluation that approves has passed its check.
then_check-approved :
    (out : RiskState × Result CheckError Bool) (reason : Rejection)
    (rest : RiskState → RiskState × Result CheckError Verdict)
    → (then_check out reason rest).1 ≡ ok approved
    → (out.1 ≡ ok true) × ((rest out.0).1 ≡ ok approved)
then_check-approved (s, raised e) reason rest h = absurd cc
then_check-approved (s, ok false) reason rest h = absurd cc
then_check-approved (s, ok true) reason rest h = (refl, h)

and_then-true :
    (a k : Result CheckError Bool) → and_then a k ≡ ok true → (a ≡ ok true) × (k ≡ ok true)
and_then-true (raised e) k h = absurd cc
and_then-true (ok false) k h = absurd cc
and_then-true (ok true) k h = (refl, h)

-- A percentage of an equity above 0 that is within its limit.
within_pct-true :
    (amount equity limit : ℤ) (under : ℕ)
    → pos 0 <ℤ equity
    → within_pct amount equity limit under ≡ ok true
    → amount *ℤ pos (100 * under) ≤ℤ limit *ℤ equity
unfolding within_pct exceeds_pct
within_pct-true amount equity limit under positive h = ground arith

ok_injective : {b c : Bool} → ◌≡◌ {A = Result CheckError Bool} (ok b) (ok c) → b ≡ c
ok_injective e = cc

not-true : (b : Bool) → not b ≡ true → b ≡ false
not-true b h = ground arith

module _ (grain : ℕ) (config : RiskConfig) (redis : Option RedisAnswer) (holdings : Holdings) where
  -- The portfolio's limits that a buy has passed.
  abbrev pub WithinPortfolio : Account → Signal → Type 0
  WithinPortfolio a signal =
      ((sum holdings.market_values +ℤ value_of grain config redis holdings signal) *ℤ pos 100
        ≤ℤ config.max_exposure_pct *ℤ a.total_equity)
      × (value_of grain config redis holdings signal ≤ℤ a.buying_power)

  portfolio_of-true :
      (a : Account) (signal : Signal)
      → signal.action ≡ buy
      → pos 0 <ℤ a.total_equity
      → portfolio_of grain config redis holdings (some a) signal ≡ ok true
      → WithinPortfolio a signal
  unfolding portfolio_of new_exposure buying_power_ok
  portfolio_of-true a signal is_buy positive h =
      let first =
        and_then-true (ok (max_positions_ok grain config redis holdings signal.action)) _ h in
      let second =
        and_then-true
          (within_pct (sum holdings.market_values +ℤ exposure signal.action) a.total_equity
            config.max_exposure_pct 1)
          (ok (buying_power_ok grain config redis holdings signal.action signal a)) first.1 in
      (
        within_pct-true (sum holdings.market_values +ℤ exposure buy) a.total_equity
            config.max_exposure_pct 1 positive
            (ap
                (λ act.
                  within_pct (sum holdings.market_values +ℤ exposure act) a.total_equity
                    config.max_exposure_pct 1)
                (sym is_buy)
              ∙ second.0),
        power (
            ap (λ act. ok (buying_power_ok grain config redis holdings act signal a)) (sym is_buy)
            ∙ second.1),
      )
    where
      exposure : SignalAction → ℤ
      exposure act = new_exposure grain config redis holdings act signal

      power :
          ◌≡◌ {A = Result CheckError Bool}
            (ok (not (ltb_ℤ a.buying_power (value_of grain config redis holdings signal))))
            (ok true)
          → value_of grain config redis holdings signal ≤ℤ a.buying_power
      power e = ground arith

  -- The peak equity after a check.
  abbrev pub peak_with : RiskState → Account → ℤ
  peak_with s a = max_ℤ grain config redis holdings s.peak_equity a.total_equity

  check_drawdown-true :
      (a : Account) (s : RiskState)
      → pos 0 <ℤ s.peak_equity
      → (check_drawdown grain config redis holdings a s).1 ≡ ok true
      → (s.peak_equity -ℤ a.total_equity) *ℤ pos 100 ≤ℤ config.max_drawdown_pct *ℤ s.peak_equity
  unfolding check_drawdown
  check_drawdown-true a s positive h = ground arith

  check_loss_limits-true :
      (a : Account) (s : RiskState)
      → holdings.account ≡ some a
      → pos 0 <ℤ a.total_equity
      → (check_loss_limits grain config redis holdings s).1 ≡ ok true
      → (pos 0 -ℤ config.daily_loss_limit ≤ℤ s.daily_pnl)
        × ((peak_with s a -ℤ a.total_equity) *ℤ pos 100 ≤ℤ config.max_drawdown_pct *ℤ peak_with s a)
  unfolding check_loss_limits check_peak
  check_loss_limits-true a s at positive h =
      elim (Bool-cases (ltb_ℤ s.daily_pnl (pos 0 -ℤ config.daily_loss_limit))) [
        | inl loss ↦ let bad = rw (check_loss_limits, loss) at h in absurd cc
        | inr no_loss ↦ (
          ground arith,
          check_drawdown-true a (record s { peak_equity = peak_with s a }) (ground arith)
              (rw (check_loss_limits, no_loss, at) at h),
        )
      ]

  module _ (greeks : Option GreeksCheckResult) where
    -- A buy that the risk manager approves, with an account whose equity is above 0, keeps the limits: the kill switch
    -- is off and the strategy not paused, the symbol is not blocked, the exposure with the order is within its percentage
    -- of the equity, the order's value is within the buying power, the daily loss is within its limit, and so is the
    -- drawdown from the peak equity, this account's included.
    pub evaluate_approves :
        (signal : Signal) (a : Account) (s : RiskState)
        → signal.action ≡ buy
        → holdings.account ≡ some a
        → pos 0 <ℤ a.total_equity
        → (evaluate grain config redis holdings greeks signal s).1 ≡ ok approved
        → (s.killed ≡ false)
          × (contains signal.strategy_id s.paused_strategies ≡ false)
          × (check_symbol_allowed grain config signal ≡ true)
          × WithinPortfolio a signal
          × (pos 0 -ℤ config.daily_loss_limit ≤ℤ s.daily_pnl)
          × ((peak_with s a -ℤ a.total_equity) *ℤ pos 100
              ≤ℤ config.max_drawdown_pct *ℤ peak_with s a)
    unfolding evaluate from_pause from_symbol from_position from_portfolio from_loss
        check_portfolio_limits
    evaluate_approves signal a s is_buy at positive h =
        let s₀ = record s { last_greeks_check = none } in
        let pause = from_pause grain config redis holdings greeks signal in
        let symbol = from_symbol grain config redis holdings greeks signal in
        let position = from_position grain config redis holdings greeks signal in
        let portfolio = from_portfolio grain config redis holdings greeks signal in
        let loss = from_loss grain config redis holdings greeks in
        let last = from_greeks grain config redis holdings greeks in
        let (alive, h₁) = then_check-approved (s₀, ok (not s.killed)) kill_switch pause h in
        let (running, h₂) =
          then_check-approved (s₀, ok (not (contains signal.strategy_id s.paused_strategies)))
            strategy_paused symbol h₁ in
        let (allowed, h₃) =
          then_check-approved (s₀, ok (check_symbol_allowed grain config signal)) symbol_allowed
            position h₂ in
        let (_, h₄) =
          then_check-approved
            (s₀, check_position_limits grain config redis holdings signal.action signal)
            position_limits portfolio h₃ in
        let (in_portfolio, h₅) =
          then_check-approved (s₀, check_portfolio_limits grain config redis holdings signal)
            portfolio_limits loss h₄ in
        let (no_loss, h₆) =
          then_check-approved (check_loss_limits grain config redis holdings s₀) loss_limits last
            h₅ in
        let (pnl, drawdown) = check_loss_limits-true a s₀ at positive no_loss in
        (
          not-true s.killed (ok_injective alive),
          not-true (contains signal.strategy_id s.paused_strategies) (ok_injective running),
          ok_injective allowed,
          portfolio_of-true a signal is_buy positive
              (ap (λ o. portfolio_of grain config redis holdings o signal) (sym at) ∙ in_portfolio),
          pnl,
          drawdown,
        )

-- The percentage of an equity below 0 is within every limit from 0, however large the amount is.
pub within_pct_of_debt :
    (amount debt limit : ℕ) (under : ℕ)
    → within_pct (pos amount) (negsuc debt) (pos limit) under ≡ ok true
unfolding within_pct exceeds_pct ◌*ℤ◌
within_pct_of_debt amount debt limit under = ground arith
