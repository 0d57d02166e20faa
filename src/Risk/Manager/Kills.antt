-- ===== src/Risk/Manager/Kills.antt =====
-- A loss limit that is broken stops all trading.
use aq_trading.Prelude.{
  ℕ, ◌≡◌, ◌≢◌, refl, sym, ◌∙◌, ap, subst, Bool, true, false, not, Option, none, some, List, [], ◌∷◌,
  All, if_keeps,
}
use aq_trading.Prelude.Dict.{contains}
use aq_trading.Prelude.Int.{pos, ◌-ℤ◌, ltb_ℤ}
use aq_trading.Prelude.Result.{Result, ok, raised}
use aq_trading.Risk.Gate.{GreeksCheckResult}
use aq_trading.Risk.Manager.{
  Signal, RiskConfig, Account, Holdings, RedisAnswer, RiskState, CheckError, Rejection, kill_switch,
  strategy_paused, symbol_allowed, position_limits, portfolio_limits, loss_limits, greeks_limits,
  Verdict, approved, rejected, then_check, max_ℤ, daily_loss_exceeded, drawdown_exceeded,
  activate_kill_switch, check_symbol_allowed, check_position_limits, check_portfolio_limits,
  exceeds_drawdown, check_drawdown, check_peak, check_loss_limits, greeks_of, check_greeks_limits,
  from_greeks, from_loss, from_portfolio, from_position, from_symbol, from_pause, evaluate,
}

-- A rejection for another reason than that of the check comes from the checks after it.
then_check-passes :
    (out : RiskState × Result CheckError Bool) (reason r : Rejection)
    (rest : RiskState → RiskState × Result CheckError Verdict)
    → reason ≢ r
    → (then_check out reason rest).1 ≡ ok (rejected r)
    → then_check out reason rest ≡ rest out.0
then_check-passes (s, raised e) reason r rest other h = absurd cc
then_check-passes (s, ok false) reason r rest other h = absurd (other cc)
then_check-passes (s, ok true) reason r rest other h = refl

-- A loss check that fails has killed.
IsKilledBy : RiskState × Result CheckError Bool → Type 0
IsKilledBy (s, raised e) = Unit
IsKilledBy (s, ok true) = Unit
IsKilledBy (s, ok false) = s.killed ≡ true

module _ (grain : ℕ) (config : RiskConfig) (redis : Option RedisAnswer) (holdings : Holdings) where
  check_drawdown-IsKilledBy :
      (a : Account) (s : RiskState) → IsKilledBy (check_drawdown grain config redis holdings a s)
  unfolding check_drawdown activate_kill_switch IsKilledBy
  check_drawdown-IsKilledBy a s =
      if_keeps IsKilledBy (exceeds_drawdown grain config redis holdings a s)
        (activate_kill_switch drawdown_exceeded s, ok false) (s, ok true) refl tt

  check_peak-IsKilledBy :
      (a : Option Account) (s : RiskState) → IsKilledBy (check_peak grain config redis holdings a s)
  unfolding check_peak IsKilledBy
  check_peak-IsKilledBy none s = tt
  check_peak-IsKilledBy (some a) s =
      check_drawdown-IsKilledBy a
        (record s { peak_equity = max_ℤ grain config redis holdings s.peak_equity a.total_equity })

  check_loss_limits-IsKilledBy :
      (s : RiskState) → IsKilledBy (check_loss_limits grain config redis holdings s)
  unfolding check_loss_limits activate_kill_switch IsKilledBy
  check_loss_limits-IsKilledBy s =
      if_keeps IsKilledBy (ltb_ℤ s.daily_pnl (pos 0 -ℤ config.daily_loss_limit))
        (activate_kill_switch daily_loss_exceeded s, ok false)
        (check_peak grain config redis holdings holdings.account s) refl
        (check_peak-IsKilledBy holdings.account s)

  module _ (greeks : Option GreeksCheckResult) where
    greeks_of-reason :
        (g : Option GreeksCheckResult) (s : RiskState)
        → (then_check
            (greeks_of grain config redis holdings greeks g s)
            greeks_limits
            (λ s. (s, ok approved))).1
          ≢ ok (rejected loss_limits)
    unfolding greeks_of
    greeks_of-reason none s e = absurd cc
    greeks_of-reason (some g) s e = go g.ok e
      where
        go :
            (b : Bool)
            → (then_check
                (record s { last_greeks_check = some g }, ok b)
                greeks_limits
                (λ s. (s, ok approved))).1
              ≢ ok (rejected loss_limits)
        go true e = absurd cc
        go false e = absurd cc

    from_loss-killed :
        (s : RiskState)
        → (from_loss grain config redis holdings greeks s).1 ≡ ok (rejected loss_limits)
        → (from_loss grain config redis holdings greeks s).0.killed ≡ true
    unfolding from_loss from_greeks check_greeks_limits IsKilledBy
    from_loss-killed s h =
        go (check_loss_limits grain config redis holdings s) (check_loss_limits-IsKilledBy s) h
      where
        go :
            (out : RiskState × Result CheckError Bool)
            → IsKilledBy out
            → (then_check out loss_limits (from_greeks grain config redis holdings greeks)).1
              ≡ ok (rejected loss_limits)
            → (then_check out loss_limits (from_greeks grain config redis holdings greeks)).0.killed
              ≡ true
        go (s, raised e) killed h = absurd cc
        go (s, ok true) killed h = absurd (greeks_of-reason greeks s h)
        go (s, ok false) killed h = killed

    evaluate-killed :
        (signal : Signal) (s : RiskState)
        → (evaluate grain config redis holdings greeks signal s).1 ≡ ok (rejected loss_limits)
        → (evaluate grain config redis holdings greeks signal s).0.killed ≡ true
    unfolding evaluate from_pause from_symbol from_position from_portfolio
    evaluate-killed signal s h = subst Ends (sym all) (from_loss-killed s₀) h
      where
        Ends : RiskState × Result CheckError Verdict → Type 0
        Ends out = out.1 ≡ ok (rejected loss_limits) → out.0.killed ≡ true

        s₀ : RiskState
        s₀ = record s { last_greeks_check = none }

        all :
            evaluate grain config redis holdings greeks signal s
            ≡ from_loss grain config redis holdings greeks s₀
        all =
            let e₁ =
              then_check-passes (s₀, ok (not s.killed)) kill_switch loss_limits
                (from_pause grain config redis holdings greeks signal) (λ e. absurd cc) h in
            let e₂ =
              then_check-passes (s₀, ok (not (contains signal.strategy_id s.paused_strategies)))
                strategy_paused loss_limits (from_symbol grain config redis holdings greeks signal)
                (λ e. absurd cc) (sym (ap (λ o. o.1) e₁) ∙ h) in
            let e₃ =
              then_check-passes (s₀, ok (check_symbol_allowed grain config signal)) symbol_allowed
                loss_limits (from_position grain config redis holdings greeks signal)
                (λ e. absurd cc) (sym (ap (λ o. o.1) (e₁ ∙ e₂)) ∙ h) in
            let e₄ =
              then_check-passes
                (s₀, check_position_limits grain config redis holdings signal.action signal)
                position_limits loss_limits
                (from_portfolio grain config redis holdings greeks signal) (λ e. absurd cc)
                (sym (ap (λ o. o.1) (e₁ ∙ e₂ ∙ e₃)) ∙ h) in
            let e₅ =
              then_check-passes (s₀, check_portfolio_limits grain config redis holdings signal)
                portfolio_limits loss_limits (from_loss grain config redis holdings greeks)
                (λ e. absurd cc) (sym (ap (λ o. o.1) (e₁ ∙ e₂ ∙ e₃ ∙ e₄)) ∙ h) in
            e₁ ∙ e₂ ∙ e₃ ∙ e₄ ∙ e₅

-- One call of `evaluate`, with what it is answered.
pub record Query : Type 0 where
  pub redis : Option RedisAnswer
  pub holdings : Holdings
  pub greeks : Option GreeksCheckResult
  pub signal : Signal

module _ (grain : ℕ) (config : RiskConfig) where
  unfoldable pub evaluate_query : Query → RiskState → RiskState × Result CheckError Verdict
  unfolding evaluate
  evaluate_query q s = evaluate grain config q.redis q.holdings q.greeks q.signal s

  -- The verdicts of one call after another.
  unfoldable pub evaluate_all : List Query → RiskState → List (Result CheckError Verdict)
  unfolding evaluate_query
  evaluate_all [] s = []
  evaluate_all (q ∷ rest) s = (evaluate_query q s).1 ∷ evaluate_all rest (evaluate_query q s).0

  killed-rejects :
      (q : Query) (s : RiskState)
      → s.killed ≡ true
      → evaluate_query q s ≡ (record s { last_greeks_check = none }, ok (rejected kill_switch))
  unfolding evaluate_query evaluate
  killed-rejects q s killed = cc

  killed-All :
      (qs : List Query) (s : RiskState)
      → s.killed ≡ true
      → All (λ v. v ≡ ok (rejected kill_switch)) (evaluate_all qs s)
  unfolding evaluate_all
  killed-All [] s killed = tt
  killed-All (q ∷ rest) s killed =
      let e = killed-rejects q s killed in
      (ap (λ o. o.1) e, killed-All rest (evaluate_query q s).0 (ap (λ o. o.0.killed) e ∙ killed))

  -- Once a signal has been rejected for the loss limits, every signal after it is rejected by the kill switch, whatever
  -- the portfolio, Redis and the Greeks gate answer then. Only evaluations are made in between: a call of
  -- `deactivate_kill_switch` would end it.
  pub loss_stops-All :
      (q : Query) (qs : List Query) (s : RiskState)
      → (evaluate_query q s).1 ≡ ok (rejected loss_limits)
      → All (λ v. v ≡ ok (rejected kill_switch)) (evaluate_all qs (evaluate_query q s).0)
  unfolding evaluate_query
  loss_stops-All q qs s h =
      killed-All qs (evaluate_query q s).0
        (evaluate-killed grain config q.redis q.holdings q.greeks q.signal s h)
