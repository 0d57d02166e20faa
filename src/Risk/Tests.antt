-- ===== src/Risk/Tests.antt =====
-- Risk control at concrete inputs.
use aq_trading.Prelude.{◌≡◌, refl, false, [], ◌∷◌}
use aq_trading.Risk.State.{
  running, halted, TradingState, call_halt, call_resume, call_enable_resume, halt, init, run,
  is_trading_allowed, is_close_allowed,
}
use aq_trading.Risk.State.Halts.{halt_holds}

abbrev start : TradingState
start = init 0 1

-- A halt, and the way out of it that the documentation names.
enabled_resumes :
    (run
      (call_halt 1 2 3 ∷ call_resume 2 2 ∷ call_enable_resume 4 ∷ call_resume 3 2 ∷ [])
      start).state
    ≡ running
unfolding run init
enabled_resumes = refl

halt_holds_example :
    let s' = run (call_resume 2 2 ∷ call_halt 3 1 1 ∷ call_resume 4 2 ∷ []) (halt 1 2 3 start) in
    (s'.state ≡ halted) × (is_trading_allowed s' ≡ false) × (is_close_allowed s' ≡ false)
halt_holds_example =
    halt_holds 1 2 3 (call_resume 2 2 ∷ call_halt 3 1 1 ∷ call_resume 4 2 ∷ []) start
      (tt, (tt, (tt, tt)))
