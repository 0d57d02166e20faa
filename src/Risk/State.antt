-- ===== src/Risk/State.antt =====
-- The trading state machine: `TradingStateManager` of backend/src/risk/state.py. A text is only kept,
-- so it is a number here; the wall clock is an argument.
pub mod Halts
use aq_trading.Prelude.{ℕ, Bool, true, false, Option, none, some, List, [], ◌∷◌, if◌then◌else◌}

pub data StateValue : Type 0 where
  running paused halted : StateValue

pub record TradingState : Type 0 where
  pub state : StateValue
  pub since : ℕ
  pub changed_by : ℕ
  pub reason : Option ℕ
  pub can_resume : Bool

-- `__init__`; `system` stands for the text `system`.
unfoldable pub init : ℕ → ℕ → TradingState
init now system = record {
  state = running;
  since = now;
  changed_by = system;
  reason = none;
  can_resume = true;
}

unfoldable pub halt : ℕ → ℕ → ℕ → TradingState → TradingState
halt now by reason s = record {
  state = halted;
  since = now;
  changed_by = by;
  reason = some reason;
  can_resume = false;
}

unfoldable pub pause : ℕ → ℕ → Option ℕ → TradingState → TradingState
pause now by reason s = record {
  state = paused;
  since = now;
  changed_by = by;
  reason = reason;
  can_resume = true;
}

-- `enable_resume`, by the state that it finds
unfoldable pub enable_in : StateValue → ℕ → TradingState → TradingState
enable_in halted by s = record {
  state = halted;
  since = s.since;
  changed_by = by;
  reason = s.reason;
  can_resume = true;
}
enable_in _ by s = s

unfoldable pub enable_resume : ℕ → TradingState → TradingState
unfolding enable_in
enable_resume by s = enable_in s.state by s

unfoldable pub resume : ℕ → ℕ → TradingState → TradingState × Bool
resume now by s =
    let resumed : TradingState = record {
      state = running;
      since = now;
      changed_by = by;
      reason = none;
      can_resume = true;
    } in
    if s.can_resume then (resumed, true) else (s, false)

unfoldable pub is_trading_allowed_in : StateValue → Bool
is_trading_allowed_in running = true
is_trading_allowed_in _ = false

unfoldable pub is_trading_allowed : TradingState → Bool
unfolding is_trading_allowed_in
is_trading_allowed s = is_trading_allowed_in s.state

unfoldable pub is_close_allowed_in : StateValue → Bool
is_close_allowed_in running = true
is_close_allowed_in paused = true
is_close_allowed_in halted = false

unfoldable pub is_close_allowed : TradingState → Bool
unfolding is_close_allowed_in
is_close_allowed s = is_close_allowed_in s.state

-- A call of the manager, with its arguments.
pub data Call : Type 0 where
  call_halt : ℕ → ℕ → ℕ → Call
  call_pause : ℕ → ℕ → Option ℕ → Call
  call_enable_resume : ℕ → Call
  call_resume : ℕ → ℕ → Call

unfoldable pub step : Call → TradingState → TradingState
unfolding halt pause enable_resume resume
step (call_halt now by reason) s = halt now by reason s
step (call_pause now by reason) s = pause now by reason s
step (call_enable_resume by) s = enable_resume by s
step (call_resume now by) s = (resume now by s).0

unfoldable pub run : List Call → TradingState → TradingState
unfolding step
run [] s = s
run (c ∷ cs) s = run cs (step c s)
