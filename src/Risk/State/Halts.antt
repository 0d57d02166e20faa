-- ===== src/Risk/State/Halts.antt =====
-- What ends a halt.
use aq_trading.Prelude.{ℕ, ◌≡◌, ◌⊎◌, refl, true, false, Option, List, [], ◌∷◌, All, arith}
use aq_trading.Risk.State.{
  running, halted, TradingState, Call, call_halt, call_pause, call_enable_resume, call_resume, halt,
  step, run, is_trading_allowed, is_close_allowed,
}

-- A resume works, or all trading is stopped.
abbrev pub IsConsistent : TradingState → Type 0
IsConsistent s =
    (s.can_resume ≡ true)
    ⊎ ((s.state ≡ halted) × (is_trading_allowed s ≡ false) × (is_close_allowed s ≡ false))

-- A halted state that may not be resumed.
abbrev pub IsLocked : TradingState → Type 0
IsLocked s = (s.state ≡ halted) × (s.can_resume ≡ false)

-- The call is none of `enable_resume` and `pause`.
abbrev pub KeepsLock : Call → Type 0
KeepsLock (call_halt now by reason) = Unit
KeepsLock (call_pause now by reason) = ⊥
KeepsLock (call_enable_resume by) = ⊥
KeepsLock (call_resume now by) = Unit

step-IsConsistent : (c : Call) (s : TradingState) → IsConsistent s → IsConsistent (step c s)
unfolding step is_trading_allowed is_close_allowed
step-IsConsistent c s h = ground arith

-- From a consistent state and whatever is called, a state in which a resume is refused is a halt: neither
-- trading nor closing is allowed in it.
pub run-IsConsistent :
    (cs : List Call) (s : TradingState) → IsConsistent s → IsConsistent (run cs s)
unfolding run
run-IsConsistent [] s h = h
run-IsConsistent (c ∷ cs) s h = run-IsConsistent cs (step c s) (step-IsConsistent c s h)

step-IsLocked : (c : Call) (s : TradingState) → KeepsLock c → IsLocked s → IsLocked (step c s)
unfolding step
step-IsLocked (call_halt now by reason) s k h = (refl, refl)
step-IsLocked (call_pause now by reason) s k h = absurd k
step-IsLocked (call_enable_resume by) s k h = absurd k
step-IsLocked (call_resume now by) s k h = ground arith

run-IsLocked :
    (cs : List Call) (s : TradingState) → All KeepsLock cs → IsLocked s → IsLocked (run cs s)
unfolding run
run-IsLocked [] s k h = h
run-IsLocked (c ∷ cs) s k h = run-IsLocked cs (step c s) k.1 (step-IsLocked c s k.0 h)

-- A halt holds, and neither trading nor closing is allowed, through any number of calls of `resume` and
-- `halt`, until `enable_resume` or `pause` is called.
pub halt_holds :
    (now by reason : ℕ) (cs : List Call) (s : TradingState)
    → All KeepsLock cs
    → let s' = run cs (halt now by reason s) in
      (s'.state ≡ halted) × (is_trading_allowed s' ≡ false) × (is_close_allowed s' ≡ false)
unfolding is_trading_allowed is_close_allowed
halt_holds now by reason cs s k =
    let h = run-IsLocked cs (halt now by reason s) k (unfold halt in (refl, refl)) in
    (h.0, rw h.0, rw h.0)

-- `pause` lifts a halt without `enable_resume`: from every state, a halt that is followed by a pause and a resume
-- ends with trading allowed, whoever makes the calls.
pub pause_lifts_halt :
    (t₁ t₂ t₃ a b c why : ℕ) (because : Option ℕ) (s : TradingState)
    → let s' = run (call_halt t₁ a why ∷ call_pause t₂ b because ∷ call_resume t₃ c ∷ []) s in
      (s'.state ≡ running) × (is_trading_allowed s' ≡ true)
unfolding run is_trading_allowed
pause_lifts_halt t₁ t₂ t₃ a b c why because s = (refl, refl)
