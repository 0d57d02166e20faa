-- ===== src/Degradation/Service/Override.antt =====
-- An operator's override of the mode.
use aq_trading.Prelude.{◌≡◌, ◌≢◌, ◌⊎◌, ◌+◌, ◌*◌, ◌≤◌, true, false, none, arith, suc, ℕ}
use aq_trading.Prelude.Int.{ℤ, pos, ◌≤ℤ◌}
use aq_trading.Prelude.Text.{Text, is_blank}
use aq_trading.Prelude.Result.{ok, raised}
use aq_trading.Degradation.Types.{SystemMode, recovering, Clock, SystemEvent, second, ValueError}
use aq_trading.Degradation.Service.{SystemStateService, handle_event, force_mode}
use aq_trading.Degradation.Service.Sync.{IsSynced}

-- A blank operator, a blank reason or a time to live that is not positive is refused, and leaves the
-- service as it was.
pub force_mode-refused :
    (t : Clock) (mode : SystemMode) (ttl : ℤ) (operator reason : Text) (s : SystemStateService)
    → (is_blank operator ≡ true) ⊎ (is_blank reason ≡ true) ⊎ (ttl ≤ℤ pos 0)
    → (force_mode t mode ttl operator reason s).0 ≡ s
unfolding force_mode
force_mode-refused t mode (pos (suc n)) operator reason s bad = ground arith
force_mode-refused t mode ttl operator reason s bad = ground arith

module _ (t : Clock) (ttl : ℕ) (operator reason : Text) (s : SystemStateService)
    (operator_given : is_blank operator ≡ false) (reason_given : is_blank reason ≡ false) where
  -- With an operator, a reason and a positive time to live, a mode other than `recovering` is forced
  -- from every mode, however severe: the call returns, the service has the mode, the override lasts from now
  -- for the time given, and every event that is handled before it has run out changes nothing.
  pub force_mode-holds :
      (mode : SystemMode)
      → mode ≢ recovering
      → let (s', r) = force_mode t mode (pos (suc ttl)) operator reason s in
        (r ≡ ok tt)
        × (s'.mode ≡ mode)
        × (s'.gate.mode ≡ mode)
        × ((u : Clock) (e : SystemEvent)
            → u.mono ≤ t.mono + suc ttl * second
            → handle_event u e s' ≡ (s', ok tt))
  unfolding force_mode handle_event
  force_mode-holds mode other = (ground arith, ground arith, ground arith, λ u e le. ground arith)

  -- Forcing `recovering` from another mode raises `ValueError` after the service has changed: its mode
  -- is `recovering`, without a stage and under an override, while the gate still has the old mode.
  pub force_mode-recovering_diverges :
      IsSynced s
      → s.mode ≢ recovering
      → let (s', r) = force_mode t recovering (pos (suc ttl)) operator reason s in
        (r ≡ raised ValueError.stage_required)
        × (s'.mode ≡ recovering)
        × (s'.stage ≡ none)
        × (s'.force_override ≢ none)
        × (s'.gate ≡ s.gate)
        × (s'.gate.mode ≢ s'.mode)
        × (s'.transition_history ≡ s.transition_history)
  unfolding force_mode
  force_mode-recovering_diverges h other = ground arith
