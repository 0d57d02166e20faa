-- ===== src/Degradation/Service/Sync.antt =====
-- The gate follows the service.
use aq_trading.Prelude.{◌≡◌, ◌≢◌, ◌⊎◌, some, arith, is_some}
use aq_trading.Prelude.Int.{ℤ}
use aq_trading.Prelude.Text.{Text}
use aq_trading.Prelude.Result.{ok, raised}
use aq_trading.Degradation.Types.{
  SystemMode, recovering, is_recovering_mode, RecoveryStage, Clock, SystemEvent, ValueError,
}
use aq_trading.Degradation.Gate.{TradingGate}
use aq_trading.Degradation.Bus.{EventBus}
use aq_trading.Degradation.Service.{
  SystemStateService, new, handle_event, force_mode, update_recovery_stage,
}

-- The gate has the mode and the stage of the service, which has a stage exactly in `recovering`.
pub record IsSynced (s : SystemStateService) : Type 0 where
  pub same_mode : s.gate.mode ≡ s.mode
  pub same_stage : s.gate.stage ≡ s.stage
  pub staged : is_some s.stage ≡ is_recovering_mode s.mode

pub new-IsSynced : (g : TradingGate) (b : EventBus) → IsSynced (new g b)
unfolding new is_recovering_mode
new-IsSynced g b = ground arith

-- Handling any event never raises, and keeps the gate in step with the service.
pub handle_event-IsSynced :
    (t : Clock) (e : SystemEvent) (s : SystemStateService)
    → IsSynced s
    → let (s', r) = handle_event t e s in IsSynced s' × (r ≡ ok tt)
unfolding handle_event is_recovering_mode
handle_event-IsSynced t e s h = ground arith

-- Setting the recovery stage keeps the gate in step with the service; outside `recovering` it raises and
-- changes nothing.
pub update_recovery_stage-IsSynced :
    (stage : RecoveryStage) (s : SystemStateService)
    → IsSynced s
    → let (s', r) = update_recovery_stage stage s in
      IsSynced s'
      × (s.mode ≡ recovering → (r ≡ ok tt) × (s'.stage ≡ some stage))
      × (s.mode ≢ recovering → (r ≡ raised (ValueError.not_recovering s.mode)) × (s' ≡ s))
unfolding update_recovery_stage
update_recovery_stage-IsSynced stage s h = ground arith

-- Forcing a mode keeps the gate in step with the service, whatever the arguments, unless the mode
-- `recovering` is forced from another mode.
pub force_mode-IsSynced :
    (t : Clock) (mode : SystemMode) (ttl : ℤ) (operator reason : Text) (s : SystemStateService)
    → IsSynced s
    → (mode ≢ recovering) ⊎ (s.mode ≡ recovering)
    → IsSynced (force_mode t mode ttl operator reason s).0
unfolding force_mode is_recovering_mode
force_mode-IsSynced t mode ttl operator reason s h ok_mode = ground arith
