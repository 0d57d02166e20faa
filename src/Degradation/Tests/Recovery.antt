-- ===== src/Degradation/Tests/Recovery.antt =====
-- Recoveries and breaker events at concrete inputs.
use aq_trading.Prelude.{◌≡◌, refl, false, none, some, [], ◌∷◌}
use aq_trading.Prelude.Int.{pos}
use aq_trading.Prelude.Text.{Text, codes}
use aq_trading.Degradation.Types.{
  halt, safe_mode_disconnected, unstable, ready, RecoveryTrigger, ReasonCode, open_position,
  default_config, create_event,
}
use aq_trading.Degradation.Gate
use aq_trading.Degradation.Gate.{allows}
use aq_trading.Degradation.Bus
use aq_trading.Degradation.Breaker.{broker_breaker, record_failure}
use aq_trading.Degradation.Service
use aq_trading.Degradation.Service.{
  ForceOverrideState, SystemStateService, handle_event, force_mode,
}
use aq_trading.Degradation.Service.Sync.{IsSynced, new-IsSynced, handle_event-IsSynced}
use aq_trading.Degradation.Recovery
use aq_trading.Degradation.Recovery.{
  RecoveryOrchestrator, start_recovery, advance_stage, abort_recovery,
}
use aq_trading.Degradation.Recovery.Stages.{IsRecovered, advance_all, recovery_completes}
use aq_trading.Degradation.Feed.{feed, first_failure_disconnects}
use aq_trading.Degradation.Tests.Fixtures.{at, gate, quiet_bus, service, event, running}

abbrev halted : SystemStateService
halted = (handle_event (at 1) (event ReasonCode.risk_breach_hard) running).0

halted-IsSynced : IsSynced halted
halted-IsSynced =
    let first =
      handle_event-IsSynced (at 0) (event ReasonCode.all_healthy) service
        (new-IsSynced gate quiet_bus) in
    (handle_event-IsSynced (at 1) (event ReasonCode.risk_breach_hard) running first.0).0

halted_free : (halted.mode ≡ halt) × (halted.force_override ≡ none)
unfolding handle_event Service.new Gate.new Bus.new create_event
halted_free = (refl, refl)

abbrev run_id : Text
run_id = codes "recovery-0a1b2c3d"

abbrev idle : RecoveryOrchestrator
idle = Recovery.new default_config halted

idle_service : idle.service ≡ halted
unfolding Recovery.new
idle_service = refl

idle-IsSynced : IsSynced idle.service
idle-IsSynced = rw idle_service halted-IsSynced

idle_free : idle.service.force_override ≡ none
idle_free = rw idle_service halted_free.1

recovery_completes_example : IsRecovered (
    advance_all
      (at 3 ∷ at 4 ∷ at 5 ∷ at 6 ∷ [])
      run_id
      (start_recovery (at 2) run_id RecoveryTrigger.auto none idle).0)
recovery_completes_example =
    recovery_completes (at 2) (at 3) (at 4) (at 5) (at 6) run_id RecoveryTrigger.auto none idle
      idle-IsSynced idle_free

abbrev forced : SystemStateService
forced = (force_mode (at 2) halt (pos 60) (codes "ana") (codes "drill") running).0

abbrev drill : ForceOverrideState
drill = record {
  mode = halt;
  ttl_seconds = 60;
  operator_id = codes "ana";
  reason = codes "drill";
  start_time_mono = 2;
  start_time_wall = 2;
}

-- A recovery at its last stage while the service has been halted.
abbrev late : RecoveryOrchestrator
late = record {
  config = default_config;
  service = halted;
  current_run_id = some run_id;
  current_stage = some ready;
  trigger = some RecoveryTrigger.manual;
  operator_id = some (codes "ana");
  stage_start_time = some 4;
}

first_failure_disconnects_example :
    let b = broker_breaker default_config in
    let s' = feed (at 1) (record_failure b (at 1)) running in
    ((record_failure b (at 1)).0.state.level ≡ unstable)
    × (s'.mode ≡ safe_mode_disconnected)
    × (allows s'.gate open_position ≡ false)
unfolding broker_breaker handle_event Service.new Gate.new Bus.new create_event
first_failure_disconnects_example =
    first_failure_disconnects (at 1) (broker_breaker default_config) running refl refl refl
      (λ e. cc)
