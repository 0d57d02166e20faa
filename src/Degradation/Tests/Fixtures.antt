-- ===== src/Degradation/Tests/Fixtures.antt =====
-- A state service at its start and in the mode `normal`, and two failures.
use aq_trading.Prelude.{ℕ, none, some, []}
use aq_trading.Degradation.Types.{
  EventType, ComponentSource, Severity, ReasonCode, Clock, SystemEvent, create_event,
  default_config,
}
use aq_trading.Degradation.Gate
use aq_trading.Degradation.Gate.{TradingGate, update_mode, allows}
use aq_trading.Degradation.Bus
use aq_trading.Degradation.Bus.{EventBus, publish, dispatch_loop}
use aq_trading.Degradation.Service
use aq_trading.Degradation.Service.{
  SystemStateService, ForceOverrideState, decision_matrix, handle_event, force_mode,
  update_recovery_stage,
}

abbrev pub at : ℕ → Clock
at t = record { mono = t; wall = t }

abbrev pub gate : TradingGate
gate = Gate.new

abbrev pub quiet_bus : EventBus
quiet_bus = Bus.new default_config (some [])

abbrev pub service : SystemStateService
service = Service.new gate quiet_bus

abbrev pub event : ReasonCode → SystemEvent
event r =
    create_event (at 0) EventType.fail_crit ComponentSource.broker Severity.critical r none none

abbrev pub stale : Clock × SystemEvent
stale = (at 1, event ReasonCode.md_stale)

abbrev pub disconnect : Clock × SystemEvent
disconnect = (at 2, event ReasonCode.broker_disconnect)

abbrev pub running : SystemStateService
running = (handle_event (at 0) (event ReasonCode.all_healthy) service).0
