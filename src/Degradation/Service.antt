-- ===== src/Degradation/Service.antt =====
-- The single source of truth of the system's mode: `SystemStateService` of
-- backend/src/degradation/state_service.py. The service holds the gate and the bus that it
-- writes to, so they are fields of its record. Its lock makes a method atomic; a method reads the
-- clocks once. A method that can raise returns the state that the exception leaves.
pub mod Sync
pub mod Escalation
pub mod History
pub mod Override
use aq_trading.Prelude.{
  ℕ, suc, ◌+◌, ◌*◌, Bool, true, false, not, ◌||◌, Option, none, some, List, [], ◌∷◌, ◌++◌, leb, ltb,
  if◌then◌else◌, is_some,
}
use aq_trading.Prelude.Int.{ℤ, pos, negsuc}
use aq_trading.Prelude.Text.{Text, is_blank}
use aq_trading.Prelude.Result.{Result, ok, raised}
use aq_trading.Degradation.Types.{
  SystemMode, normal, degraded, safe_mode, safe_mode_disconnected, halt, recovering, mode_priority,
  is_recovering_mode, RecoveryStage, connect_broker, EventType, ComponentSource, Severity,
  ReasonCode, mode_details, Clock, SystemEvent, create_event, ModeTransition, second,
  DegradationConfig, ValueError, operator_required, reason_required, ttl_not_positive,
  not_recovering,
}
use aq_trading.Degradation.Gate
use aq_trading.Degradation.Gate.{TradingGate, update_mode}
use aq_trading.Degradation.Bus.{EventBus, publish}

-- `DECISION_MATRIX`, which has an entry for every reason code
unfoldable pub decision_matrix : ReasonCode → SystemMode
decision_matrix ReasonCode.broker_disconnect = safe_mode_disconnected
decision_matrix ReasonCode.broker_reconnected = recovering
decision_matrix ReasonCode.broker_report_mismatch = halt
decision_matrix ReasonCode.md_stale = safe_mode
decision_matrix ReasonCode.md_quality_degraded = degraded
decision_matrix ReasonCode.risk_timeout = safe_mode
decision_matrix ReasonCode.risk_breach_hard = halt
decision_matrix ReasonCode.position_truth_unknown = halt
decision_matrix ReasonCode.db_write_fail = degraded
decision_matrix ReasonCode.db_buffer_overflow = safe_mode
decision_matrix ReasonCode.alerts_channel_down = degraded
decision_matrix ReasonCode.cold_start = recovering
decision_matrix ReasonCode.recovery_failed = halt
decision_matrix ReasonCode.all_healthy = normal

pub record ForceOverrideState : Type 0 where
  pub mode : SystemMode
  pub ttl_seconds : ℕ
  pub operator_id : Text
  pub reason : Text
  pub start_time_mono : ℕ
  pub start_time_wall : ℕ

pub record SystemStateService : Type 0 where
  pub mode : SystemMode
  pub stage : Option RecoveryStage
  pub force_override : Option ForceOverrideState
  pub transition_history : List ModeTransition
  pub gate : TradingGate
  pub bus : EventBus

-- `__init__`: `update_mode` cannot raise at these arguments.
unfoldable pub new : TradingGate → EventBus → SystemStateService
unfolding update_mode
new gate bus = record {
  mode = recovering;
  stage = some connect_broker;
  force_override = none;
  transition_history = [];
  gate = (update_mode recovering (some connect_broker) gate).0;
  bus = bus;
}

-- `elapsed > ttl_seconds`, with the clock moved to the other side
unfoldable pub has_expired : ForceOverrideState → ℕ → Bool
has_expired o now = ltb (o.start_time_mono + o.ttl_seconds * second) now

-- The property `is_force_override`, which clears an override that has expired.
unfoldable pub is_force_override : ℕ → SystemStateService → SystemStateService × Bool
unfolding has_expired
is_force_override now s = elim s.force_override [
  | none ↦ (s, false)
  | some o ↦ if has_expired o now then (record s { force_override = none }, false) else (s, true)
]

-- `target in (SystemMode.NORMAL, SystemMode.RECOVERING)`
unfoldable pub is_release : SystemMode → Bool
is_release normal = true
is_release recovering = true
is_release _ = false

unfoldable pub can_transition : SystemMode → SystemMode → Bool
unfolding mode_priority is_release
can_transition current target =
    if leb (mode_priority current) (mode_priority target) then true else is_release target

-- The severity that `_publish_mode_change` chooses.
unfoldable pub severity_of : SystemMode → Severity
severity_of halt = Severity.critical
severity_of safe_mode = Severity.warning
severity_of safe_mode_disconnected = Severity.warning
severity_of _ = Severity.info

unfoldable pub event_type_of : SystemMode → EventType
event_type_of normal = EventType.recovered
event_type_of _ = EventType.quality_degraded

unfoldable pub mode_change_event :
    Clock → SystemMode → SystemMode → ReasonCode → ComponentSource → SystemEvent
unfolding severity_of event_type_of create_event
mode_change_event t old new reason source =
    create_event t (event_type_of new) source (severity_of new) reason (some (mode_details old new))
      none

unfoldable pub publish_mode_change :
    Clock
    → SystemMode
    → SystemMode
    → ReasonCode
    → ComponentSource
    → SystemStateService
    → SystemStateService
unfolding mode_change_event publish
publish_mode_change t old new reason source s = record s {
  bus = (publish (mode_change_event t old new reason source) s.bus).0;
}

-- The stage after a transition to a mode.
unfoldable pub next_stage : SystemMode → Option RecoveryStage → Option RecoveryStage
next_stage recovering none = some connect_broker
next_stage recovering (some stage) = some stage
next_stage _ stage = none

-- `s` with its mode and stage set, and the gate told; the history and the bus wait for the gate.
unfoldable pub enter_mode :
    SystemMode
    → Option RecoveryStage
    → SystemStateService
    → SystemStateService × Result ValueError (Unit {0})
unfolding update_mode
enter_mode mode stage s =
    let (gate, r) = update_mode mode stage s.gate in
    (record s { mode = mode; stage = stage; gate = gate }, r)

abbrev pub event_transition :
    Clock → SystemMode → SystemMode → ReasonCode → ComponentSource → ModeTransition
event_transition t old target reason source = record {
  from_mode = old;
  to_mode = target;
  reason_code = reason;
  source = source;
  timestamp_wall = t.wall;
  timestamp_mono = t.mono;
  operator_id = none;
  override_ttl = none;
}

unfoldable pub transition_to :
    Clock
    → SystemMode
    → ReasonCode
    → ComponentSource
    → SystemStateService
    → SystemStateService × Result ValueError (Unit {0})
unfolding enter_mode next_stage publish_mode_change
transition_to t target reason source s =
    let (s', r) = enter_mode target (next_stage target s.stage) s in
    elim r [
      | raised e ↦ (s', raised e)
      | ok _ ↦ (
        publish_mode_change t s.mode target reason source (record s' {
          transition_history =
              s'.transition_history ++ event_transition t s.mode target reason source ∷ [];
        }),
        ok tt,
      )
    ]

unfoldable pub handle_event :
    Clock → SystemEvent → SystemStateService → SystemStateService × Result ValueError (Unit {0})
unfolding is_force_override decision_matrix can_transition transition_to
handle_event t e s =
    let (s', overridden) = is_force_override t.mono s in
    let target = decision_matrix e.reason_code in
    if overridden
    then (s', ok tt)
    else if not (can_transition s'.mode target)
    then (s', ok tt)
    else transition_to t target e.reason_code e.source s'

-- `ttl_seconds <= 0` is refused, so what is kept is a positive number.
unfoldable pub positive : ℤ → Option ℕ
positive (pos (suc n)) = some (suc n)
positive _ = none

-- The part of `force_mode` under the lock.
unfoldable pub apply_force :
    Clock
    → SystemMode
    → ℕ
    → Text
    → Text
    → SystemStateService
    → SystemStateService × Result ValueError (Unit {0})
unfolding enter_mode is_recovering_mode
apply_force t mode ttl operator reason s =
    let o : ForceOverrideState = record {
      mode = mode;
      ttl_seconds = ttl;
      operator_id = operator;
      reason = reason;
      start_time_mono = t.mono;
      start_time_wall = t.wall;
    } in
    let (s', r) =
      enter_mode mode (if is_recovering_mode mode then s.stage else none)
        (record s { force_override = some o }) in
    let entry : ModeTransition = record {
      from_mode = s.mode;
      to_mode = mode;
      reason_code = ReasonCode.cold_start;
      source = ComponentSource.system;
      timestamp_wall = t.wall;
      timestamp_mono = t.mono;
      operator_id = some operator;
      override_ttl = some ttl;
    } in
    elim r [
      | raised e ↦ (s', raised e)
      | ok _ ↦ (record s' { transition_history = s'.transition_history ++ entry ∷ [] }, ok tt)
    ]

unfoldable pub force_mode :
    Clock
    → SystemMode
    → ℤ
    → Text
    → Text
    → SystemStateService
    → SystemStateService × Result ValueError (Unit {0})
unfolding positive apply_force
force_mode t mode ttl operator reason s =
    if is_blank operator
    then (s, raised operator_required)
    else if is_blank reason
    then (s, raised reason_required)
    else elim (positive ttl) [
      | none ↦ (s, raised ttl_not_positive)
      | some n ↦ apply_force t mode n operator reason s
    ]

unfoldable pub update_recovery_stage :
    RecoveryStage → SystemStateService → SystemStateService × Result ValueError (Unit {0})
unfolding enter_mode is_recovering_mode
update_recovery_stage stage s =
    if is_recovering_mode s.mode
    then enter_mode s.mode (some stage) s
    else (s, raised (not_recovering s.mode))
