-- ===== src/Degradation/Types.antt =====
-- The data model of graceful degradation: backend/src/degradation/models.py and config.py.
-- A time is a number of microseconds; the source's floats of seconds are read at that grain.
use aq_trading.Prelude.{ℕ, Bool, true, false, Option, none, some}
use aq_trading.Prelude.Int.{ℤ, pos, ◌+ℤ◌, ◌*ℤ◌, ltb_ℤ}
use aq_trading.Prelude.Text.{Text}

pub data SystemMode : Type 0 where
  normal degraded safe_mode safe_mode_disconnected halt recovering : SystemMode

pub SystemMode-discrete : Discrete SystemMode
SystemMode-discrete = hlevel

-- `MODE_PRIORITY`
unfoldable pub mode_priority : SystemMode → ℕ
mode_priority normal = 0
mode_priority recovering = 1
mode_priority degraded = 2
mode_priority safe_mode = 3
mode_priority safe_mode_disconnected = 4
mode_priority halt = 5

pub data SystemLevel : Type 0 where
  healthy unstable tripped : SystemLevel

pub data RecoveryStage : Type 0 where
  connect_broker catchup_marketdata verify_risk ready : RecoveryStage

pub data RecoveryTrigger : Type 0 where
  auto manual cold_start : RecoveryTrigger

pub data EventType : Type 0 where
  fail_crit fail_supp recovered heartbeat quality_degraded : EventType

pub data ComponentSource : Type 0 where
  broker market_data risk db alerts system : ComponentSource

pub data Severity : Type 0 where
  info warning critical : Severity

pub data ReasonCode : Type 0 where
  broker_disconnect broker_reconnected broker_report_mismatch : ReasonCode
  md_stale md_quality_degraded : ReasonCode
  risk_timeout risk_breach_hard : ReasonCode
  position_truth_unknown : ReasonCode
  db_write_fail db_buffer_overflow : ReasonCode
  alerts_channel_down : ReasonCode
  cold_start recovery_failed all_healthy : ReasonCode

-- `open_position` is `ActionType.OPEN`.
pub data ActionType : Type 0 where
  open_position send amend cancel reduce_only query : ActionType

-- `reason_code in MUST_DELIVER_EVENTS`
unfoldable pub must_deliver : ReasonCode → Bool
must_deliver ReasonCode.broker_disconnect = true
must_deliver ReasonCode.position_truth_unknown = true
must_deliver ReasonCode.broker_report_mismatch = true
must_deliver ReasonCode.risk_breach_hard = true
must_deliver _ = false

-- The dictionaries that the package passes as an event's `details`, one constructor for each literal.
pub data Details : Type 0 where
  breaker_details : SystemLevel → ℕ → Details
  level_details : SystemLevel → Details
  mode_details : SystemMode → SystemMode → Details
  run_details : Text → RecoveryTrigger → Option Text → Details
  completed_details : Details

-- The two clocks as an operation reads them: `time.monotonic()` and `datetime.now()`.
pub record Clock : Type 0 where
  pub mono : ℕ
  pub wall : ℕ

pub record SystemEvent : Type 0 where
  pub event_type : EventType
  pub source : ComponentSource
  pub severity : Severity
  pub reason_code : ReasonCode
  pub event_time_wall : ℕ
  pub event_time_mono : ℕ
  pub details : Option Details
  pub ttl_seconds : Option ℤ

-- one second
abbrev pub second : ℕ
second = 1000000

unfoldable pub is_critical : SystemEvent → Bool
unfolding must_deliver
is_critical e = must_deliver e.reason_code

-- `elapsed > ttl_seconds`, with the clock moved to the other side
unfoldable pub is_expired : SystemEvent → ℕ → Bool
is_expired e now = elim e.ttl_seconds [
  | none ↦ false
  | some ttl ↦ ltb_ℤ (pos e.event_time_mono +ℤ ttl *ℤ pos second) (pos now)
]

unfoldable pub create_event :
    Clock
    → EventType
    → ComponentSource
    → Severity
    → ReasonCode
    → Option Details
    → Option ℤ
    → SystemEvent
create_event t kind source severity reason details ttl = record {
  event_type = kind;
  source = source;
  severity = severity;
  reason_code = reason;
  event_time_wall = t.wall;
  event_time_mono = t.mono;
  details = details;
  ttl_seconds = ttl;
}

pub record ModeTransition : Type 0 where
  pub from_mode : SystemMode
  pub to_mode : SystemMode
  pub reason_code : ReasonCode
  pub source : ComponentSource
  pub timestamp_wall : ℕ
  pub timestamp_mono : ℕ
  pub operator_id : Option Text
  pub override_ttl : Option ℕ

-- The thresholds of `DegradationConfig` that the modelled parts read; the times in microseconds.
pub record DegradationConfig : Type 0 where
  pub fail_threshold_count : ℤ
  pub fail_threshold_time : ℤ
  pub min_safe_mode_time : ℤ
  pub db_buffer_max_entries : ℤ
  pub db_buffer_max_bytes : ℤ
  pub event_bus_queue_size : ℤ
  pub position_cache_stale_ms : ℤ

-- the defaults
abbrev pub default_config : DegradationConfig
default_config = record {
  fail_threshold_count = pos 3;
  fail_threshold_time = pos 5000000;
  min_safe_mode_time = pos 30000000;
  db_buffer_max_entries = pos 1000;
  db_buffer_max_bytes = pos 10000000;
  event_bus_queue_size = pos 10000;
  position_cache_stale_ms = pos 30000;
}

-- The `ValueError`s that the package raises, by their messages.
pub data ValueError : Type 0 where
  stage_required : ValueError
  operator_required reason_required ttl_not_positive : ValueError
  not_recovering : SystemMode → ValueError

-- `mode == SystemMode.RECOVERING`
unfoldable pub is_recovering_mode : SystemMode → Bool
is_recovering_mode recovering = true
is_recovering_mode _ = false
