-- ===== src/Degradation/Breaker.antt =====
-- The circuit breakers: `CircuitBreaker` and its four subclasses of
-- backend/src/degradation/breakers.py. A breaker is a record, a method returns the new record and
-- the event; `time.monotonic()` is an argument.
pub mod Hysteresis
pub mod Trace
use aq_trading.Prelude.{ℕ, suc, ◌+◌, Bool, true, Option, none, some, or_else, leb, if◌then◌else◌}
use aq_trading.Prelude.Int.{ℤ, pos, ◌+ℤ◌, leb_ℤ}
use aq_trading.Degradation.Types.{
  SystemLevel, healthy, unstable, tripped, EventType, ComponentSource, Severity, ReasonCode,
  Details, breaker_details, level_details, Clock, SystemEvent, create_event, DegradationConfig,
}

-- `_LEVEL_PRIORITY`
unfoldable pub level_priority : SystemLevel → ℕ
level_priority healthy = 0
level_priority unstable = 1
level_priority tripped = 2

pub record BreakerState : Type 0 where
  pub level : SystemLevel
  pub failure_count : ℕ
  pub first_failure_mono : Option ℕ
  pub last_success_mono : Option ℕ

pub record CircuitBreaker : Type 0 where
  pub source : ComponentSource
  pub config : DegradationConfig
  pub trip_reason_code : ReasonCode
  pub recovery_reason_code : ReasonCode
  pub state : BreakerState

unfoldable pub new : ComponentSource → DegradationConfig → ReasonCode → ReasonCode → CircuitBreaker
new source config trip recovery = record {
  source = source;
  config = config;
  trip_reason_code = trip;
  recovery_reason_code = recovery;
  state = record {
    level = healthy;
    failure_count = 0;
    first_failure_mono = none;
    last_success_mono = none;
  };
}

unfoldable pub is_tripped_level : SystemLevel → Bool
is_tripped_level tripped = true
is_tripped_level _ = Bool.false

unfoldable pub is_tripped : CircuitBreaker → Bool
unfolding is_tripped_level
is_tripped b = is_tripped_level b.state.level

-- `now - first >= fail_threshold_seconds`, with `first` moved to the other side
unfoldable pub check_trip_conditions : CircuitBreaker → ℕ → Bool
check_trip_conditions b now =
    if leb_ℤ b.config.fail_threshold_count (pos b.state.failure_count)
    then true
    else elim b.state.first_failure_mono [
      | none ↦ Bool.false
      | some first ↦ leb_ℤ (pos first +ℤ b.config.fail_threshold_time) (pos now)
    ]

unfoldable pub create_degraded_event : CircuitBreaker → Clock → SystemEvent
unfolding create_event
create_degraded_event b t =
    create_event t EventType.quality_degraded b.source Severity.warning b.trip_reason_code
      (some (breaker_details unstable b.state.failure_count)) none

unfoldable pub create_trip_event : CircuitBreaker → Clock → SystemEvent
unfolding create_event
create_trip_event b t =
    create_event t EventType.fail_crit b.source Severity.critical b.trip_reason_code
      (some (breaker_details tripped b.state.failure_count)) none

unfoldable pub create_recovery_event : CircuitBreaker → Clock → SystemEvent
unfolding create_event
create_recovery_event b t =
    create_event t EventType.recovered b.source Severity.info b.recovery_reason_code
      (some (level_details healthy)) none

-- The counters of `record_failure`, before the level is looked at.
unfoldable pub count_failure : CircuitBreaker → ℕ → CircuitBreaker
count_failure b now = record b {
  state = record (b.state) {
    failure_count = b.state.failure_count + 1;
    first_failure_mono = some (or_else b.state.first_failure_mono now);
  };
}

abbrev pub set_level : CircuitBreaker → SystemLevel → CircuitBreaker
set_level b l = record b { state = record (b.state) { level = l } }

-- The branches of `record_failure`; `b` has its counters updated.
unfoldable pub fail_at : SystemLevel → CircuitBreaker → Clock → CircuitBreaker × Option SystemEvent
unfolding check_trip_conditions create_degraded_event create_trip_event
fail_at healthy b t = let b' = set_level b unstable in (b', some (create_degraded_event b' t))
fail_at unstable b t =
    let b' = set_level b tripped in
    if check_trip_conditions b t.mono then (b', some (create_trip_event b' t)) else (b, none)
fail_at tripped b t = (b, none)

unfoldable pub record_failure : CircuitBreaker → Clock → CircuitBreaker × Option SystemEvent
unfolding count_failure fail_at
record_failure b t = fail_at b.state.level (count_failure b t.mono) t

-- The event of `record_success`, by the level before the reset.
unfoldable pub recovery_of : SystemLevel → CircuitBreaker → Clock → Option SystemEvent
unfolding create_recovery_event
recovery_of healthy b t = none
recovery_of _ b t = some (create_recovery_event b t)

unfoldable pub record_success : CircuitBreaker → Clock → CircuitBreaker × Option SystemEvent
unfolding recovery_of
record_success b t =
    let b' = record b {
      state = record {
        level = healthy;
        failure_count = 0;
        first_failure_mono = none;
        last_success_mono = some t.mono;
      };
    } in
    (b', recovery_of b.state.level b' t)

unfoldable pub effective_level : CircuitBreaker → SystemLevel → SystemLevel
unfolding level_priority
effective_level b central =
    if leb (level_priority central) (level_priority b.state.level) then b.state.level else central

unfoldable pub broker_breaker : DegradationConfig → CircuitBreaker
unfolding new
broker_breaker c =
    new ComponentSource.broker c ReasonCode.broker_disconnect ReasonCode.broker_reconnected

unfoldable pub market_data_breaker : DegradationConfig → CircuitBreaker
unfolding new
market_data_breaker c = new ComponentSource.market_data c ReasonCode.md_stale ReasonCode.all_healthy

unfoldable pub risk_breaker : DegradationConfig → CircuitBreaker
unfolding new
risk_breaker c = new ComponentSource.risk c ReasonCode.risk_timeout ReasonCode.all_healthy

unfoldable pub db_breaker : DegradationConfig → CircuitBreaker
unfolding new
db_breaker c = new ComponentSource.db c ReasonCode.db_write_fail ReasonCode.all_healthy
