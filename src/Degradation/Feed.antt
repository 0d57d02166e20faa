-- ===== src/Degradation/Feed.antt =====
-- Breakers that feed the state service: a breaker's events, handled as they come
-- (backend/src/degradation/breakers.py and state_service.py together).
use aq_trading.Prelude.{◌≡◌, ◌≢◌, true, false, Option, none, some, arith}
use aq_trading.Degradation.Types.{
  normal, halt, safe_mode_disconnected, healthy, unstable, ReasonCode, Clock, SystemEvent,
  open_position,
}
use aq_trading.Degradation.Gate.{allows}
use aq_trading.Degradation.Breaker.{CircuitBreaker, record_failure, record_success}
use aq_trading.Degradation.Service.{SystemStateService, handle_event}

-- The service after a call of a breaker: it handles the event, if there is one.
unfoldable pub feed :
    Clock → CircuitBreaker × Option SystemEvent → SystemStateService → SystemStateService
feed t (b, none) s = s
feed t (b, some e) s = (handle_event t e s).0

-- The first failure of a healthy broker breaker makes it unstable, which is below the threshold that trips
-- it; but its event already has the reason `broker.disconnect`, so without an override it takes the service from
-- every mode but `halt` to `safe_mode_disconnected`, whose gate opens no position.
pub first_failure_disconnects :
    (t : Clock) (b : CircuitBreaker) (s : SystemStateService)
    → b.trip_reason_code ≡ ReasonCode.broker_disconnect
    → b.state.level ≡ healthy
    → s.force_override ≡ none
    → s.mode ≢ halt
    → let s' = feed t (record_failure b t) s in
      ((record_failure b t).0.state.level ≡ unstable)
      × (s'.mode ≡ safe_mode_disconnected)
      × (allows s'.gate open_position ≡ false)
unfolding feed record_failure handle_event allows
first_failure_disconnects t b s reason level free other = ground arith

-- The recovery of one breaker whose recovery code is `all.healthy` (market data, risk and database) takes
-- the service to `normal` from every mode, `halt` included, when no override is in force.
pub recovery_releases_halt :
    (t : Clock) (b : CircuitBreaker) (s : SystemStateService)
    → b.recovery_reason_code ≡ ReasonCode.all_healthy
    → b.state.level ≢ healthy
    → s.force_override ≡ none
    → let s' = feed t (record_success b t) s in
      (s'.mode ≡ normal) × (allows s'.gate open_position ≡ true)
unfolding feed record_success handle_event allows
recovery_releases_halt t b s reason level free = ground arith
