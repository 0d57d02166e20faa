-- ===== src/Degradation/Tests/Parts.antt =====
-- A breaker, a gate, a bus and a buffer at concrete inputs.
use aq_trading.Prelude.{
  ℕ, ◌+◌, ◌≤◌, ◌≡◌, ◌↔◌, refl, true, false, none, some, List, [], ◌∷◌, ◌++◌, length, arith,
  if◌then◌else◌,
}
use aq_trading.Prelude.Int.{pos, ◌≤ℤ◌, ◌+ℤ◌}
use aq_trading.Degradation.Types.{
  is_recovering_mode, degraded, safe_mode, tripped, is_critical, ReasonCode, default_config,
}
use aq_trading.Degradation.Breaker.{CircuitBreaker, db_breaker}
use aq_trading.Degradation.Breaker.Hysteresis.{IsCoherent}
use aq_trading.Degradation.Breaker.Trace.{failures, failures_trip}
use aq_trading.Degradation.Gate.{TradingGate}
use aq_trading.Degradation.Gate.Permissions.{IsStaged}
use aq_trading.Degradation.Bus.{EventBus, publish, dispatch_loop}
use aq_trading.Degradation.Bus.Delivery.{
  IsBounded, HasSpace, calls_for, publish-outcome, dispatch_loop-drains,
}
use aq_trading.Degradation.Buffer
use aq_trading.Degradation.Buffer.{BufferEntry, WalLine, DbBuffer, add, flush_to_db}
use aq_trading.Degradation.Buffer.Durability
use aq_trading.Degradation.Buffer.Durability.{ended, crash_loses_nothing}
use aq_trading.Degradation.Tests.Fixtures.{at, event}

abbrev breaker : CircuitBreaker
breaker = db_breaker default_config

breaker-IsCoherent : IsCoherent breaker
unfolding db_breaker
breaker-IsCoherent = ground arith

failures_trip_example : ((failures (at 1 ∷ at 2 ∷ at 3 ∷ []) breaker).state.level ≡ tripped) ↔ (
    (2 ≤ length (at 1 ∷ at 2 ∷ at 3 ∷ []))
    × (breaker.config.fail_threshold_count ≤ℤ pos (length (at 1 ∷ at 2 ∷ at 3 ∷ []))))
unfolding db_breaker ◌+ℤ◌
failures_trip_example =
    failures_trip (at 1) (at 2 ∷ at 3 ∷ []) breaker breaker-IsCoherent refl (omega arith)

abbrev open_gate : TradingGate
open_gate = record { mode = degraded; stage = none }

abbrev safe_gate : TradingGate
safe_gate = record { mode = safe_mode; stage = none }

open_gate-IsStaged : IsStaged open_gate
unfolding is_recovering_mode
open_gate-IsStaged = refl

abbrev small_bus : EventBus
small_bus = record {
  config = record default_config { event_bus_queue_size = pos 1 };
  queue = event ReasonCode.md_stale ∷ [];
  subscribers = 1 ∷ 2 ∷ [];
  drop_count = 0;
  fallback_log = some [];
  has_callback = true;
  running = true;
  emergencies = [];
  delivered = [];
}

publish-outcome_example :
    let e = event ReasonCode.broker_disconnect in
    let (b', accepted) = publish e small_bus in
    IsBounded b'
    × ((accepted ≡ true) ↔ HasSpace small_bus)
    × (accepted ≡ true
        → (b'.queue ≡ small_bus.queue ++ e ∷ []) × (b'.drop_count ≡ 0) × (b'.emergencies ≡ []))
    × (accepted ≡ false
        → (b'.queue ≡ small_bus.queue)
          × (b'.drop_count ≡ 0 + 1)
          × (b'.emergencies ≡ (if true then (if is_critical e then [] ++ e ∷ [] else []) else [])))
publish-outcome_example =
    publish-outcome (event ReasonCode.broker_disconnect) small_bus (λ h. omega arith)

dispatch_loop-drains_example :
    let b' = dispatch_loop 3 small_bus in
    (b'.queue ≡ []) × (b'.delivered ≡ [] ++ calls_for (1 ∷ 2 ∷ []) small_bus.queue)
dispatch_loop-drains_example = dispatch_loop-drains 3 small_bus refl (omega arith)

abbrev size : ℕ → ℕ
size n = n

abbrev entry : ℕ → BufferEntry ℕ
entry k = record {
  resource_type = 1;
  resource_id = k;
  payload = 20;
  timestamp = 0;
  idempotent_key = k;
}

-- A line is read as it was written, and one behind an unfinished line is broken.
abbrev reads_as : BufferEntry ℕ → WalLine ℕ
reads_as e = WalLine.line e

abbrev joined : WalLine ℕ → BufferEntry ℕ → WalLine ℕ
joined l e = WalLine.invalid

abbrev log_file : List (WalLine ℕ)
log_file = WalLine.blank ∷ WalLine.invalid ∷ WalLine.line (entry 4) ∷ []

abbrev restored : DbBuffer ℕ
restored = record {
  config = default_config;
  wal = some (ended size reads_as joined log_file);
  entries = entry 4 ∷ [];
  idempotent_keys = 4 ∷ [];
  byte_count = 20;
}

restored_from_file :
    Buffer.new size default_config (some (ended size reads_as joined log_file)) ≡ some restored
unfolding Buffer.new Buffer.read_wal Buffer.restore
restored_from_file = refl

crash_loses_nothing_example :
    let b =
      Durability.run size reads_as joined (some (entry 5) ∷ none ∷ some (entry 6) ∷ []) restored in
    (lines : List (WalLine ℕ)) × (b.wal ≡ some (ended size reads_as joined lines))
    × (Buffer.new size b.config (some (ended size reads_as joined lines)) ≡ some b)
crash_loses_nothing_example =
    crash_loses_nothing size reads_as joined default_config log_file restored
      (some (entry 5) ∷ none ∷ some (entry 6) ∷ []) restored_from_file (refl, (tt, (refl, tt)))
