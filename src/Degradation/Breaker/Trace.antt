-- ===== src/Degradation/Breaker/Trace.antt =====
-- Runs of failures with no success between them.
use aq_trading.Prelude.{
  ℕ, ◌+◌, ◌≤◌, ◌<◌, ◌≡◌, ◌↔◌, ◌⊎◌, inl, inr, List, [], ◌∷◌, some, length, All, arith,
}
use aq_trading.Prelude.Int.{pos, ◌+ℤ◌, ◌≤ℤ◌}
use aq_trading.Degradation.Types.{healthy, unstable, tripped, Clock, DegradationConfig}
use aq_trading.Degradation.Breaker.{CircuitBreaker, record_failure}
use aq_trading.Degradation.Breaker.Hysteresis.{IsCoherent}

pub failures : List Clock → CircuitBreaker → CircuitBreaker
failures [] b = b
failures (t ∷ ts) b = failures ts (record_failure b t).0

-- Not yet `fail_threshold_seconds` after `first`.
abbrev pub IsWithin : DegradationConfig → ℕ → Clock → Type 0
IsWithin config first t = ¬ (pos first +ℤ config.fail_threshold_time ≤ℤ pos t.mono)

failures-tripped :
    (ts : List Clock) (b : CircuitBreaker)
    → b.state.level ≡ tripped
    → (failures ts b).state.level ≡ tripped
unfolding failures record_failure
failures-tripped [] b h = h
failures-tripped (t ∷ ts) b h = failures-tripped ts (record_failure b t).0 (ground arith)

-- The count is at the threshold after so many failures.
abbrev IsReached : DegradationConfig → ℕ → Type 0
IsReached config n = config.fail_threshold_count ≤ℤ pos n

-- A breaker that is unstable since `first`, with `k` failures counted.
record IsUnstable (config : DegradationConfig) (first k : ℕ) (b : CircuitBreaker) : Type 0 where
  same_config : b.config ≡ config
  at_level : b.state.level ≡ unstable
  at_count : b.state.failure_count ≡ k
  since : b.state.first_failure_mono ≡ some first

-- What one more failure does within the window.
IsUnstable-step :
    (config : DegradationConfig) (first k : ℕ) (b : CircuitBreaker) (t : Clock)
    → IsUnstable config first k b
    → IsWithin config first t
    → let b' = (record_failure b t).0 in
      (IsReached config (k + 1) × (b'.state.level ≡ tripped))
      ⊎ ((¬ (IsReached config (k + 1))) × IsUnstable config first (k + 1) b')
unfolding record_failure
IsUnstable-step config first k b t u w = ground arith

failures-unstable :
    (config : DegradationConfig) (first k : ℕ) (ts : List Clock) (b : CircuitBreaker)
    → IsUnstable config first k b
    → All (IsWithin config first) ts
    → ((failures ts b).state.level ≡ tripped) ↔ ((0 < length ts) × IsReached config (k + length ts))
unfolding failures
failures-unstable config first k [] b u w = ground arith
failures-unstable config first k (t ∷ ts) b u w = elim (IsUnstable-step config first k b t u w.0) [
  | inl trips ↦
      ((λ _. omega (arith, trips.0)), (λ _. failures-tripped ts (record_failure b t).0 trips.1))
  | inr stays ↦
      ground (arith, failures-unstable config first (k + 1) ts (record_failure b t).0 stays.1 w.1)
]

healthy_step :
    (b : CircuitBreaker) (t : Clock)
    → IsCoherent b
    → b.state.level ≡ healthy
    → IsUnstable b.config t.mono 1 (record_failure b t).0
unfolding record_failure
healthy_step b t h l = ground arith

-- Failures in a row, from a healthy breaker and all within the time threshold of the first: the breaker
-- is tripped exactly when there are at least two of them, and at least as many as the count threshold.
pub failures_trip :
    (t : Clock) (ts : List Clock) (b : CircuitBreaker)
    → IsCoherent b
    → b.state.level ≡ healthy
    → All (IsWithin b.config t.mono) ts
    → ((failures (t ∷ ts) b).state.level ≡ tripped)
      ↔ ((2 ≤ length (t ∷ ts)) × (b.config.fail_threshold_count ≤ℤ pos (length (t ∷ ts))))
unfolding failures
failures_trip t ts b h l w =
    ground (
      arith,
      failures-unstable b.config t.mono 1 ts (record_failure b t).0 (healthy_step b t h l) w,
    )
