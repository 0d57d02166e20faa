-- ===== src/Degradation/Breaker/Hysteresis.antt =====
-- What one call of a breaker does, and what holds of its state between calls.
use aq_trading.Prelude.{ℕ, ◌+◌, ◌≤◌, ◌<◌, ◌≡◌, ◌≢◌, ◌⊎◌, ◌↔◌, none, or_else, arith}
use aq_trading.Prelude.Int.{pos, ◌+ℤ◌, ◌≤ℤ◌}
use aq_trading.Degradation.Types.{SystemLevel, healthy, unstable, tripped, Clock}
use aq_trading.Degradation.Breaker.{
  CircuitBreaker, level_priority, record_failure, record_success, effective_level,
}

-- The level and the counters of a breaker agree.
pub record IsCoherent (b : CircuitBreaker) : Type 0 where
  pub clear :
      b.state.level ≡ healthy → (b.state.failure_count ≡ 0) × (b.state.first_failure_mono ≡ none)
  pub counted :
      b.state.level ≢ healthy → (0 < b.state.failure_count) × (b.state.first_failure_mono ≢ none)

-- A failure and a success keep the counters in step with the level: a healthy breaker has counted
-- no failure and has no start of a failure window, any other has both.
pub record_failure-IsCoherent :
    (t : Clock) (b : CircuitBreaker)
    → IsCoherent b
    → IsCoherent (record_failure b t).0 × IsCoherent (record_success b t).0
unfolding record_failure record_success
record_failure-IsCoherent t b h = ground arith

-- When a failure at the time `now` is the one that trips an unstable breaker: it brings the count to
-- the threshold, or the first failure is so long ago.
abbrev pub Trips : CircuitBreaker → ℕ → Type 0
Trips b now =
    (b.config.fail_threshold_count ≤ℤ pos (b.state.failure_count + 1))
    ⊎ (pos (or_else b.state.first_failure_mono now) +ℤ b.config.fail_threshold_time ≤ℤ pos now)

-- A failure makes a healthy breaker unstable and never trips it; it trips an unstable breaker exactly
-- when a threshold is reached, and otherwise leaves it unstable; a tripped breaker stays tripped.
pub record_failure-level :
    (b : CircuitBreaker) (t : Clock)
    → let b' = (record_failure b t).0 in
      (b.state.level ≡ healthy → b'.state.level ≡ unstable)
      × (b.state.level ≡ unstable → Trips b t.mono → b'.state.level ≡ tripped)
      × (b.state.level ≡ unstable → ¬ (Trips b t.mono) → b'.state.level ≡ unstable)
      × (b.state.level ≡ tripped → b'.state.level ≡ tripped)
unfolding record_failure
record_failure-level b t = ground arith

-- A failure emits an event exactly when it changes the level, and so does a success.
pub events_mark_changes :
    (b : CircuitBreaker) (t : Clock)
    → (((record_failure b t).1 ≡ none) ↔ ((record_failure b t).0.state.level ≡ b.state.level))
      × (((record_success b t).1 ≡ none) ↔ ((record_success b t).0.state.level ≡ b.state.level))
unfolding record_failure record_success
events_mark_changes b t = ground arith

-- The effective level is one of the two levels, and at least as restrictive as each: the local
-- breaker can tighten the central policy and never loosen it.
pub effective_level-max :
    (b : CircuitBreaker) (central : SystemLevel)
    → let l = effective_level b central in
      ((l ≡ b.state.level) ⊎ (l ≡ central))
      × (level_priority b.state.level ≤ level_priority l)
      × (level_priority central ≤ level_priority l)
unfolding effective_level
effective_level-max b central = ground arith
