-- ===== src/Risk/Gate.antt =====
-- `GreeksGate` of backend/src/greeks/greeks_gate.py. What the monitor and the calculator answer are
-- arguments: the current Greeks with their age, and the order's impact.
pub mod Closed
use aq_trading.Prelude.{
  ℕ, Bool, true, false, Option, none, some, List, [], ◌∷◌, keep, ltb, if◌then◌else◌,
}
use aq_trading.Prelude.Int.{ℤ, pos, ◌+ℤ◌, ltb_ℤ, abs}

-- `GREEKS_FIELDS`
pub data Greek : Type 0 where
  dollar_delta gamma_dollar vega_per_1pct theta_per_day : Greek

abbrev pub greeks_fields : List Greek
greeks_fields = dollar_delta ∷ gamma_dollar ∷ vega_per_1pct ∷ theta_per_day ∷ []

pub data FailMode : Type 0 where
  fail_closed fail_open : FailMode

-- `GreeksCheckConfig`; a field without a limit is not in `hard_limits`.
pub record GateConfig : Type 0 where
  pub max_staleness_seconds : ℕ
  pub fail_mode : FailMode
  pub hard_limits : Greek → Option ℤ

pub record CurrentGreeks : Type 0 where
  pub staleness : ℕ
  pub value : Greek → ℤ

pub data ReasonCode : Type 0 where
  gate_approved data_unavailable data_stale hard_breach : ReasonCode

pub record GreeksCheckResult : Type 0 where
  pub ok : Bool
  pub reason_code : ReasonCode
  pub breach_dims : List Greek

abbrev or_zero : Option ℤ → ℤ
or_zero none = pos 0
or_zero (some v) = v

module _ (config : GateConfig) (impact : Greek → Option ℤ) where
  -- `_handle_data_unavailable` and `_handle_data_stale`
  unfoldable pub handle_missing : ReasonCode → FailMode → GreeksCheckResult
  handle_missing reason fail_open = record {
    ok = true;
    reason_code = gate_approved;
    breach_dims = [];
  }
  handle_missing reason fail_closed = record { ok = false; reason_code = reason; breach_dims = [] }

  unfoldable pub projected : CurrentGreeks → Greek → ℤ
  projected current g = current.value g +ℤ or_zero (impact g)

  unfoldable pub is_over : ℤ → Option ℤ → Bool
  is_over v none = false
  is_over v (some limit) = ltb_ℤ limit (pos (abs v))

  unfoldable pub breaches : CurrentGreeks → Greek → Bool
  unfolding projected is_over
  breaches current g = is_over (projected current g) (config.hard_limits g)

  unfoldable pub gate_result : List Greek → GreeksCheckResult
  gate_result [] = record { ok = true; reason_code = gate_approved; breach_dims = [] }
  gate_result (g ∷ rest) = record { ok = false; reason_code = hard_breach; breach_dims = g ∷ rest }

  -- `check_order`
  unfoldable pub check_order : Option CurrentGreeks → GreeksCheckResult
  unfolding handle_missing breaches gate_result
  check_order none = handle_missing data_unavailable config.fail_mode
  check_order (some current) =
      if ltb config.max_staleness_seconds current.staleness
      then handle_missing data_stale config.fail_mode
      else gate_result (keep (breaches current) greeks_fields)
