-- ===== src/Governance/Constraints.antt =====
-- The models of constraints, backend/src/governance/constraints/models.py.
pub mod Registry
pub mod Resolver
pub mod Order
pub mod Valid
pub mod Registered
pub mod Merged
use aq_trading.Prelude.{ℕ, ◌*◌, ◌≤◌, ◌<◌, Bool, Option, none, some, List}
use aq_trading.Prelude.Int.{ℤ, pos, ◌≤ℤ◌}

pub data StopMode : Type 0 where
  baseline wide fundamental_guarded : StopMode

pub data HypothesisStatus : Type 0 where
  draft active sunset rejected : HypothesisStatus

-- A float, as the fraction that it is exactly; an infinite one has `under` zero. How two of them are multiplied, with
-- the rounding that this takes, is an argument `times` of what does so.
pub record Multiplier : Type 0 where
  pub over : ℕ
  pub under : ℕ

-- `1.0`
abbrev pub unit : Multiplier
unit = record { over = 1; under = 1 }

pub record Actions : Type 0 where
  pub enable_strategy : Option Bool
  pub pool_bias_multiplier : Option Multiplier
  pub veto_downgrade : Option Bool
  pub risk_budget_multiplier : Option Multiplier
  pub holding_extension_days : Option ℕ
  pub add_position_cap_multiplier : Option Multiplier
  pub stop_mode : Option StopMode

-- The values are counted in one grain, of which `whole` make 1.0.
pub record Guardrails : Type 0 where
  pub max_position_pct : Option ℤ
  pub max_gross_exposure_delta : Option ℤ
  pub max_drawdown_addon : Option ℤ

pub record Constraint : Type 0 where
  pub id : ℕ
  pub symbols : List ℕ
  pub strategies : List ℕ
  pub requires_hypotheses_active : List ℕ
  pub disabled_if_falsified : Bool
  pub actions : Actions
  pub guardrails : Option Guardrails
  pub priority : ℕ

-- The kinds of a resolved action, with its value.
pub data Action : Type 0 where
  enable_strategy : Bool → Action
  pool_bias_multiplier : Multiplier → Action
  veto_downgrade : Bool → Action
  risk_budget_multiplier : Multiplier → Action
  holding_extension_days : ℕ → Action
  add_position_cap_multiplier : Multiplier → Action
  stop_mode : StopMode → Action

pub record ResolvedAction : Type 0 where
  pub constraint_id : ℕ
  pub action : Action

pub record ResolvedConstraints : Type 0 where
  pub symbol : ℕ
  pub constraints : List ResolvedAction
  pub resolved_at : ℕ
  pub version : ℕ
  pub effective_risk_budget_multiplier : Multiplier
  pub effective_pool_bias_multiplier : Multiplier
  pub effective_stop_mode : StopMode
  pub veto_downgrade_active : Bool
  pub guardrails : Option Guardrails

-- A value of a field that may be missing is within its declared bound.
abbrev pub Each {ℓ κ} : {A : Type ℓ} → (A → Type κ) → Option A → Type κ
Each P none = Unit
Each P (some a) = P a

-- `gt=0`, and `ge=1`
abbrev pub IsPositive : Multiplier → Type 0
IsPositive m = 0 < m.over

abbrev pub IsAtLeastOne : Multiplier → Type 0
IsAtLeastOne m = m.under ≤ m.over

module _ (whole : ℕ) where
  -- `max_position_pct` between 0 and 1
  abbrev pub IsWithin : Guardrails → Type 0
  IsWithin g = Each (λ v. (pos 0 ≤ℤ v) × (v ≤ℤ pos whole)) g.max_position_pct

  -- What the fields of a constraint declare.
  abbrev pub IsDeclared : Constraint → Type 0
  IsDeclared c =
      Each IsPositive c.actions.pool_bias_multiplier
      × Each IsAtLeastOne c.actions.risk_budget_multiplier
      × Each IsWithin c.guardrails
