-- ===== src/Governance/Constraints/Resolver.antt =====
-- `ConstraintResolver` of backend/src/governance/constraints/resolver.py.
use aq_trading.Prelude.{
  ℕ, Bool, true, false, ◌&&◌, ◌||◌, Option, none, some, List, [], ◌∷◌, ◌++◌, map, keep, any, ltb,
  leb, ◌==◌, if◌then◌else◌,
}
use aq_trading.Prelude.Dict.{Dict, lookup}
use aq_trading.Prelude.Int.{ℤ, ltb_ℤ}
use aq_trading.Prelude.Result.{Result, ok, raised}
use aq_trading.Governance.Constraints.{
  StopMode, baseline, wide, fundamental_guarded, HypothesisStatus, active, sunset, Multiplier, unit,
  Guardrails, Constraint, Action, ResolvedAction, ResolvedConstraints,
}
use aq_trading.Governance.Constraints.Registry.{
  ConstraintRegistry, RegistryError, filter_by_symbol, is_empty,
}

-- `STOP_MODE_RESTRICTIVENESS`
unfoldable pub restrictiveness : StopMode → ℕ
restrictiveness baseline = 0
restrictiveness wide = 1
restrictiveness fundamental_guarded = 2

-- One required hypothesis, by its status and the flag `disabled_if_falsified`: whether the loop goes on.
unfoldable pub goes_on : Bool → Option HypothesisStatus → Bool
goes_on flag none = false
goes_on flag (some active) = true
goes_on true (some sunset) = false
goes_on flag (some _) = false

-- `_is_constraint_active`, the loop
unfoldable pub all_active : Bool → Dict HypothesisStatus → List ℕ → Bool
unfolding goes_on
all_active flag hypotheses [] = true
all_active flag hypotheses (id ∷ rest) =
    let below = all_active flag hypotheses rest in
    if goes_on flag (lookup id hypotheses) then below else false

unfoldable pub is_constraint_active : Dict HypothesisStatus → Constraint → Bool
unfolding all_active
is_constraint_active hypotheses c =
    if is_empty c.requires_hypotheses_active
    then true
    else all_active c.disabled_if_falsified hypotheses c.requires_hypotheses_active

-- An action whose field is set.
abbrev set_action {ℓ} : {A : Type ℓ} → ℕ → (A → Action) → Option A → List ResolvedAction
set_action id kind none = []
set_action id kind (some a) = record { constraint_id = id; action = kind a } ∷ []

-- `_extract_actions`
unfoldable pub extract_actions : Constraint → List ResolvedAction
extract_actions c =
    set_action c.id Action.enable_strategy c.actions.enable_strategy
    ++ (set_action c.id Action.pool_bias_multiplier c.actions.pool_bias_multiplier
        ++ (set_action c.id Action.veto_downgrade c.actions.veto_downgrade
            ++ (set_action c.id Action.risk_budget_multiplier c.actions.risk_budget_multiplier
                ++ (set_action c.id Action.holding_extension_days c.actions.holding_extension_days
                    ++ (set_action c.id Action.add_position_cap_multiplier
                          c.actions.add_position_cap_multiplier
                        ++ set_action c.id Action.stop_mode c.actions.stop_mode)))))

abbrev pub append_set {ℓ} : {B : Type ℓ} → Option B → List B → List B
append_set none rest = rest
append_set (some b) rest = b ∷ rest

-- The values that are set, in the order of the list.
abbrev pub collect {ℓ κ} : {A : Type ℓ} {B : Type κ} → (A → Option B) → List A → List B
collect f [] = []
collect f (a ∷ rest) = append_set (f a) (collect f rest)

-- The loop of `_get_most_restrictive_stop_mode`
unfoldable pub most_restrictive : StopMode → List StopMode → StopMode
unfolding restrictiveness
most_restrictive best [] = best
most_restrictive best (mode ∷ rest) =
    most_restrictive (if ltb (restrictiveness best) (restrictiveness mode) then mode else best) rest

unfoldable pub get_most_restrictive_stop_mode : List StopMode → StopMode
unfolding most_restrictive
get_most_restrictive_stop_mode [] = baseline
get_most_restrictive_stop_mode (mode ∷ rest) = most_restrictive mode rest

-- `min(values) if values else None`
abbrev pub min_from : ℤ → List ℤ → ℤ
min_from best [] = best
min_from best (v ∷ rest) = min_from (if ltb_ℤ v best then v else best) rest

unfoldable pub min_of : List ℤ → Option ℤ
min_of [] = none
min_of (v ∷ rest) = some (min_from v rest)

-- `_merge_guardrails`
unfoldable pub merge_guardrails : List Guardrails → Option Guardrails
unfolding min_of
merge_guardrails [] = none
merge_guardrails (g ∷ rest) = some (record {
  max_position_pct = min_of (collect (λ (g : Guardrails). g.max_position_pct) (g ∷ rest));
  max_gross_exposure_delta =
      min_of (collect (λ (g : Guardrails). g.max_gross_exposure_delta) (g ∷ rest));
  max_drawdown_addon = min_of (collect (λ (g : Guardrails). g.max_drawdown_addon) (g ∷ rest));
})

-- `(priority, id)` in its order
unfoldable pub is_before : Constraint → Constraint → Bool
is_before a b = ltb a.priority b.priority || ((a.priority == b.priority) && leb a.id b.id)

-- `list.sort`, which is stable
unfoldable pub place : Constraint → List Constraint → List Constraint
unfolding is_before
place c [] = c ∷ []
place c (d ∷ rest) = let below = place c rest in if is_before c d then c ∷ d ∷ rest else d ∷ below

unfoldable pub sort_constraints : List Constraint → List Constraint
unfolding place
sort_constraints [] = []
sort_constraints (c ∷ rest) = place c (sort_constraints rest)

-- The product of a loop that starts at 1.0.
unfoldable pub product_from :
    (Multiplier → Multiplier → Multiplier) → Multiplier → List Multiplier → Multiplier
product_from times acc [] = acc
product_from times acc (m ∷ rest) = product_from times (times acc m) rest

abbrev flatten {ℓ} : {A : Type ℓ} → List (List A) → List A
flatten [] = []
flatten (x ∷ rest) = x ++ flatten rest

abbrev sort_id : ℕ → List ℕ → List ℕ
sort_id k [] = k ∷ []
sort_id k (j ∷ rest) = let below = sort_id k rest in if leb k j then k ∷ j ∷ rest else j ∷ below

-- `sorted(constraint_ids)`
abbrev sort_ids : List ℕ → List ℕ
sort_ids [] = []
sort_ids (k ∷ rest) = sort_id k (sort_ids rest)

-- What the audit store is told.
pub data GovernanceEvent : Type 0 where
  constraint_activated : ℕ → ℕ → GovernanceEvent
  veto_downgraded : Option ℕ → List ℕ → GovernanceEvent
  risk_budget_adjusted : Multiplier → GovernanceEvent
  position_cap_applied : ℤ → GovernanceEvent

abbrev pub has_veto : Constraint → Bool
has_veto c = elim c.actions.veto_downgrade [ none ↦ false | some b ↦ b ]

abbrev pub first {ℓ} : {A : Type ℓ} → List A → Option A
first [] = none
first (a ∷ _) = some a

-- `!= 1.0`
abbrev pub is_one : Multiplier → Bool
is_one m = m.over == m.under

module _ (times : Multiplier → Multiplier → Multiplier) (hypotheses : Dict HypothesisStatus)
    (hash : List ℕ → ℕ) (symbol now : ℕ) where
  -- The constraints of the symbol that are active, in order.
  unfoldable pub active_constraints : List Constraint → List Constraint
  unfolding is_constraint_active sort_constraints
  active_constraints applicable =
      sort_constraints (keep (is_constraint_active hypotheses) applicable)

  unfoldable pub merge : List Constraint → ResolvedConstraints
  unfolding extract_actions get_most_restrictive_stop_mode merge_guardrails product_from
  merge cs = record {
    symbol = symbol;
    constraints = flatten (map extract_actions cs);
    resolved_at = now;
    version = hash (sort_ids (map (λ (c : Constraint). c.id) cs));
    effective_risk_budget_multiplier =
        product_from times unit (collect (λ (c : Constraint). c.actions.risk_budget_multiplier) cs);
    effective_pool_bias_multiplier =
        product_from times unit (collect (λ (c : Constraint). c.actions.pool_bias_multiplier) cs);
    effective_stop_mode =
        get_most_restrictive_stop_mode (collect (λ (c : Constraint). c.actions.stop_mode) cs);
    veto_downgrade_active =
        any (λ b. b) (collect (λ (c : Constraint). c.actions.veto_downgrade) cs);
    guardrails = merge_guardrails (collect (λ (c : Constraint). c.guardrails) cs);
  }

  abbrev cap_event : Option Guardrails → List GovernanceEvent
  cap_event none = []
  cap_event (some g) = elim g.max_position_pct [ none ↦ [] | some v ↦ position_cap_applied v ∷ [] ]

  -- `_log_audit_events`, for a store that is there
  unfoldable pub log_audit_events : List Constraint → ResolvedConstraints → List GovernanceEvent
  log_audit_events cs r =
      let vetoes = map (λ (c : Constraint). c.id) (keep has_veto cs) in
      map (λ (c : Constraint). constraint_activated c.id symbol) cs
      ++ ((if r.veto_downgrade_active then veto_downgraded (first vetoes) vetoes ∷ [] else [])
          ++ ((if is_one r.effective_risk_budget_multiplier
                then []
                else risk_budget_adjusted r.effective_risk_budget_multiplier ∷ [])
              ++ cap_event r.guardrails))

  -- `resolve`, on the constraints of the symbol
  unfoldable pub resolve_applicable : List Constraint → ResolvedConstraints × List GovernanceEvent
  unfolding active_constraints merge log_audit_events
  resolve_applicable applicable =
      let cs = active_constraints applicable in (merge cs, log_audit_events cs (merge cs))

  unfoldable pub resolve_found :
      ConstraintRegistry × Result RegistryError (List Constraint)
      → ConstraintRegistry × Result RegistryError (ResolvedConstraints × List GovernanceEvent)
  unfolding resolve_applicable
  resolve_found (r, raised error) = (r, raised error)
  resolve_found (r, ok applicable) = (r, ok (resolve_applicable applicable))

  unfoldable pub resolve :
      Option (List Constraint)
      → ConstraintRegistry
      → ConstraintRegistry × Result RegistryError (ResolvedConstraints × List GovernanceEvent)
  unfolding filter_by_symbol resolve_found
  resolve loader r = resolve_found (filter_by_symbol loader symbol r)
