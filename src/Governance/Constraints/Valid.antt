-- ===== src/Governance/Constraints/Valid.antt =====
-- The bounds that the models declare for a field hold of what is merged, and when a constraint is active.
use aq_trading.Prelude.{
  ℕ, ◌≡◌, ◌↔◌, refl, Bool, true, Option, some, List, [], ◌∷◌, All, if◌then◌else◌, inl, inr,
  Bool-cases, arith,
}
use aq_trading.Prelude.Dict.{Dict, lookup}
use aq_trading.Prelude.Dict.Keyed.{All-map}
use aq_trading.Prelude.Int.{ℤ, pos, ◌≤ℤ◌, ltb_ℤ}
use aq_trading.Governance.Constraints.{
  HypothesisStatus, active, Multiplier, unit, Guardrails, Constraint, Each, IsAtLeastOne, IsWithin,
  IsDeclared,
}
use aq_trading.Governance.Constraints.Registry.{is_empty}
use aq_trading.Governance.Constraints.Resolver.{
  goes_on, all_active, is_constraint_active, min_from, min_of, merge_guardrails, merge, collect,
}
use aq_trading.Governance.Constraints.Merged.{collect-All, product_from-IsAtLeastOne}

min_from-keeps :
    (P : ℤ → Type 0) (best : ℤ) (vs : List ℤ) → P best → All P vs → P (min_from best vs)
min_from-keeps P best [] h hs = h
min_from-keeps P best (v ∷ rest) h (here, hs) = elim (Bool-cases (ltb_ℤ v best)) [
  | inl less ↦ rw less (min_from-keeps P v rest here hs)
  | inr more ↦ rw more (min_from-keeps P best rest h hs)
]

min_of-Each : (P : ℤ → Type 0) (vs : List ℤ) → All P vs → Each P (min_of vs)
unfolding min_of
min_of-Each P [] h = tt
min_of-Each P (v ∷ rest) h = min_from-keeps P v rest h.0 h.1

module _ (whole : ℕ) where
  merge_guardrails-IsWithin :
      (gs : List Guardrails) → All (IsWithin whole) gs → Each (IsWithin whole) (merge_guardrails gs)
  unfolding merge_guardrails
  merge_guardrails-IsWithin [] h = tt
  merge_guardrails-IsWithin (g ∷ rest) h =
      min_of-Each (λ v. (pos 0 ≤ℤ v) × (v ≤ℤ pos whole))
        (collect (λ (g : Guardrails). g.max_position_pct) (g ∷ rest))
        ((collect-All (λ v. (pos 0 ≤ℤ v) × (v ≤ℤ pos whole))
            (λ (g : Guardrails). g.max_position_pct) (g ∷ rest)).1
          h)

  module _ (times : Multiplier → Multiplier → Multiplier) (hypotheses : Dict HypothesisStatus)
      (hash : List ℕ → ℕ) (symbol now : ℕ) where
    -- Where each constraint keeps the bounds that its fields declare (a risk budget of at least 1, a position share
    -- from 0 to 1), what is merged of them does: the effective risk budget is at least 1, and the merged position
    -- share, if there is one, is from 0 to 1. The product of two floats that are at least 1, as it is rounded, is
    -- taken to be at least 1. Of the pool bias nothing is stated: a product of small floats can come to 0.
    pub merge-declared :
        ((a b : Multiplier) → IsAtLeastOne a → IsAtLeastOne b → IsAtLeastOne (times a b))
        → (cs : List Constraint) → All (IsDeclared whole) cs
        → IsAtLeastOne (merge times hypotheses hash symbol now cs).effective_risk_budget_multiplier
          × Each (IsWithin whole) (merge times hypotheses hash symbol now cs).guardrails
    unfolding merge
    merge-declared grows cs h = (
      product_from-IsAtLeastOne times grows unit
          (collect (λ (c : Constraint). c.actions.risk_budget_multiplier) cs) (omega arith)
          ((collect-All IsAtLeastOne (λ (c : Constraint). c.actions.risk_budget_multiplier) cs).1 (
            All-map (IsDeclared whole)
              (λ (c : Constraint). Each IsAtLeastOne c.actions.risk_budget_multiplier) (λ c h. h.1)
              cs h)),
      merge_guardrails-IsWithin (collect (λ (c : Constraint). c.guardrails) cs) (
          (collect-All (IsWithin whole) (λ (c : Constraint). c.guardrails) cs).1 (
            All-map (IsDeclared whole) (λ (c : Constraint). Each (IsWithin whole) c.guardrails)
              (λ c h. h.2) cs h)),
    )

goes_on_iff :
    (flag : Bool) (o : Option HypothesisStatus) → (goes_on flag o ≡ true) ↔ (o ≡ some active)
unfolding goes_on
goes_on_iff flag o = ground arith

all_active_iff :
    (flag : Bool) (hypotheses : Dict HypothesisStatus) (ids : List ℕ)
    → (all_active flag hypotheses ids ≡ true) ↔ All (λ id. lookup id hypotheses ≡ some active) ids
unfolding all_active
all_active_iff flag hypotheses [] = (λ h. tt, λ h. refl)
all_active_iff flag hypotheses (id ∷ rest) =
    elim (Bool-cases (goes_on flag (lookup id hypotheses))) [
      | inl on ↦
          let below = all_active_iff flag hypotheses rest in
          rw (all_active, on)
            ((λ h. ((goes_on_iff flag (lookup id hypotheses)).0 on, below.0 h)), λ h. below.1 h.1)
      | inr off ↦
          rw (all_active, off)
            (
              (λ h. absurd cc),
              λ h. let on = (goes_on_iff flag (lookup id hypotheses)).1 h.0 in absurd cc,
            )
    ]

-- A constraint is active exactly when each hypothesis that it requires is in the registry with the status active; a
-- constraint that requires none is active.
pub is_constraint_active_iff :
    (hypotheses : Dict HypothesisStatus) (c : Constraint)
    → (is_constraint_active hypotheses c ≡ true)
      ↔ All (λ id. lookup id hypotheses ≡ some active) c.requires_hypotheses_active
unfolding is_constraint_active
is_constraint_active_iff hypotheses c = go c.requires_hypotheses_active
  where
    go :
        (ids : List ℕ)
        → ((if is_empty ids then true else all_active c.disabled_if_falsified hypotheses ids)
            ≡ true)
          ↔ All (λ id. lookup id hypotheses ≡ some active) ids
    go [] = (λ h. tt, λ h. refl)
    go (id ∷ rest) = all_active_iff c.disabled_if_falsified hypotheses (id ∷ rest)
