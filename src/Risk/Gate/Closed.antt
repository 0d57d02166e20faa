-- ===== src/Risk/Gate/Closed.antt =====
-- A gate that fails closed lets an order through only on fresh Greeks within their limits.
use aq_trading.Prelude.{
  ◌≤◌, ◌≡◌, refl, Bool, true, false, Option, none, some, List, [], ◌∷◌, keep, ltb, inl, inr, subst,
  Bool-cases, arith,
}
use aq_trading.Prelude.Int.{ℤ, pos, ◌+ℤ◌, ◌≤ℤ◌, abs}
use aq_trading.Risk.Gate.{
  Greek, dollar_delta, gamma_dollar, vega_per_1pct, theta_per_day, greeks_fields, fail_closed,
  GateConfig, CurrentGreeks, handle_missing, projected, is_over, breaches, gate_result, check_order,
}

-- Nothing that is kept of a list has a true test.
data In (g : Greek) : List Greek → Type 0 where
  here : (rest : List Greek) → In g (g ∷ rest)
  there : (k : Greek) (rest : List Greek) → In g rest → In g (k ∷ rest)

all_greeks : (g : Greek) → In g greeks_fields
all_greeks dollar_delta = In.here _
all_greeks gamma_dollar = In.there _ _ (In.here _)
all_greeks vega_per_1pct = In.there _ _ (In.there _ _ (In.here _))
all_greeks theta_per_day = In.there _ _ (In.there _ _ (In.there _ _ (In.here _)))

kept_none :
    (p : Greek → Bool) (gs : List Greek) → keep p gs ≡ [] → (g : Greek) → In g gs → p g ≡ false
kept_none p [] h g i = elim i [ ]
kept_none p (g ∷ rest) h _ (In.here _) = elim (Bool-cases (p g)) [
  | inl kept ↦ absurd (let bad = rw (kept) at h in cc)
  | inr dropped ↦ dropped
]
kept_none p (k ∷ rest) h g (In.there _ _ i) = elim (Bool-cases (p k)) [
  | inl kept ↦ absurd (let bad = rw (kept) at h in cc)
  | inr dropped ↦ kept_none p rest (rw (dropped) at h) g i
]

module _ (config : GateConfig) (impact : Greek → Option ℤ) where
  gate_result-ok : (gs : List Greek) → (gate_result config impact gs).ok ≡ true → gs ≡ []
  unfolding gate_result
  gate_result-ok [] h = refl
  gate_result-ok (g ∷ rest) h = absurd cc

  within :
      (v limit : ℤ) (l : Option ℤ)
      → l ≡ some limit
      → is_over config impact v l ≡ false
      → pos (abs v) ≤ℤ limit
  unfolding is_over
  within v limit l e h = ground arith

  fresh-within :
      (c : CurrentGreeks)
      → (gate_result config impact (keep (breaches config impact c) greeks_fields)).ok ≡ true
      → (g : Greek) (limit : ℤ) → config.hard_limits g ≡ some limit
      → pos (abs (projected config impact c g)) ≤ℤ limit
  unfolding breaches
  fresh-within c h g limit has =
      within (projected config impact c g) limit (config.hard_limits g) has (
        kept_none (breaches config impact c) greeks_fields
          (gate_result-ok (keep (breaches config impact c) greeks_fields) h) g (all_greeks g))

  -- A value with what an order adds to it: nothing where the impact is not given.
  abbrev pub with_impact : ℤ → Option ℤ → ℤ
  with_impact value none = value +ℤ pos 0
  with_impact value (some added) = value +ℤ added

  projected_lem :
      (c : CurrentGreeks) (g : Greek)
      → projected config impact c g ≡ with_impact (c.value g) (impact g)
  unfolding projected
  projected_lem c g = ground arith

  after-within :
      (c : CurrentGreeks)
      → (gate_result config impact (keep (breaches config impact c) greeks_fields)).ok ≡ true
      → (g : Greek) (limit : ℤ) → config.hard_limits g ≡ some limit
      → pos (abs (with_impact (c.value g) (impact g))) ≤ℤ limit
  after-within c h g limit has =
      subst (λ v. pos (abs v) ≤ℤ limit) (projected_lem c g) (fresh-within c h g limit has)

  -- What an order that passes a gate has been checked on.
  abbrev pub IsChecked : Option CurrentGreeks → Type 0
  IsChecked current =
      (c : CurrentGreeks) × (current ≡ some c)
      × (c.staleness ≤ config.max_staleness_seconds)
      × ((g : Greek) (limit : ℤ)
          → config.hard_limits g ≡ some limit
          → pos (abs (with_impact (c.value g) (impact g))) ≤ℤ limit)

  -- A gate that fails closed approves an order only if the current Greeks are there and not older than the limit on
  -- their age, and each of the four Greeks that has a limit is within it in absolute value: the current value plus
  -- the order's impact on that Greek, or the current value where the impact is not given.
  pub check_order-IsChecked :
      (current : Option CurrentGreeks)
      → config.fail_mode ≡ fail_closed
      → (check_order config impact current).ok ≡ true
      → IsChecked current
  unfolding check_order handle_missing
  check_order-IsChecked none closed h = absurd (let bad = rw closed at h in cc)
  check_order-IsChecked (some c) closed h =
      elim (Bool-cases (ltb config.max_staleness_seconds c.staleness)) [
        | inl stale ↦ absurd (let bad = rw (check_order, stale, closed) at h in cc)
        | inr fresh ↦ (c, refl, ground arith, after-within c (rw (check_order, fresh) at h))
      ]
