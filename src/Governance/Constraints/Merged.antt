-- ===== src/Governance/Constraints/Merged.antt =====
-- What the merged values of a symbol's constraints are.
use aq_trading.Prelude.{
  ℕ, ◌≤◌, ◌↔◌, inl, inr, Option, none, some, List, [], ◌∷◌, All, ltb, Bool-cases, arith,
}
use aq_trading.Prelude.Dict.{Dict}
use aq_trading.Prelude.Dict.Keyed.{All-map}
use aq_trading.Prelude.Int.{ℤ, ◌≤ℤ◌, ltb_ℤ}
use aq_trading.Governance.Constraints.{
  StopMode, Multiplier, IsAtLeastOne, Guardrails, Each, Constraint, HypothesisStatus,
}
use aq_trading.Governance.Constraints.Resolver.{
  restrictiveness, most_restrictive, get_most_restrictive_stop_mode, min_from, min_of,
  merge_guardrails, merge, collect, append_set, product_from,
}

-- The loops that keep the greatest or the least are bounds of all that they have seen.
most_restrictive-bound :
    (r : ℕ) (best : StopMode) (modes : List StopMode)
    → (restrictiveness (most_restrictive best modes) ≤ r)
      ↔ ((restrictiveness best ≤ r) × All (λ m. restrictiveness m ≤ r) modes)
unfolding most_restrictive
most_restrictive-bound r best [] = (λ h. (h, tt), λ h. h.0)
most_restrictive-bound r best (mode ∷ rest) =
    elim (Bool-cases (ltb (restrictiveness best) (restrictiveness mode))) [
      | inl above ↦
          let ih = most_restrictive-bound r mode rest in
          rw (most_restrictive, above)
            (
              (λ h. let (here, below) = ih.0 h in (ground arith, (here, below))),
              λ (h₁, (h₂, h)). ih.1 (h₂, h),
            )
      | inr below ↦
          let ih = most_restrictive-bound r best rest in
          rw (most_restrictive, below)
            (
              (λ h. let (here, rest_below) = ih.0 h in (here, (ground arith, rest_below))),
              λ (h₁, (h₂, h)). ih.1 (h₁, h),
            )
    ]

get_most_restrictive_stop_mode-bound :
    (r : ℕ) (modes : List StopMode)
    → (restrictiveness (get_most_restrictive_stop_mode modes) ≤ r)
      ↔ All (λ m. restrictiveness m ≤ r) modes
unfolding get_most_restrictive_stop_mode restrictiveness
get_most_restrictive_stop_mode-bound r [] = (λ h. tt, λ h. omega arith)
get_most_restrictive_stop_mode-bound r (mode ∷ rest) = most_restrictive-bound r mode rest

min_from-bound :
    (b best : ℤ) (vs : List ℤ) → (b ≤ℤ min_from best vs) ↔ ((b ≤ℤ best) × All (λ v. b ≤ℤ v) vs)
min_from-bound b best [] = (λ h. (h, tt), λ h. h.0)
min_from-bound b best (v ∷ rest) = elim (Bool-cases (ltb_ℤ v best)) [
  | inl less ↦
      let ih = min_from-bound b v rest in
      rw less (
        (λ h. let (here, below) = ih.0 h in (ground arith, (here, below))),
        λ (h₁, (h₂, h)). ih.1 (h₂, h),
      )
  | inr more ↦
      let ih = min_from-bound b best rest in
      rw more (
        (λ h. let (here, below) = ih.0 h in (here, (ground arith, below))),
        λ (h₁, (h₂, h)). ih.1 (h₁, h),
      )
]

-- A cap that may be missing admits a value.
abbrev pub Under : Option ℤ → ℤ → Type 0
Under none v = Unit
Under (some cap) v = v ≤ℤ cap

min_of-bound : (v : ℤ) (vs : List ℤ) → Under (min_of vs) v ↔ All (λ w. v ≤ℤ w) vs
unfolding min_of
min_of-bound v [] = (λ h. tt, λ h. tt)
min_of-bound v (w ∷ rest) = min_from-bound v w rest

append_set-All {κ μ} :
    {B : Type κ} (P : B → Type μ) (o : Option B) (rest : List B)
    → All P (append_set o rest) ↔ (Each P o × All P rest)
append_set-All P none rest = (λ h. (tt, h), λ h. h.1)
append_set-All P (some b) rest = (λ h. h, λ h. h)

-- A field of all constraints, and what is collected of it.
pub collect-All {ℓ κ μ} :
    {A : Type ℓ} {B : Type κ} (P : B → Type μ) (f : A → Option B) (xs : List A)
    → All P (collect f xs) ↔ All (λ x. Each P (f x)) xs
collect-All P f [] = (λ h. tt, λ h. tt)
collect-All P f (x ∷ rest) =
    let here = append_set-All P (f x) (collect f rest) in
    let below = collect-All P f rest in
    ((λ h. let (h₁, h₂) = here.0 h in (h₁, below.0 h₂)), λ h. here.1 (h.0, below.1 h.1))

-- A position share, an addition to the gross exposure and one to the drawdown that guardrails admit.
pub record Exposure : Type 0 where
  pub position_pct : ℤ
  pub gross_exposure_delta : ℤ
  pub drawdown_addon : ℤ

abbrev pub Admits : Exposure → Guardrails → Type 0
Admits x g =
    Under g.max_position_pct x.position_pct
    × Under g.max_gross_exposure_delta x.gross_exposure_delta
    × Under g.max_drawdown_addon x.drawdown_addon

-- One cap of the merged guardrails.
cap-bound :
    (f : Guardrails → Option ℤ) (v : ℤ) (gs : List Guardrails)
    → Under (min_of (collect f gs)) v ↔ All (λ g. Under (f g) v) gs
cap-bound f v gs =
    let least = min_of-bound v (collect f gs) in
    let each = collect-All (λ w. v ≤ℤ w) f gs in
    (
      (λ h.
          All-map (λ g. Each (λ w. v ≤ℤ w) (f g)) (λ g. Under (f g) v) (λ g. to (f g)) gs
            (each.0 (least.0 h))),
      λ h. least.1 (
          each.1
            (All-map (λ g. Under (f g) v) (λ g. Each (λ w. v ≤ℤ w) (f g)) (λ g. from (f g)) gs h)),
    )
  where
    to : (o : Option ℤ) → Each (λ w. v ≤ℤ w) o → Under o v
    to none h = tt
    to (some cap) h = h

    from : (o : Option ℤ) → Under o v → Each (λ w. v ≤ℤ w) o
    from none h = tt
    from (some cap) h = h

merge_guardrails-Admits :
    (x : Exposure) (gs : List Guardrails)
    → Each (Admits x) (merge_guardrails gs) ↔ All (Admits x) gs
unfolding merge_guardrails
merge_guardrails-Admits x [] = (λ h. tt, λ h. tt)
merge_guardrails-Admits x (g ∷ rest) =
    let pct = cap-bound (λ (g : Guardrails). g.max_position_pct) x.position_pct (g ∷ rest) in
    let gross =
      cap-bound (λ (g : Guardrails). g.max_gross_exposure_delta) x.gross_exposure_delta
        (g ∷ rest) in
    let drawdown =
      cap-bound (λ (g : Guardrails). g.max_drawdown_addon) x.drawdown_addon (g ∷ rest) in
    (
      (λ (h₁, h₂, h₃). zip (g ∷ rest) (pct.0 h₁) (gross.0 h₂) (drawdown.0 h₃)),
      λ h. (
        pct.1 (
            All-map (Admits x) (λ (g : Guardrails). Under g.max_position_pct x.position_pct)
              (λ g h. h.0) (g ∷ rest) h),
        gross.1 (
            All-map (Admits x)
              (λ (g : Guardrails). Under g.max_gross_exposure_delta x.gross_exposure_delta)
              (λ g h. h.1) (g ∷ rest) h),
        drawdown.1 (
            All-map (Admits x) (λ (g : Guardrails). Under g.max_drawdown_addon x.drawdown_addon)
              (λ g h. h.2) (g ∷ rest) h),
      ),
    )
  where
    zip :
        (gs : List Guardrails)
        → All (λ (g : Guardrails). Under g.max_position_pct x.position_pct) gs
        → All (λ (g : Guardrails). Under g.max_gross_exposure_delta x.gross_exposure_delta) gs
        → All (λ (g : Guardrails). Under g.max_drawdown_addon x.drawdown_addon) gs
        → All (Admits x) gs
    zip [] a b c = tt
    zip (g ∷ gs) a b c = ((a.0, b.0, c.0), zip gs a.1 b.1 c.1)

module _ (times : Multiplier → Multiplier → Multiplier) (hypotheses : Dict HypothesisStatus)
    (hash : List ℕ → ℕ) (symbol now : ℕ) where
  -- The merged guardrails of constraints admit an exposure exactly when the guardrails of every one of the constraints
  -- admit it; guardrails or caps that are missing admit all.
  pub merge-Admits :
      (x : Exposure) (cs : List Constraint)
      → Each (Admits x) (merge times hypotheses hash symbol now cs).guardrails
        ↔ All (λ c. Each (Admits x) c.guardrails) cs
  unfolding merge
  merge-Admits x cs =
      let all = merge_guardrails-Admits x (collect (λ (c : Constraint). c.guardrails) cs) in
      let each = collect-All (Admits x) (λ (c : Constraint). c.guardrails) cs in
      (λ h. each.0 (all.0 h), λ h. all.1 (each.1 h))

  -- The merged stop mode of constraints is at most as restrictive as a level exactly when each stop mode that they set
  -- is: it is the most restrictive of them, and the baseline where there is none.
  pub merge-bounds_stop_mode :
      (r : ℕ) (cs : List Constraint)
      → (restrictiveness (merge times hypotheses hash symbol now cs).effective_stop_mode ≤ r)
        ↔ All (λ c. Each (λ m. restrictiveness m ≤ r) c.actions.stop_mode) cs
  unfolding merge
  merge-bounds_stop_mode r cs =
      let most =
        get_most_restrictive_stop_mode-bound r
          (collect (λ (c : Constraint). c.actions.stop_mode) cs) in
      let each =
        collect-All (λ m. restrictiveness m ≤ r) (λ (c : Constraint). c.actions.stop_mode) cs in
      (λ h. each.0 (most.0 h), λ h. most.1 (each.1 h))

-- The product of multipliers that are at least one is such a multiplier, where that of two of them is.
pub product_from-IsAtLeastOne :
    (times : Multiplier → Multiplier → Multiplier)
    → ((a b : Multiplier) → IsAtLeastOne a → IsAtLeastOne b → IsAtLeastOne (times a b))
    → (m : Multiplier) (ms : List Multiplier) → IsAtLeastOne m
    → All IsAtLeastOne ms
    → IsAtLeastOne (product_from times m ms)
unfolding product_from
product_from-IsAtLeastOne times grows m [] h hs = h
product_from-IsAtLeastOne times grows m (k ∷ rest) h (here, hs) =
    product_from-IsAtLeastOne times grows (times m k) rest (grows m k h here) hs
