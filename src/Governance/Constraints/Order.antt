-- ===== src/Governance/Constraints/Order.antt =====
-- What a symbol resolves to does not depend on the order in which the constraints were registered.
use aq_trading.Prelude.{
  ℕ, ◌≡◌, ◌≢◌, inl, inr, refl, sym, ◌∙◌, ap, subst, some_injective, Bool, true, Option, some, List,
  [], ◌∷◌, keep, All, same_or_not, Bool-cases, arith,
}
use mathlib.Core.List.{Permᴰ}
use aq_trading.Prelude.Dict.{Dict, lookup, values}
use aq_trading.Prelude.Dict.Keyed.{IsKeyed, values-All, All-keep}
use aq_trading.Prelude.Result.{ok}
use aq_trading.Governance.Constraints.{Multiplier, Constraint, HypothesisStatus}
use aq_trading.Governance.Constraints.Registry.{
  ConstraintRegistry, ensure_loaded, query, filter_by_symbol, applies_to_symbol,
}
use aq_trading.Governance.Constraints.Resolver.{
  is_before, place, sort_constraints, is_constraint_active, active_constraints, merge,
  log_audit_events, resolve_applicable, resolve_found, resolve,
}

-- Two constraints of different ids are placed in either order.
place-place :
    (a b : Constraint) (cs : List Constraint)
    → a.id ≢ b.id
    → place a (place b cs) ≡ place b (place a cs)
unfolding place is_before
place-place a b [] other = ground arith
place-place a b (c ∷ rest) other = let below = place-place a b rest other in ground arith

-- The constraints of a list are the rows of one table.
abbrev AreRows : Dict Constraint → List Constraint → Type 0
AreRows d cs = All (λ c. lookup c.id d ≡ some c) cs

All-perm {ℓ κ} : {A : Type ℓ} (P : A → Type κ) (xs ys : List A) → Permᴰ xs ys → All P xs → All P ys
All-perm P _ _ Permᴰ.nil h = tt
All-perm P (_ ∷ xs) (_ ∷ ys) (Permᴰ.cons e p) h = (subst P e h.0, All-perm P xs ys p h.1)
All-perm P (_ ∷ _ ∷ _) (_ ∷ _ ∷ _) (Permᴰ.swap e k) (h₁, (h₂, h)) =
    (subst P k h₂, (subst P e h₁, h))
All-perm P xs zs (Permᴰ.trans {l₂ = ys} p q) h = All-perm P ys zs q (All-perm P xs ys p h)

Permᴰ-refl {ℓ} : {A : Type ℓ} (xs : List A) → Permᴰ xs xs
Permᴰ-refl [] = Permᴰ.nil
Permᴰ-refl (x ∷ xs) = Permᴰ.cons refl (Permᴰ-refl xs)

keep-perm {ℓ} :
    {A : Type ℓ} (p : A → Bool) (xs ys : List A) → Permᴰ xs ys → Permᴰ (keep p xs) (keep p ys)
keep-perm p _ _ Permᴰ.nil = Permᴰ.nil
keep-perm p (x ∷ xs) (y ∷ ys) (Permᴰ.cons e h) = elim (Bool-cases (p x)) [
  | inl kept ↦ rw (kept, sym (ap p e) ∙ kept) (Permᴰ.cons e (keep-perm p xs ys h))
  | inr dropped ↦ rw (dropped, sym (ap p e) ∙ dropped) (keep-perm p xs ys h)
]
keep-perm p (x ∷ y ∷ xs) (y' ∷ x' ∷ _) (Permᴰ.swap e k) = elim (Bool-cases (p x)) [
  | inl x_in ↦ elim (Bool-cases (p y)) [
    | inl y_in ↦ rw (x_in, y_in, sym (ap p e) ∙ x_in, sym (ap p k) ∙ y_in) (Permᴰ.swap e k)
    | inr y_out ↦
        rw (x_in, y_out, sym (ap p e) ∙ x_in, sym (ap p k) ∙ y_out)
          (Permᴰ.cons e (Permᴰ-refl (keep p xs)))
  ]
  | inr x_out ↦ elim (Bool-cases (p y)) [
    | inl y_in ↦
        rw (x_out, y_in, sym (ap p e) ∙ x_out, sym (ap p k) ∙ y_in)
          (Permᴰ.cons k (Permᴰ-refl (keep p xs)))
    | inr y_out ↦
        rw (x_out, y_out, sym (ap p e) ∙ x_out, sym (ap p k) ∙ y_out) (Permᴰ-refl (keep p xs))
  ]
]
keep-perm p xs zs (Permᴰ.trans {l₂ = ys} h k) =
    Permᴰ.trans (keep-perm p xs ys h) (keep-perm p ys zs k)

sort_constraints-perm :
    (d : Dict Constraint) (xs ys : List Constraint)
    → Permᴰ xs ys
    → AreRows d xs
    → sort_constraints xs ≡ sort_constraints ys
unfolding sort_constraints
sort_constraints-perm d _ _ Permᴰ.nil h = refl
sort_constraints-perm d (x ∷ xs) (y ∷ ys) (Permᴰ.cons e p) h =
    let below = sort_constraints-perm d xs ys p h.1 in cc
sort_constraints-perm d (x ∷ y ∷ xs) (y' ∷ x' ∷ _) (Permᴰ.swap e k) (h₁, (h₂, h)) =
    elim (same_or_not x.id y.id) [
      | inl same ↦ let one : x ≡ y = some_injective (sym h₁ ∙ ap (λ i. lookup i d) same ∙ h₂) in cc
      | inr other ↦ let swapped = place-place x y (sort_constraints xs) other in cc
    ]
sort_constraints-perm d xs zs (Permᴰ.trans {l₂ = ys} p q) h =
    sort_constraints-perm d xs ys p h
    ∙ sort_constraints-perm d ys zs q (All-perm (λ c. lookup c.id d ≡ some c) xs ys p h)

module _ (times : Multiplier → Multiplier → Multiplier) (hypotheses : Dict HypothesisStatus)
    (hash : List ℕ → ℕ) (symbol now : ℕ) where
  resolve_applicable-perm :
      (d : Dict Constraint) (xs ys : List Constraint)
      → Permᴰ xs ys
      → AreRows d xs
      → resolve_applicable times hypotheses hash symbol now xs
        ≡ resolve_applicable times hypotheses hash symbol now ys
  unfolding resolve_applicable active_constraints
  resolve_applicable-perm d xs ys p rows =
      let same : active_constraints times hypotheses hash symbol now xs
          ≡ active_constraints times hypotheses hash symbol now ys =
        sort_constraints-perm d (keep (is_constraint_active hypotheses) xs)
          (keep (is_constraint_active hypotheses) ys)
          (keep-perm (is_constraint_active hypotheses) xs ys p)
          (All-keep (λ c. lookup c.id d ≡ some c) (is_constraint_active hypotheses) xs rows) in
      ap
        (λ cs. (
          merge times hypotheses hash symbol now cs,
          log_audit_events times hypotheses hash symbol now cs
              (merge times hypotheses hash symbol now cs),
        ))
        same

  -- Two loaded registries that hold the same constraints, each under its id, in whatever orders they were registered,
  -- resolve a symbol to the same merged constraints, the same version and the same audit events.
  pub resolve-perm :
      (loader : Option (List Constraint)) (r r' : ConstraintRegistry)
      → r.loaded ≡ true
      → r'.loaded ≡ true
      → IsKeyed (λ (c : Constraint). c.id) r.constraints
      → Permᴰ (values r.constraints) (values r'.constraints)
      → (resolve times hypotheses hash symbol now loader r).1
        ≡ (resolve times hypotheses hash symbol now loader r').1
  unfolding resolve resolve_found filter_by_symbol ensure_loaded query
  resolve-perm loader r r' is_loaded is_loaded' keyed p =
      rw (is_loaded, is_loaded')
        (ap ok (
          resolve_applicable-perm r.constraints
            (keep (applies_to_symbol loader symbol) (values r.constraints))
            (keep (applies_to_symbol loader symbol) (values r'.constraints))
            (keep-perm (applies_to_symbol loader symbol) (values r.constraints)
              (values r'.constraints) p)
            (All-keep (λ c. lookup c.id r.constraints ≡ some c) (applies_to_symbol loader symbol)
              (values r.constraints) (values-All (λ (c : Constraint). c.id) r.constraints keyed))))
