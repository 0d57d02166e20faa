-- ===== src/Governance/Pool/Accounts.antt =====
-- Every row of the universe is accounted for in the pool or in its trail.
use aq_trading.Prelude.{
  ℕ, suc, ◌+◌, ◌≡◌, refl, ◌∙◌, ap, ◌||◌, Option, none, some, List, [], ◌∷◌, ◌++◌, map, length, leb,
  if_keeps, arith,
}
use aq_trading.Prelude.Dict.{Dict, lookup}
use aq_trading.Prelude.Result.{Result, ok, raised}
use aq_trading.Governance.Constraints.{Multiplier}
use aq_trading.Governance.Constraints.Registry.{is_empty}
use aq_trading.Governance.Constraints.Resolver.{is_one}
use aq_trading.Governance.Pool.{
  SymbolData, StructuralFilters, Reason, PoolAuditEntry, excluded, prioritized, included, Pool,
  Hypothesis, check_filters, sort_out, sift, apply_structural_filters, in_order, sort_symbols,
  resolve_denylist, resolve_allowlist, resolve_bias_sectors, why_denied, why_not_allowed,
  bias_entry, bias_loop, apply_bias, finish, build,
}

-- The exclusions of a trail.
abbrev pub count_excluded : List PoolAuditEntry → ℕ
count_excluded [] = 0
count_excluded (excluded s r ∷ rest) = suc (count_excluded rest)
count_excluded (prioritized s h ∷ rest) = count_excluded rest
count_excluded (included s ∷ rest) = count_excluded rest

count_excluded-append :
    (xs ys : List PoolAuditEntry)
    → count_excluded (xs ++ ys) ≡ count_excluded xs + count_excluded ys
count_excluded-append [] ys = omega arith
count_excluded-append (excluded s r ∷ rest) ys = omega (arith, count_excluded-append rest ys)
count_excluded-append (prioritized s h ∷ rest) ys = count_excluded-append rest ys
count_excluded-append (included s ∷ rest) ys = count_excluded-append rest ys

-- A loop lets each row pass or excludes it.
abbrev Splits : ℕ → List SymbolData × List PoolAuditEntry → Type 0
Splits n out = count_excluded out.1 + length out.0 ≡ n

sort_out-Splits :
    (sd : SymbolData) (why : Option Reason) (n : ℕ) (out : List SymbolData × List PoolAuditEntry)
    → Splits n out
    → Splits (suc n) (sort_out sd why out)
sort_out-Splits sd none n (passed, trail) h = omega (arith, h)
sort_out-Splits sd (some reason) n (passed, trail) h = omega (arith, h)

sift-Splits :
    (why : SymbolData → Option Reason) (rows : List SymbolData)
    → Splits (length rows) (sift why rows)
unfolding sift
sift-Splits why [] = refl
sift-Splits why (sd ∷ rest) =
    sort_out-Splits sd (why sd) (length rest) (sift why rest) (sift-Splits why rest)

length-in_order :
    (sd : SymbolData) (rows : List SymbolData) → length (in_order sd rows) ≡ suc (length rows)
length-in_order sd [] = refl
length-in_order sd (other ∷ rest) =
    if_keeps (λ rows. length rows ≡ suc (suc (length rest))) (leb sd.symbol other.symbol)
      (sd ∷ other ∷ rest) (other ∷ in_order sd rest) refl (ap suc (length-in_order sd rest))

length-sort_symbols : (rows : List SymbolData) → length (sort_symbols rows) ≡ length rows
length-sort_symbols [] = refl
length-sort_symbols (sd ∷ rest) =
    length-in_order sd (sort_symbols rest) ∙ ap suc (length-sort_symbols rest)

count_excluded-included :
    (rows : List SymbolData)
    → count_excluded (map (λ (sd : SymbolData). included sd.symbol) rows) ≡ 0
count_excluded-included [] = refl
count_excluded-included (sd ∷ rest) = count_excluded-included rest

length-map {ℓ κ} :
    {A : Type ℓ} {B : Type κ} (f : A → B) (xs : List A) → length (map f xs) ≡ length xs
length-map f [] = refl
length-map f (x ∷ xs) = ap suc (length-map f xs)

module _ (registry : Dict Hypothesis) where
  bias_entry-count :
      (m : Multiplier) (sd : SymbolData) (o : Option ℕ)
      (out : Dict Multiplier × List PoolAuditEntry)
      → count_excluded (bias_entry registry m sd o out).1 ≡ count_excluded out.1
  bias_entry-count m sd none out = refl
  bias_entry-count m sd (some id) (weights, trail) =
      omega (arith, count_excluded-append trail (prioritized sd.symbol id ∷ []))

  bias_loop-count :
      (m : Multiplier) (sectors : Dict ℕ) (rows : List SymbolData)
      (out : Dict Multiplier × List PoolAuditEntry)
      → count_excluded (bias_loop registry m sectors rows out).1 ≡ count_excluded out.1
  unfolding bias_loop
  bias_loop-count m sectors [] out = refl
  bias_loop-count m sectors (sd ∷ rest) out =
      bias_loop-count m sectors rest (bias_entry registry m sd (lookup sd.sector sectors) out)
      ∙ bias_entry-count m sd (lookup sd.sector sectors) out

  apply_bias-count :
      (m : Multiplier) (sectors : Dict ℕ) (rows : List SymbolData)
      → count_excluded (apply_bias registry m sectors rows).1 ≡ 0
  unfolding apply_bias
  apply_bias-count m sectors rows =
      if_keeps (λ (out : Dict Multiplier × List PoolAuditEntry). count_excluded out.1 ≡ 0)
        (is_empty sectors || is_one m) ([], []) (bias_loop registry m sectors rows ([], [])) refl
        (bias_loop-count m sectors rows ([], []))

  -- The pool that a build gives, which is empty where it raises, and the trail of either.
  abbrev pub symbols_of : Result (List PoolAuditEntry) Pool → List ℕ
  symbols_of (raised trail) = []
  symbols_of (ok pool) = pool.symbols

  abbrev pub trail_of : Result (List PoolAuditEntry) Pool → List PoolAuditEntry
  trail_of (raised trail) = trail
  trail_of (ok pool) = pool.audit_trail

  module _ (filters : StructuralFilters) (denylist allowlist_ids bias : List ℕ) (m : Multiplier)
      (now : ℕ) where
    finish-parts :
        (symbols : List ℕ) (weights : Dict Multiplier) (trail : List PoolAuditEntry)
        → (symbols_of
              (finish registry filters denylist allowlist_ids bias m now symbols weights trail)
            ≡ symbols)
          × (trail_of
                (finish registry filters denylist allowlist_ids bias m now symbols weights trail)
              ≡ trail)
    unfolding finish
    finish-parts [] weights trail = (refl, refl)
    finish-parts (k ∷ rest) weights trail = (refl, refl)

    -- A build of the pool accounts for the whole universe, also where it raises because the pool is empty: the symbols
    -- of the pool and the exclusions of the audit trail are together as many as the rows of the universe.
    pub build_accounts :
        (universe : List SymbolData)
        → count_excluded
              (trail_of (build registry filters denylist allowlist_ids bias m now universe))
            + length
                (symbols_of (build registry filters denylist allowlist_ids bias m now universe))
          ≡ length universe
    unfolding build apply_structural_filters
    build_accounts universe =
        let structural = apply_structural_filters filters universe in
        let denied = sift (why_denied registry (resolve_denylist registry denylist)) structural.0 in
        let allowed =
          sift (why_not_allowed registry (resolve_allowlist registry allowlist_ids)) denied.0 in
        let rows = sort_symbols allowed.0 in
        let biased = apply_bias registry m (resolve_bias_sectors registry bias) rows in
        let inclusions = map (λ (sd : SymbolData). included sd.symbol) rows in
        let parts =
          finish-parts (map (λ (sd : SymbolData). sd.symbol) rows) biased.0
            (structural.1 ++ (denied.1 ++ (allowed.1 ++ (biased.1 ++ inclusions)))) in
        let last = biased.1 ++ inclusions in
        omega (
          arith,
          ap count_excluded parts.1,
          ap length parts.0,
          count_excluded-append structural.1 (denied.1 ++ (allowed.1 ++ last)),
          count_excluded-append denied.1 (allowed.1 ++ last),
          count_excluded-append allowed.1 last,
          count_excluded-append biased.1 inclusions,
          sift-Splits (check_filters filters) universe,
          sift-Splits (why_denied registry (resolve_denylist registry denylist)) structural.0,
          sift-Splits (why_not_allowed registry (resolve_allowlist registry allowlist_ids))
              denied.0,
          apply_bias-count m (resolve_bias_sectors registry bias) rows,
          count_excluded-included rows,
          length-map (λ (sd : SymbolData). sd.symbol) rows,
          length-sort_symbols allowed.0,
        )
