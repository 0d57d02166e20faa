-- ===== src/Governance/Pool.antt =====
-- The trading pool: backend/src/governance/pool/filters.py, builder.py and models.py. The pool's version, which
-- digests the arguments, is left out; numbers are counted in one grain.
pub mod Accounts
use aq_trading.Prelude.{
  ℕ, Bool, true, false, not, ◌&&◌, ◌||◌, Option, none, some, List, [], ◌∷◌, ◌++◌, map, keep, length,
  is_some, ◌==◌, leb, if◌then◌else◌,
}
use aq_trading.Prelude.Dict.{Dict, lookup, insert, contains}
use aq_trading.Prelude.Int.{ℤ, ltb_ℤ, leb_ℤ}
use aq_trading.Prelude.Result.{Result, ok, raised}
use aq_trading.Governance.Constraints.{Multiplier}
use aq_trading.Governance.Constraints.Registry.{is_empty}
use aq_trading.Governance.Constraints.Resolver.{first, is_one}

pub record SymbolData : Type 0 where
  pub symbol : ℕ
  pub sector : ℕ
  pub state_owned_ratio : ℤ
  pub dividend_yield : ℤ
  pub avg_dollar_volume : ℤ
  pub market_cap : ℤ
  pub price : ℤ

pub record StructuralFilters : Type 0 where
  pub exclude_state_owned_ratio_gte : Option ℤ
  pub exclude_dividend_yield_gte : Option ℤ
  pub min_avg_dollar_volume : Option ℤ
  pub exclude_sectors : List ℕ
  pub min_market_cap : Option ℤ
  pub max_price : Option ℤ
  pub min_price : Option ℤ

-- The reason of an entry, with its source: a filter, a hypothesis, or the allowlist, whose first hypothesis it names.
pub data Reason : Type 0 where
  state_owned_ratio dividend_yield dollar_volume sector market_cap below_price above_price : Reason
  hypothesis : ℕ → Reason
  allowlist : Option ℕ → Reason

pub data PoolAuditEntry : Type 0 where
  excluded : ℕ → Reason → PoolAuditEntry
  prioritized : ℕ → ℕ → PoolAuditEntry
  included : ℕ → PoolAuditEntry

pub record Pool : Type 0 where
  pub symbols : List ℕ
  pub weights : Dict Multiplier
  pub built_at : ℕ
  pub audit_trail : List PoolAuditEntry

-- What the builder reads of a hypothesis.
pub record Hypothesis : Type 0 where
  pub is_active : Bool
  pub symbols : List ℕ
  pub sectors : List ℕ

-- A test against a threshold that may be missing.
abbrev against : (ℤ → Bool) → Option ℤ → Bool
against test none = false
against test (some v) = test v

-- `_check_filters`: the first filter that excludes.
unfoldable pub check_filters : StructuralFilters → SymbolData → Option Reason
check_filters f sd =
    if against (λ v. leb_ℤ v sd.state_owned_ratio) f.exclude_state_owned_ratio_gte
    then some state_owned_ratio
    else if against (λ v. leb_ℤ v sd.dividend_yield) f.exclude_dividend_yield_gte
    then some dividend_yield
    else if against (λ v. ltb_ℤ sd.avg_dollar_volume v) f.min_avg_dollar_volume
    then some dollar_volume
    else if contains sd.sector f.exclude_sectors
    then some sector
    else if against (λ v. ltb_ℤ sd.market_cap v) f.min_market_cap
    then some market_cap
    else if against (λ v. ltb_ℤ sd.price v) f.min_price
    then some below_price
    else if against (λ v. ltb_ℤ v sd.price) f.max_price
    then some above_price
    else none

-- A loop that lets a row pass or notes why it does not.
abbrev pub sort_out :
    SymbolData
    → Option Reason
    → List SymbolData × List PoolAuditEntry
    → List SymbolData × List PoolAuditEntry
sort_out sd none (passed, trail) = (sd ∷ passed, trail)
sort_out sd (some reason) (passed, trail) = (passed, excluded sd.symbol reason ∷ trail)

unfoldable pub sift :
    (SymbolData → Option Reason) → List SymbolData → List SymbolData × List PoolAuditEntry
sift why [] = ([], [])
sift why (sd ∷ rest) = sort_out sd (why sd) (sift why rest)

-- `apply_structural_filters`, with the entries that `build` makes of the exclusions
unfoldable pub apply_structural_filters :
    StructuralFilters → List SymbolData → List SymbolData × List PoolAuditEntry
unfolding check_filters sift
apply_structural_filters f universe = sift (check_filters f) universe

-- The hypotheses of a list of ids that are there and active, with their ids.
abbrev add_active : ℕ → Option Hypothesis → List (ℕ × Hypothesis) → List (ℕ × Hypothesis)
add_active id none rest = rest
add_active id (some h) rest = if h.is_active then (id, h) ∷ rest else rest

abbrev active_of : Dict Hypothesis → List ℕ → List (ℕ × Hypothesis)
active_of registry [] = []
active_of registry (id ∷ rest) = add_active id (lookup id registry) (active_of registry rest)

-- `d[k] = id` for each k
abbrev mark : ℕ → List ℕ → Dict ℕ → Dict ℕ
mark id [] d = d
mark id (k ∷ rest) d = mark id rest (insert d k id)

abbrev mark_symbols : List (ℕ × Hypothesis) → Dict ℕ → Dict ℕ
mark_symbols [] d = d
mark_symbols ((id, h) ∷ rest) d = mark_symbols rest (mark id h.symbols d)

abbrev mark_sectors : List (ℕ × Hypothesis) → Dict ℕ → Dict ℕ
mark_sectors [] d = d
mark_sectors ((id, h) ∷ rest) d = mark_sectors rest (mark id h.sectors d)

pub record Allowed : Type 0 where
  pub symbols : List ℕ
  pub sectors : List ℕ
  pub hypothesis_ids : List ℕ

abbrev all_symbols : List (ℕ × Hypothesis) → List ℕ
all_symbols [] = []
all_symbols ((id, h) ∷ rest) = h.symbols ++ all_symbols rest

abbrev all_sectors : List (ℕ × Hypothesis) → List ℕ
all_sectors [] = []
all_sectors ((id, h) ∷ rest) = h.sectors ++ all_sectors rest

abbrev in_order : SymbolData → List SymbolData → List SymbolData
in_order sd [] = sd ∷ []
in_order sd (other ∷ rest) =
    let below = in_order sd rest in
    if leb sd.symbol other.symbol then sd ∷ other ∷ rest else other ∷ below

-- `sort` by the symbol
abbrev pub sort_symbols : List SymbolData → List SymbolData
sort_symbols [] = []
sort_symbols (sd ∷ rest) = in_order sd (sort_symbols rest)

module _ (registry : Dict Hypothesis) where
  unfoldable pub resolve_denylist : List ℕ → Dict ℕ
  resolve_denylist ids = mark_symbols (active_of registry ids) []

  unfoldable pub allowed_of : List (ℕ × Hypothesis) → Option Allowed
  allowed_of [] = none
  allowed_of active =
      if is_empty (all_symbols active) && is_empty (all_sectors active)
      then none
      else some (record {
        symbols = all_symbols active;
        sectors = all_sectors active;
        hypothesis_ids = map (λ h. h.0) active;
      })

  unfoldable pub resolve_allowlist : List ℕ → Option Allowed
  unfolding allowed_of
  resolve_allowlist ids = allowed_of (active_of registry ids)

  unfoldable pub resolve_bias_sectors : List ℕ → Dict ℕ
  resolve_bias_sectors ids = mark_sectors (active_of registry ids) []

  unfoldable pub why_denied : Dict ℕ → SymbolData → Option Reason
  why_denied denylist sd = elim (lookup sd.symbol denylist) [
    | none ↦ none
    | some id ↦ some (hypothesis id)
  ]

  unfoldable pub why_not_allowed : Option Allowed → SymbolData → Option Reason
  why_not_allowed none sd = none
  why_not_allowed (some a) sd =
      if contains sd.symbol a.symbols || contains sd.sector a.sectors
      then none
      else some (allowlist (first a.hypothesis_ids))

  -- The weights of the symbols in a sector that has a bias.
  abbrev bias_entry :
      Multiplier
      → SymbolData
      → Option ℕ
      → Dict Multiplier × List PoolAuditEntry
      → Dict Multiplier × List PoolAuditEntry
  bias_entry m sd none out = out
  bias_entry m sd (some id) (weights, trail) =
      (insert weights sd.symbol m, trail ++ (prioritized sd.symbol id ∷ []))

  unfoldable pub bias_loop :
      Multiplier
      → Dict ℕ
      → List SymbolData
      → Dict Multiplier × List PoolAuditEntry
      → Dict Multiplier × List PoolAuditEntry
  bias_loop m sectors [] out = out
  bias_loop m sectors (sd ∷ rest) out =
      bias_loop m sectors rest (bias_entry m sd (lookup sd.sector sectors) out)

  unfoldable pub apply_bias :
      Multiplier → Dict ℕ → List SymbolData → Dict Multiplier × List PoolAuditEntry
  unfolding bias_loop
  apply_bias m sectors rows =
      if is_empty sectors || is_one m then ([], []) else bias_loop m sectors rows ([], [])

  module _ (filters : StructuralFilters) (denylist allowlist_ids bias : List ℕ) (m : Multiplier)
      (now : ℕ) where
    -- The end of `build`: the pool, or `EmptyPoolError` with the trail.
    unfoldable pub finish :
        List ℕ → Dict Multiplier → List PoolAuditEntry → Result (List PoolAuditEntry) Pool
    finish [] weights trail = raised trail
    finish (k ∷ rest) weights trail =
        ok (record { symbols = k ∷ rest; weights = weights; built_at = now; audit_trail = trail })

    unfoldable pub build : List SymbolData → Result (List PoolAuditEntry) Pool
    unfolding apply_structural_filters resolve_denylist resolve_allowlist why_denied why_not_allowed
        apply_bias finish
    build universe =
        let structural = apply_structural_filters filters universe in
        let denied = sift (why_denied (resolve_denylist denylist)) structural.0 in
        let allowed = sift (why_not_allowed (resolve_allowlist allowlist_ids)) denied.0 in
        let rows = sort_symbols allowed.0 in
        let (weights, priorities) = apply_bias m (resolve_bias_sectors bias) rows in
        finish (map (λ (sd : SymbolData). sd.symbol) rows) weights (
          structural.1
          ++ (denied.1
              ++ (allowed.1 ++ (priorities ++ map (λ (sd : SymbolData). included sd.symbol) rows))))
