-- ===== src/Governance/Tests.antt =====
-- Runs of the constraint registry and of the resolver.
use aq_trading.Prelude.{
  ℕ, ◌*◌, ◌+◌, length, ◌≤◌, ◌≡◌, ◌≢◌, ◌↔◌, refl, true, none, some, List, [], ◌∷◌, All, arith,
}
use native.Mathlib.Nat.{mul-le-mul}
use mathlib.Core.List.{Permᴰ}
use aq_trading.Prelude.Dict.{Dict, lookup}
use aq_trading.Prelude.Int.{pos}
use aq_trading.Governance.Constraints.{
  wide, Multiplier, HypothesisStatus, active, sunset, Constraint, Each, IsAtLeastOne, IsWithin,
}
use aq_trading.Governance.Constraints.Registry.{ConstraintRegistry, duplicate_constraint, register}
use aq_trading.Governance.Constraints.Resolver.{
  restrictiveness, is_constraint_active, merge, resolve,
}
use aq_trading.Governance.Constraints.Order.{resolve-perm}
use aq_trading.Governance.Pool.{
  SymbolData, StructuralFilters, PoolAuditEntry, Pool, Hypothesis, build,
}
use aq_trading.Governance.Pool.Accounts.{count_excluded, trail_of, symbols_of, build_accounts}
use aq_trading.Prelude.Result.{Result}
use aq_trading.Governance.Constraints.Merged.{
  Exposure, Admits, merge-Admits, merge-bounds_stop_mode,
}
use aq_trading.Governance.Constraints.Valid.{merge-declared, is_constraint_active_iff}
use aq_trading.Governance.Constraints.Registered.{
  call_register, call_unregister, call_get, after_calls, registered_stays,
}

abbrev growth : Constraint
growth = record {
  id = 1;
  symbols = [];
  strategies = [];
  requires_hypotheses_active = 8 ∷ [];
  disabled_if_falsified = true;
  actions = record {
    enable_strategy = some true;
    pool_bias_multiplier = some (record { over = 3; under = 2 });
    veto_downgrade = none;
    risk_budget_multiplier = some (record { over = 5; under = 4 });
    holding_extension_days = none;
    add_position_cap_multiplier = none;
    stop_mode = some wide;
  };
  guardrails = some (record {
    max_position_pct = some (pos 30);
    max_gross_exposure_delta = none;
    max_drawdown_addon = some (pos 7);
  });
  priority = 10;
}

abbrev value : Constraint
value = record growth {
  id = 2;
  symbols = 5 ∷ [];
  guardrails = some (record {
    max_position_pct = some (pos 20);
    max_gross_exposure_delta = some (pos 50);
    max_drawdown_addon = none;
  });
}

abbrev hypotheses : Dict HypothesisStatus
hypotheses = (8, active) ∷ (9, sunset) ∷ []

-- The product of two fractions, for the tests exactly.
abbrev times : Multiplier → Multiplier → Multiplier
times a b = record { over = a.over * b.over; under = a.under * b.under }

abbrev hash : List ℕ → ℕ
hash [] = 0
hash (k ∷ rest) = k

abbrev one_way : ConstraintRegistry
one_way = record { constraints = (1, growth) ∷ (2, value) ∷ []; loaded = true }

abbrev other_way : ConstraintRegistry
other_way = record { constraints = (2, value) ∷ (1, growth) ∷ []; loaded = true }

resolve-perm_example :
    (resolve times hypotheses hash 5 1000 none one_way).1
    ≡ (resolve times hypotheses hash 5 1000 none other_way).1
resolve-perm_example =
    resolve-perm times hypotheses hash 5 1000 none one_way other_way refl refl
      (refl, refl, (refl, refl, tt)) (Permᴰ.swap refl refl)

abbrev small : Exposure
small = record { position_pct = pos 15; gross_exposure_delta = pos 40; drawdown_addon = pos 5 }

merge-Admits_example :
    Each (Admits small) (merge times hypotheses hash 5 1000 (growth ∷ value ∷ [])).guardrails
    ↔ All (λ c. Each (Admits small) c.guardrails) (growth ∷ value ∷ [])
merge-Admits_example = merge-Admits times hypotheses hash 5 1000 small (growth ∷ value ∷ [])

merge-bounds_stop_mode_example :
    (restrictiveness (merge times hypotheses hash 5 1000 (growth ∷ value ∷ [])).effective_stop_mode
      ≤ 1)
    ↔ All (λ c. Each (λ m. restrictiveness m ≤ 1) c.actions.stop_mode) (growth ∷ value ∷ [])
merge-bounds_stop_mode_example =
    merge-bounds_stop_mode times hypotheses hash 5 1000 1 (growth ∷ value ∷ [])

times-IsAtLeastOne : (a b : Multiplier) → IsAtLeastOne a → IsAtLeastOne b → IsAtLeastOne (times a b)
times-IsAtLeastOne a b h k = mul-le-mul h k

merge-declared_example :
    IsAtLeastOne
      (merge times hypotheses hash 5 1000 (growth ∷ value ∷ [])).effective_risk_budget_multiplier
    × Each (IsWithin 100) (merge times hypotheses hash 5 1000 (growth ∷ value ∷ [])).guardrails
merge-declared_example =
    merge-declared 100 times hypotheses hash 5 1000 times-IsAtLeastOne (growth ∷ value ∷ []) (
      (omega arith, omega arith, (omega arith, omega arith)),
      ((omega arith, omega arith, (omega arith, omega arith)), tt),
    )

is_constraint_active_iff_example :
    (is_constraint_active hypotheses growth ≡ true)
    ↔ All (λ id. lookup id hypotheses ≡ some active) (8 ∷ [])
is_constraint_active_iff_example = is_constraint_active_iff hypotheses growth

two_is_not_one : ◌≢◌ {A = ℕ} 1 2
two_is_not_one e = cc

registered_stays_example :
    let r =
      after_calls
        (some (value ∷ growth ∷ []))
        (call_register growth ∷ call_get 2 ∷ call_unregister 2 ∷ [])
        one_way in
    (lookup 1 r.constraints ≡ some growth)
    × ((c : Constraint)
        → c.id ≡ 1
        → (register (some (value ∷ growth ∷ [])) c r).1 ≡ some (duplicate_constraint 1))
registered_stays_example =
    registered_stays (some (value ∷ growth ∷ []))
      (call_register growth ∷ call_get 2 ∷ call_unregister 2 ∷ []) 1 growth one_way refl
      (tt, (tt, (two_is_not_one, tt)))

abbrev an_asset : SymbolData
an_asset = record {
  symbol = 3;
  sector = 1;
  state_owned_ratio = pos 0;
  dividend_yield = pos 2;
  avg_dollar_volume = pos 900;
  market_cap = pos 5000;
  price = pos 40;
}

abbrev filters : StructuralFilters
filters = record {
  exclude_state_owned_ratio_gte = none;
  exclude_dividend_yield_gte = some (pos 5);
  min_avg_dollar_volume = none;
  exclude_sectors = 2 ∷ [];
  min_market_cap = none;
  max_price = some (pos 100);
  min_price = none;
}

abbrev registry : Dict Hypothesis
registry = (8, record { is_active = true; symbols = 4 ∷ []; sectors = 1 ∷ [] }) ∷ []

abbrev universe : List SymbolData
universe = record an_asset { symbol = 4 } ∷ record an_asset { sector = 2 } ∷ an_asset ∷ []

abbrev built : Result (List PoolAuditEntry) Pool
built = build registry filters (8 ∷ []) [] (8 ∷ []) (record { over = 2; under = 1 }) 1000 universe

build_accounts_example :
    count_excluded (trail_of registry built) + length (symbols_of registry built) ≡ length universe
build_accounts_example =
    build_accounts registry filters (8 ∷ []) [] (8 ∷ []) (record { over = 2; under = 1 }) 1000
      universe
