-- ===== src/Reconciliation/Comparator.antt =====
-- `Comparator` of backend/src/reconciliation/comparator.py, with the types of
-- backend/src/reconciliation/models.py. The set of all symbols is an argument, the list in which it is
-- iterated over, since Python fixes no order; the quotient of two decimals is the argument `divide`.
pub mod Reports
use aq_trading.Prelude.{
  ℕ, Bool, true, false, not, Option, none, some, List, [], ◌∷◌, ◌++◌, if◌then◌else◌,
}
use aq_trading.Prelude.Dict.{Dict, lookup, insert}
use aq_trading.Prelude.Int.{ℤ, pos, ◌-ℤ◌, ◌*ℤ◌, ltb_ℤ, eqb_ℤ, abs}
use aq_trading.Portfolio.Repo.{Position}

pub data DiscrepancyType : Type 0 where
  missing_local missing_broker quantity_mismatch cost_mismatch cash_mismatch equity_mismatch :
      DiscrepancyType

pub data DiscrepancySeverity : Type 0 where
  info warning critical : DiscrepancySeverity

-- `DEFAULT_SEVERITY_MAP`
unfoldable pub default_severity : DiscrepancyType → DiscrepancySeverity
default_severity cost_mismatch = info
default_severity cash_mismatch = warning
default_severity equity_mismatch = warning
default_severity _ = critical

pub record Discrepancy : Type 0 where
  pub kind : DiscrepancyType
  pub severity : DiscrepancySeverity
  pub symbol : Option ℕ
  pub local_value : Option ℤ
  pub broker_value : Option ℤ
  pub timestamp : ℕ
  pub account_id : ℕ

pub record ReconciliationConfig : Type 0 where
  pub account_id : ℕ
  pub cash_tolerance : ℤ
  pub equity_tolerance_pct : ℤ

pub record BrokerPosition : Type 0 where
  pub symbol : ℕ
  pub quantity : ℤ
  pub avg_cost : ℤ

pub record BrokerAccount : Type 0 where
  pub cash : ℤ
  pub total_equity : ℤ

-- `{p.symbol: p for p in ps}`: of two rows with one symbol the later is kept.
abbrev pub by_symbol : {A : Type 0} → (A → ℕ) → List A → Dict A → Dict A
by_symbol symbol_of [] d = d
by_symbol symbol_of (a ∷ rest) d = by_symbol symbol_of rest (insert d (symbol_of a) a)

abbrev pub local_by_symbol : List Position → Dict Position
local_by_symbol ps = by_symbol (λ p. p.symbol) ps []

abbrev pub broker_by_symbol : List BrokerPosition → Dict BrokerPosition
broker_by_symbol ps = by_symbol (λ p. p.symbol) ps []

module _ (config : ReconciliationConfig) (now : ℕ) where
  unfoldable pub discrepancy : DiscrepancyType → Option ℕ → Option ℤ → Option ℤ → Discrepancy
  unfolding default_severity
  discrepancy kind symbol local broker = record {
    kind = kind;
    severity = default_severity kind;
    symbol = symbol;
    local_value = local;
    broker_value = broker;
    timestamp = now;
    account_id = config.account_id;
  }

  -- The body of the loop over the symbols. `none` is the `AttributeError` for a symbol that neither side has.
  unfoldable pub compare_symbol :
      ℕ → Option Position → Option BrokerPosition → Option (List Discrepancy)
  unfolding discrepancy
  compare_symbol k none none = none
  compare_symbol k none (some b) =
      some (discrepancy missing_local (some k) none (some b.quantity) ∷ [])
  compare_symbol k (some p) none =
      some (discrepancy missing_broker (some k) (some p.quantity) none ∷ [])
  compare_symbol k (some p) (some b) =
      if not (eqb_ℤ p.quantity b.quantity)
      then some (discrepancy quantity_mismatch (some k) (some p.quantity) (some b.quantity) ∷ [])
      else if not (eqb_ℤ p.avg_cost b.avg_cost)
      then some (discrepancy cost_mismatch (some k) (some p.avg_cost) (some b.avg_cost) ∷ [])
      else some []

  -- What an iteration reports, before what the next ones do; an exception ends them all.
  unfoldable pub and_then :
      Option (List Discrepancy) → Option (List Discrepancy) → Option (List Discrepancy)
  and_then none later = none
  and_then (some first) none = none
  and_then (some first) (some later) = some (first ++ later)

  unfoldable pub compare_symbols :
      List ℕ → Dict Position → Dict BrokerPosition → Option (List Discrepancy)
  unfolding compare_symbol and_then
  compare_symbols [] local broker = some []
  compare_symbols (k ∷ ks) local broker =
      and_then (compare_symbol k (lookup k local) (lookup k broker))
        (compare_symbols ks local broker)

  unfoldable pub compare_positions :
      List ℕ → List Position → List BrokerPosition → Option (List Discrepancy)
  unfolding compare_symbols
  compare_positions symbols local broker =
      compare_symbols symbols (local_by_symbol local) (broker_by_symbol broker)

  unfoldable pub compare_cash : ℤ → BrokerAccount → List Discrepancy
  unfolding discrepancy
  compare_cash cash broker =
      if ltb_ℤ config.cash_tolerance (pos (abs (cash -ℤ broker.cash)))
      then discrepancy cash_mismatch none (some cash) (some broker.cash) ∷ []
      else []

  module _ (divide : ℤ → ℤ → ℤ) where
    unfoldable pub compare_equity : ℤ → BrokerAccount → List Discrepancy
    unfolding discrepancy
    compare_equity equity broker =
        let mismatch = discrepancy equity_mismatch none (some equity) (some broker.total_equity) in
        let diff_pct = divide (pos (abs (equity -ℤ broker.total_equity))) equity *ℤ pos 100 in
        if eqb_ℤ equity (pos 0)
        then (if eqb_ℤ broker.total_equity (pos 0) then [] else mismatch ∷ [])
        else if ltb_ℤ config.equity_tolerance_pct diff_pct
        then mismatch ∷ []
        else []

    unfoldable pub compare_account : ℤ → ℤ → BrokerAccount → List Discrepancy
    unfolding compare_cash compare_equity
    compare_account cash equity broker = compare_cash cash broker ++ compare_equity equity broker
