-- ===== src/Reconciliation/Comparator/Reports.antt =====
-- What the comparison reports.
use mathlib.Core.List.{append-nil}
use aq_trading.Prelude.{
  ℕ, ◌≡◌, ◌≢◌, ◌↔◌, inl, inr, refl, sym, ◌∙◌, ap, Bool, true, false, Option, none, some, List, [],
  ◌∷◌, ◌++◌, keep, if◌then◌else◌, ◌==◌, same_or_not, arith, Bool-cases, All, Option-cases,
  some_injective, same-eqb, other-eqb,
}
use aq_trading.Prelude.Dict.{Dict, lookup, contains, insert, lookup-insert_same, lookup-insert_ne}
use aq_trading.Prelude.Int.{ℤ, pos, ◌-ℤ◌, ◌*ℤ◌, ◌≤ℤ◌, ◌<ℤ◌, eqb_ℤ, ltb_ℤ, abs}
use aq_trading.Prelude.Int.Ring.{eqb_ℤ→eq, *ℤ_parts}
use aq_trading.Portfolio.Repo.{Position}
use aq_trading.Reconciliation.Comparator.{
  ReconciliationConfig, Discrepancy, BrokerPosition, BrokerAccount, discrepancy, local_by_symbol,
  broker_by_symbol, compare_symbol, compare_symbols, compare_positions, compare_equity, by_symbol,
  and_then, DiscrepancyType, DiscrepancySeverity, missing_local, missing_broker, quantity_mismatch,
  cost_mismatch, info, critical, default_severity,
}

-- The report is about the symbol.
abbrev pub is_about : ℕ → Discrepancy → Bool
is_about k d = elim d.symbol [ none ↦ false | some j ↦ j == k ]

abbrev pub Distinct : List ℕ → Type 0
Distinct [] = Unit
Distinct (k ∷ ks) = (contains k ks ≡ false) × Distinct ks

-- The two sides agree on a symbol: neither has it, or both have it with one quantity and one cost.
abbrev pub Agrees : Option Position → Option BrokerPosition → Type 0
Agrees none none = Unit
Agrees none (some b) = ⊥
Agrees (some p) none = ⊥
Agrees (some p) (some b) = (p.quantity ≡ b.quantity) × (p.avg_cost ≡ b.avg_cost)

same_is : (k : ℕ) → (k == k) ≡ true
same_is k = ground arith

other_is : (k j : ℕ) → k ≢ j → (k == j) ≡ false
other_is k j ne = ground arith

keep-append :
    (p : Discrepancy → Bool) (xs ys : List Discrepancy) → keep p (xs ++ ys) ≡ keep p xs ++ keep p ys
keep-append p [] ys = refl
keep-append p (x ∷ xs) ys = elim (Bool-cases (p x)) [
  | inl kept ↦ rw kept (ap (λ zs. x ∷ zs) (keep-append p xs ys))
  | inr dropped ↦ rw dropped (keep-append p xs ys)
]

nonzero : (a : ℤ) → a <ℤ pos 0 → eqb_ℤ a (pos 0) ≡ false
nonzero a h = ground arith

percent : (a : ℤ) → a ≤ℤ pos 0 → a *ℤ pos 100 ≤ℤ pos 0
percent a h = omega (arith, h, *ℤ_parts a (pos 100))

within : (tolerance a : ℤ) → pos 0 ≤ℤ tolerance → a ≤ℤ pos 0 → ltb_ℤ tolerance a ≡ false
within tolerance a h k = ground arith

-- The last row of a list for a symbol.
unfoldable pub last_row {ℓ} : {A : Type ℓ} → (A → ℕ) → ℕ → List A → Option A
last_row symbol_of k [] = none
last_row symbol_of k (a ∷ rest) =
    let later = last_row symbol_of k rest in
    elim later [ some b ↦ some b | none ↦ if symbol_of a == k then some a else none ]

abbrev or_else_row {ℓ} : {A : Type ℓ} → Option A → Option A → Option A
or_else_row none o = o
or_else_row (some a) o = some a

by_symbol_lem :
    {A : Type 0} (symbol_of : A → ℕ) (k : ℕ) (rows : List A) (d : Dict A)
    → lookup k (by_symbol symbol_of rows d) ≡ or_else_row (last_row symbol_of k rows) (lookup k d)
unfolding last_row
by_symbol_lem symbol_of k [] d = refl
by_symbol_lem symbol_of k (a ∷ rest) d =
    by_symbol_lem symbol_of k rest (insert d (symbol_of a) a)
    ∙ elim (Option-cases (last_row symbol_of k rest)) [
      | inr (b, found) ↦ rw found refl
      | inl absent ↦ elim (same_or_not (symbol_of a) k) [
        | inl same ↦ rw (absent, same-eqb same) (lookup-insert_same d (symbol_of a) a k (sym same))
        | inr other ↦
            rw (absent, other-eqb other) (lookup-insert_ne d (symbol_of a) a k (λ e. other (sym e)))
      ]
    ]

-- The local and the broker's row for a symbol.
abbrev pub local_row : List Position → ℕ → Option Position
local_row local k = last_row (λ (p : Position). p.symbol) k local

abbrev pub broker_row : List BrokerPosition → ℕ → Option BrokerPosition
broker_row broker k = last_row (λ (b : BrokerPosition). b.symbol) k broker

or_else_row-none {ℓ} : {A : Type ℓ} (o : Option A) → or_else_row o none ≡ o
or_else_row-none none = refl
or_else_row-none (some a) = refl

local_by_symbol_lem :
    (local : List Position) (k : ℕ) → lookup k (local_by_symbol local) ≡ local_row local k
local_by_symbol_lem local k =
    by_symbol_lem (λ (p : Position). p.symbol) k local [] ∙ or_else_row-none (local_row local k)

broker_by_symbol_lem :
    (broker : List BrokerPosition) (k : ℕ)
    → lookup k (broker_by_symbol broker) ≡ broker_row broker k
broker_by_symbol_lem broker k =
    by_symbol_lem (λ (b : BrokerPosition). b.symbol) k broker []
    ∙ or_else_row-none (broker_row broker k)

-- One side at least has a row.
abbrev pub IsKnown : Option Position → Option BrokerPosition → Type 0
IsKnown none none = ⊥
IsKnown none (some b) = Unit
IsKnown (some p) b = Unit

module _ (config : ReconciliationConfig) (now : ℕ) where
  abbrev report : DiscrepancyType → DiscrepancySeverity → ℕ → Option ℤ → Option ℤ → Discrepancy
  report kind severity k local broker = record {
    kind = kind;
    severity = severity;
    symbol = some k;
    local_value = local;
    broker_value = broker;
    timestamp = now;
    account_id = config.account_id;
  }

  -- What is to be reported of the two rows of a symbol.
  abbrev pub wanted : ℕ → Option Position → Option BrokerPosition → List Discrepancy
  wanted k none none = []
  wanted k none (some b) = report missing_local critical k none (some b.quantity) ∷ []
  wanted k (some p) none = report missing_broker critical k (some p.quantity) none ∷ []
  wanted k (some p) (some b) =
      if eqb_ℤ p.quantity b.quantity
      then if eqb_ℤ p.avg_cost b.avg_cost
        then []
        else report cost_mismatch info k (some p.avg_cost) (some b.avg_cost) ∷ []
      else report quantity_mismatch critical k (some p.quantity) (some b.quantity) ∷ []

  compare_symbol_lem :
      (k : ℕ) (l : Option Position) (b : Option BrokerPosition)
      → IsKnown l b
      → compare_symbol config now k l b ≡ some (wanted k l b)
  unfolding compare_symbol discrepancy default_severity
  compare_symbol_lem k none none h = absurd h
  compare_symbol_lem k none (some b) h = refl
  compare_symbol_lem k (some p) none h = refl
  compare_symbol_lem k (some p) (some b) h = ground arith

  wanted-own :
      (k : ℕ) (l : Option Position) (b : Option BrokerPosition)
      → keep (is_about k) (wanted k l b) ≡ wanted k l b
  wanted-own k l b = ground arith

  wanted-other :
      (k j : ℕ) (l : Option Position) (b : Option BrokerPosition)
      → k ≢ j
      → keep (is_about k) (wanted j l b) ≡ []
  wanted-other k j l b ne = ground arith

  wanted_iff :
      (k : ℕ) (l : Option Position) (b : Option BrokerPosition) → (wanted k l b ≡ []) ↔ Agrees l b
  wanted_iff k none none = (λ e. tt, λ u. refl)
  wanted_iff k none (some b) = (λ e. ground arith, λ u. absurd u)
  wanted_iff k (some p) none = (λ e. ground arith, λ u. absurd u)
  wanted_iff k (some p) (some b) =
      ground (arith, eqb_ℤ→eq p.quantity b.quantity, eqb_ℤ→eq p.avg_cost b.avg_cost)

  module _ (local : List Position) (broker : List BrokerPosition) where
    abbrev of_rows : ℕ → List Discrepancy
    of_rows k = wanted k (local_row local k) (broker_row broker k)

    abbrev all_wanted : List ℕ → List Discrepancy
    all_wanted [] = []
    all_wanted (k ∷ ks) = of_rows k ++ all_wanted ks

    compare_symbols_lem :
        (ks : List ℕ)
        → All (λ k. IsKnown (local_row local k) (broker_row broker k)) ks
        → compare_symbols config now ks (local_by_symbol local) (broker_by_symbol broker)
          ≡ some (all_wanted ks)
    unfolding compare_symbols and_then
    compare_symbols_lem [] h = refl
    compare_symbols_lem (k ∷ ks) h =
        rw
          (
            local_by_symbol_lem local k,
            broker_by_symbol_lem broker k,
            compare_symbol_lem k (local_row local k) (broker_row broker k) h.0,
            compare_symbols_lem ks h.1,
          )
          refl

    all_wanted-reports :
        (k : ℕ) (ks : List ℕ)
        → Distinct ks
        → keep (is_about k) (all_wanted ks) ≡ (if contains k ks then of_rows k else [])
    all_wanted-reports k [] distinct = refl
    all_wanted-reports k (j ∷ ks) (fresh, distinct) =
        let rest = all_wanted-reports k ks distinct in
        rw (keep-append (is_about k) (of_rows j) (all_wanted ks), rest)
          (elim (same_or_not k j) [
            | inl same ↦
                rw (same, fresh, same_is j, wanted-own j (local_row local j) (broker_row broker j))
                  (append-nil (of_rows j))
            | inr other ↦
                rw
                  (
                    wanted-other k j (local_row local j) (broker_row broker j) other,
                    other_is k j other,
                  )
                  refl
          ])

    all_agree :
        (ks : List ℕ)
        → ((k : ℕ) → Agrees (local_row local k) (broker_row broker k))
        → all_wanted ks ≡ []
    all_agree [] agree = refl
    all_agree (k ∷ ks) agree =
        rw ((wanted_iff k (local_row local k) (broker_row broker k)).1 (agree k))
          (all_agree ks agree)

module _ (config : ReconciliationConfig) (now : ℕ) (symbols : List ℕ) (local : List Position)
    (broker : List BrokerPosition) where
  -- The list has exactly the symbols of the rows of the two sides, each once.
  abbrev pub Enumerates : Type 0
  Enumerates =
      Distinct symbols
      × All (λ k. IsKnown (local_row local k) (broker_row broker k)) symbols
      × ((k : ℕ)
          → contains k symbols ≡ false
          → (local_row local k ≡ none) × (broker_row broker k ≡ none))

  -- In whatever order the symbols of the rows are gone through, the comparison of positions raises nothing, and what it
  -- reports about a symbol is exactly what is wanted of the last row that each side has for the symbol: a row on one
  -- side alone is reported as missing on the other, with its quantity; else a quantity that differs is reported, with
  -- both quantities; else a cost that differs; else nothing. Earlier rows of the symbol are not looked at.
  pub compare_positions-reports :
      Enumerates
      → (ds : List Discrepancy) × (compare_positions config now symbols local broker ≡ some ds)
        × ((k : ℕ)
            → keep (is_about k) ds ≡ wanted config now k (local_row local k) (broker_row broker k))
  unfolding compare_positions
  compare_positions-reports (distinct, known, complete) = (
    all_wanted config now local broker symbols,
    compare_symbols_lem config now local broker symbols known,
    λ k.
        all_wanted-reports config now local broker k symbols distinct
        ∙ elim (Bool-cases (contains k symbols)) [
          | inl listed ↦ rw listed refl
          | inr unlisted ↦ rw (unlisted, (complete k unlisted).0, (complete k unlisted).1) refl
        ],
  )

  -- The comparison of positions reports nothing exactly where the last rows of the two sides agree for every symbol:
  -- neither side has one, or both have one, with the same quantity and the same average cost. Earlier rows of a symbol
  -- count on neither side.
  pub compare_positions-clean :
      Enumerates
      → (compare_positions config now symbols local broker ≡ some [])
        ↔ ((k : ℕ) → Agrees (local_row local k) (broker_row broker k))
  unfolding compare_positions
  compare_positions-clean (distinct, known, complete) =
      let (ds, ran, about) = compare_positions-reports (distinct, known, complete) in
      (
        λ clean k.
            (wanted_iff config now k (local_row local k) (broker_row broker k)).0
              (sym (about k) ∙ ap (keep (is_about k)) (some_injective (sym ran ∙ clean))),
        λ agree.
            compare_symbols_lem config now local broker symbols known
            ∙ ap some (all_agree config now local broker symbols agree),
      )

-- Where the own equity is negative, the comparison of accounts never reports an equity that differs, however far the
-- broker's is from it: the difference in percent is then not positive. The quotient of a number that is not
-- negative by a negative one is taken not to be positive, and the tolerance not to be negative.
pub negative_equity_unreported :
    (divide : ℤ → ℤ → ℤ) (config : ReconciliationConfig) (now : ℕ) (equity : ℤ)
    (broker : BrokerAccount)
    → ((a b : ℤ) → pos 0 ≤ℤ a → b <ℤ pos 0 → divide a b ≤ℤ pos 0)
    → pos 0 ≤ℤ config.equity_tolerance_pct
    → equity <ℤ pos 0
    → compare_equity config now divide equity broker ≡ []
unfolding compare_equity
negative_equity_unreported divide config now equity broker signs tolerant negative =
    rw
      (
        nonzero equity negative,
        within config.equity_tolerance_pct _ tolerant (
            percent _
              (signs (pos (abs (equity -ℤ broker.total_equity))) equity (omega arith) negative)),
      )
      refl
