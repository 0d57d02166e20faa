-- ===== src/Portfolio/Positions.antt =====
-- What a fill does to the tables.
use aq_trading.Prelude.{
  ℕ, ◌⊎◌, ◌≡◌, inl, inr, refl, ap, Bool, true, Option, none, some, List, [], ◌∷◌, ◌++◌, map, keep,
  length, arith, ◌≤◌, ◌<◌, Bool-cases,
}
use aq_trading.Prelude.Int.{ℤ, pos, ◌+ℤ◌, int_laws}
use aq_trading.Prelude.Int.Ring.{cross}
use aq_trading.Portfolio.Repo.{
  Position, Transaction, Tables, selects, strategy_is, scalar_one_or_none, get_position,
  create_position, assign, change, update_position, drop_rows, close_position, record_transaction,
}
use aq_trading.Portfolio.Fill.{
  Fill, Change, closed, updated, signed, change_of, opened, transaction, apply_change, record_on,
  record_fill,
}
use aq_trading.Portfolio.Accounting.{new_quantity, change_of_quantity}

module _ (chosen : Position → Bool) where
  keep-drop_rows : (ps : List Position) → keep chosen (drop_rows chosen ps) ≡ []
  keep-drop_rows [] = refl
  keep-drop_rows (p ∷ ps) = elim (Bool-cases (chosen p)) [
    | inl in_set ↦ rw in_set (keep-drop_rows ps)
    | inr out ↦ rw (out, out) (keep-drop_rows ps)
  ]

  drop_rows-drop_rows :
      (ps : List Position) → drop_rows chosen (drop_rows chosen ps) ≡ drop_rows chosen ps
  drop_rows-drop_rows [] = refl
  drop_rows-drop_rows (p ∷ ps) = elim (Bool-cases (chosen p)) [
    | inl in_set ↦ rw in_set (drop_rows-drop_rows ps)
    | inr out ↦ rw (out, out) (ap (λ qs. p ∷ qs) (drop_rows-drop_rows ps))
  ]

  module _ (f : Position → Position) (same : (p : Position) → chosen (f p) ≡ chosen p) where
    keep-change : (ps : List Position) → keep chosen (change chosen f ps) ≡ map f (keep chosen ps)
    keep-change [] = refl
    keep-change (p ∷ ps) = elim (Bool-cases (chosen p)) [
      | inl in_set ↦ rw (in_set, same p, in_set) (ap (λ qs. f p ∷ qs) (keep-change ps))
      | inr out ↦ rw (out, out) (keep-change ps)
    ]

    drop_rows-change :
        (ps : List Position) → drop_rows chosen (change chosen f ps) ≡ drop_rows chosen ps
    drop_rows-change [] = refl
    drop_rows-change (p ∷ ps) = elim (Bool-cases (chosen p)) [
      | inl in_set ↦ rw (in_set, same p, in_set) (drop_rows-change ps)
      | inr out ↦ rw (out, out) (ap (λ qs. p ∷ qs) (drop_rows-change ps))
    ]

  keep-snoc :
      (ps : List Position) (p : Position)
      → chosen p ≡ true
      → keep chosen (ps ++ p ∷ []) ≡ keep chosen ps ++ p ∷ []
  keep-snoc [] p h = rw h
  keep-snoc (q ∷ ps) p h = elim (Bool-cases (chosen q)) [
    | inl in_set ↦ rw in_set (ap (λ qs. q ∷ qs) (keep-snoc ps p h))
    | inr out ↦ rw out (keep-snoc ps p h)
  ]

  drop_rows-snoc :
      (ps : List Position) (p : Position)
      → chosen p ≡ true
      → drop_rows chosen (ps ++ p ∷ []) ≡ drop_rows chosen ps
  drop_rows-snoc [] p h = rw h
  drop_rows-snoc (q ∷ ps) p h = elim (Bool-cases (chosen q)) [
    | inl in_set ↦ rw in_set (drop_rows-snoc ps p h)
    | inr out ↦ rw out (ap (λ qs. q ∷ qs) (drop_rows-snoc ps p h))
  ]

module _ (account symbol : ℕ) (strategy : Option ℕ)
    (quantity avg_cost current_price : Option ℤ) where
  assign-selects :
      (p : Position)
      → selects account symbol strategy (assign quantity avg_cost current_price p)
        ≡ selects account symbol strategy p
  unfolding selects assign
  assign-selects p = refl

  module _ (t : Tables) where
    abbrev updated_tables : Tables
    updated_tables = update_position account symbol strategy quantity avg_cost current_price t

    update_position-keep :
        keep (selects account symbol strategy) updated_tables.positions
        ≡ map
            (assign quantity avg_cost current_price)
            (keep (selects account symbol strategy) t.positions)
    unfolding update_position
    update_position-keep =
        keep-change (selects account symbol strategy) (assign quantity avg_cost current_price)
          assign-selects t.positions

    update_position-others :
        drop_rows (selects account symbol strategy) updated_tables.positions
        ≡ drop_rows (selects account symbol strategy) t.positions
    unfolding update_position
    update_position-others =
        drop_rows-change (selects account symbol strategy) (assign quantity avg_cost current_price)
          assign-selects t.positions

    update_position-transactions : updated_tables.transactions ≡ t.transactions
    unfolding update_position
    update_position-transactions = refl

opened-selects :
    (divide : ℤ → ℤ → ℤ) (f : Fill)
    → selects f.account_id f.symbol f.strategy_id (opened divide f) ≡ true
unfolding selects strategy_is
opened-selects divide f = ground arith

abbrev pub matching : Fill → Tables → List Position
matching f t = keep (selects f.account_id f.symbol f.strategy_id) t.positions

abbrev pub others : Fill → Tables → List Position
others f t = drop_rows (selects f.account_id f.symbol f.strategy_id) t.positions

-- The quantity that the rows of a fill hold together.
abbrev pub held : List Position → ℤ
held [] = pos 0
held (p ∷ ps) = p.quantity +ℤ held ps

-- The outcome of a fill: where its rows were at most one, they are again at most one and hold the quantity of
-- the fill more; no other row has changed; and one transaction was appended.
abbrev pub IsRecorded : Fill → Tables → Tables → Type 0
IsRecorded f t t' =
    (length (matching f t') ≤ 1)
    × (held (matching f t') ≡ held (matching f t) +ℤ signed f.side f.quantity)
    × (others f t' ≡ others f t)
    × ((x : Transaction) × t'.transactions ≡ t.transactions ++ x ∷ [])

few_or_many : (n : ℕ) → (n ≤ 1) ⊎ (1 < n)
few_or_many n = omega arith

module _ (divide : ℤ → ℤ → ℤ) (f : Fill) (t : Tables) where
  created-IsRecorded :
      matching f t ≡ []
      → IsRecorded f t
          (record_transaction (transaction divide f (pos 0)) (create_position (opened divide f) t))
  unfolding record_transaction create_position
  created-IsRecorded none_held =
      let row =
        keep-snoc (selects f.account_id f.symbol f.strategy_id) t.positions (opened divide f)
          (opened-selects divide f) in
      rw (row, none_held)
        (
          omega arith,
          omega int_laws,
          drop_rows-snoc (selects f.account_id f.symbol f.strategy_id) t.positions (opened divide f)
              (opened-selects divide f),
          (transaction divide f (pos 0), refl),
        )

  closed-IsRecorded :
      (p : Position)
      → matching f t ≡ p ∷ []
      → pos 0 ≡ p.quantity +ℤ signed f.side f.quantity
      → (x : Transaction)
      → IsRecorded f t (record_transaction x (close_position f.account_id f.symbol f.strategy_id t))
  unfolding record_transaction close_position
  closed-IsRecorded p found total x =
      rw (keep-drop_rows (selects f.account_id f.symbol f.strategy_id) t.positions, found)
        (
          omega arith,
          omega (int_laws, cross total),
          drop_rows-drop_rows (selects f.account_id f.symbol f.strategy_id) t.positions,
          (x, refl),
        )

  updated-IsRecorded :
      (p : Position)
      → matching f t ≡ p ∷ []
      → (quantity cost : ℤ) → quantity ≡ p.quantity +ℤ signed f.side f.quantity
      → (x : Transaction)
      → IsRecorded f t (
          record_transaction x (
            update_position f.account_id f.symbol f.strategy_id (some quantity) (some cost) none t))
  unfolding record_transaction assign
  updated-IsRecorded p found quantity cost total x =
      let row =
        update_position-keep f.account_id f.symbol f.strategy_id (some quantity) (some cost) none
          t in
      let rest =
        update_position-others f.account_id f.symbol f.strategy_id (some quantity) (some cost) none
          t in
      rw (row, found)
        (
          omega arith,
          omega (int_laws, cross total),
          rest,
          (
            x,
            ap (λ xs. xs ++ x ∷ [])
                (update_position-transactions f.account_id f.symbol f.strategy_id (some quantity)
                  (some cost) none t),
          ),
        )

  changed-IsRecorded :
      (p : Position)
      → matching f t ≡ p ∷ []
      → (c : Change) → new_quantity c ≡ p.quantity +ℤ signed f.side f.quantity
      → (x : Transaction) → IsRecorded f t (record_transaction x (apply_change divide f c t).0)
  unfolding apply_change
  changed-IsRecorded p found (closed pnl) total x = closed-IsRecorded p found total x
  changed-IsRecorded p found (updated quantity cost pnl) total x =
      updated-IsRecorded p found quantity cost total x

  record_on-IsRecorded :
      (rows : List Position)
      → matching f t ≡ rows
      → length rows ≤ 1
      → (t' : Tables) × ((record_on divide f (scalar_one_or_none rows) t ≡ some t')
          × IsRecorded f t t')
  unfolding record_on scalar_one_or_none
  record_on-IsRecorded [] found few = (_, (refl, created-IsRecorded found))
  record_on-IsRecorded (p ∷ []) found few =
      let c = change_of divide f.side p.quantity p.avg_cost f.quantity f.price in
      (
        _,
        (
          refl,
          changed-IsRecorded p found c
              (change_of_quantity divide f.side p.quantity p.avg_cost f.quantity f.price)
              (transaction divide f (apply_change divide f c t).1),
        ),
      )
  record_on-IsRecorded (p ∷ q ∷ rest) found few = absurd (omega arith)

  many_raise :
      (rows : List Position)
      → 1 < length rows
      → record_on divide f (scalar_one_or_none rows) t ≡ none
  unfolding record_on scalar_one_or_none
  many_raise [] many = absurd (omega arith)
  many_raise (p ∷ []) many = absurd (omega arith)
  many_raise (p ∷ q ∷ rest) many = refl

  pub record_fill-IsRecorded :
      length (matching f t) ≤ 1
      → (t' : Tables) × ((record_fill divide f t ≡ some t') × IsRecorded f t t')
  unfolding record_fill get_position
  record_fill-IsRecorded few = record_on-IsRecorded (matching f t) refl few

  record_fill-raises : 1 < length (matching f t) → record_fill divide f t ≡ none
  unfolding record_fill get_position
  record_fill-raises many = many_raise (matching f t) many

  -- Where the tables hold at most one row for the account, the symbol and the strategy of a fill (any strategy
  -- where the fill names none), the fill is recorded: afterwards they hold at most one such row, with the old
  -- quantity and the signed quantity of the fill; every other row is as it was; and one transaction is
  -- appended. Where they hold more than one such row, the fill raises.
  pub record_fill-outcome :
      ((length (matching f t) ≤ 1)
        × ((t' : Tables) × ((record_fill divide f t ≡ some t') × IsRecorded f t t')))
      ⊎ ((1 < length (matching f t)) × (record_fill divide f t ≡ none))
  record_fill-outcome = elim (few_or_many (length (matching f t))) [
    | inl few ↦ inl (few, record_fill-IsRecorded few)
    | inr many ↦ inr (many, record_fill-raises many)
  ]
