-- ===== src/Portfolio/Accounting.antt =====
-- The money of a fill.
use aq_trading.Prelude.{◌≡◌, ◌≢◌, ◌⊎◌, inl, inr, refl, arith, sym, ap, ◌∙◌}
use aq_trading.Prelude.Int.{ℤ, pos, ◌+ℤ◌, ◌-ℤ◌, ◌*ℤ◌, ◌≤ℤ◌, ◌<ℤ◌, abs, int_laws, +ℤ_parts, -ℤ_parts}
use aq_trading.Prelude.Int.Ring.{
  +ℤ-*ℤ, -ℤ-*ℤ, *ℤ_comm, *ℤ_sub, zero_mul, neg_mul, cross, eqb_ℤ→eq, abs_neg,
}
use aq_trading.Portfolio.Repo.{Side, buy, sell}
use aq_trading.Portfolio.Fill.{Change, closed, updated, signed, bought, sold, change_of}

abbrev pub new_quantity : Change → ℤ
new_quantity (closed pnl) = pos 0
new_quantity (updated quantity cost pnl) = quantity

-- What the position has cost, short positions negative.
abbrev pub new_basis : Change → ℤ
new_basis (closed pnl) = pos 0
new_basis (updated quantity cost pnl) = quantity *ℤ cost

abbrev pub profit : Change → ℤ
profit (closed pnl) = pnl
profit (updated quantity cost pnl) = pnl

-- The quotient is exact: multiplied by the divisor it gives the dividend.
abbrev pub IsExact : (ℤ → ℤ → ℤ) → ℤ → ℤ → Type 0
IsExact divide a b = b *ℤ divide a b ≡ a

module _ (divide : ℤ → ℤ → ℤ) (old_qty old_cost quantity price : ℤ) where
  -- The four branches of a buy, by the signs of the old and the new quantity.
  abbrev BuyCases : ℤ → Change → Type 0
  BuyCases new_qty c =
      ((new_qty ≡ pos 0) × (c ≡ closed ((old_cost -ℤ price) *ℤ quantity)))
      ⊎ ((old_qty <ℤ pos 0)
          × (c ≡ updated new_qty price ((old_cost -ℤ price) *ℤ pos (abs old_qty))))
      ⊎ (c ≡ updated new_qty old_cost ((old_cost -ℤ price) *ℤ quantity))
      ⊎ ((pos 0 ≤ℤ old_qty)
          × (new_qty ≢ pos 0)
          × (c
              ≡ updated new_qty (divide (old_cost *ℤ old_qty +ℤ price *ℤ quantity) new_qty)
                  (pos 0)))

  bought_cases : BuyCases (old_qty +ℤ quantity) (bought divide old_qty old_cost quantity price)
  unfolding bought
  bought_cases = ground (arith, +ℤ_parts old_qty quantity, eqb_ℤ→eq (old_qty +ℤ quantity) (pos 0))

  -- A buy: the quantity grows by what is bought, and the cost of the position by what is paid and the profit.
  abbrev BuyBalance : Change → Type 0
  BuyBalance c =
      (new_quantity c ≡ old_qty +ℤ quantity)
      × (new_basis c ≡ old_qty *ℤ old_cost +ℤ quantity *ℤ price +ℤ profit c)

  bought_balance :
      (pos 0 ≤ℤ old_qty
        → old_qty +ℤ quantity ≢ pos 0
        → IsExact divide (old_cost *ℤ old_qty +ℤ price *ℤ quantity) (old_qty +ℤ quantity))
      → BuyBalance (bought divide old_qty old_cost quantity price)
  bought_balance exact = elim bought_cases [
    | inl (gone, c) ↦ rw c (
      sym gone,
      omega (
        int_laws,
        cross spread_cost,
        cross spread_profit,
        cross comm_cost,
        cross comm_price,
        cross (ap (λ q. q *ℤ old_cost) gone ∙ zero_mul old_cost),
      ),
    )
    | inr (inl (short, c)) ↦
        rw (c, abs_neg old_qty (omega arith))
          (refl, omega (int_laws, cross (+ℤ-*ℤ old_qty quantity price), cross spread_cover))
    | inr (inr (inl c)) ↦ rw c (
      refl,
      omega (int_laws, cross spread_cost, cross spread_profit, cross comm_cost, cross comm_price),
    )
    | inr (inr (inr (long, stays, c))) ↦
        rw c (refl, omega (int_laws, cross (exact long stays), cross comm_old, cross comm_price))
  ]
    where
      spread_cost : (old_qty +ℤ quantity) *ℤ old_cost ≡ old_qty *ℤ old_cost +ℤ quantity *ℤ old_cost
      spread_cost = +ℤ-*ℤ old_qty quantity old_cost

      spread_profit : (old_cost -ℤ price) *ℤ quantity ≡ old_cost *ℤ quantity -ℤ price *ℤ quantity
      spread_profit = -ℤ-*ℤ old_cost price quantity

      comm_cost : old_cost *ℤ quantity ≡ quantity *ℤ old_cost
      comm_cost = *ℤ_comm old_cost quantity

      comm_price : price *ℤ quantity ≡ quantity *ℤ price
      comm_price = *ℤ_comm price quantity

      comm_old : old_cost *ℤ old_qty ≡ old_qty *ℤ old_cost
      comm_old = *ℤ_comm old_cost old_qty

      spread_cover :
          (old_cost -ℤ price) *ℤ (pos 0 -ℤ old_qty) ≡ old_qty *ℤ price -ℤ old_qty *ℤ old_cost
      spread_cover =
          *ℤ_comm (old_cost -ℤ price) (pos 0 -ℤ old_qty)
          ∙ neg_mul old_qty (old_cost -ℤ price)
          ∙ omega (int_laws, cross (*ℤ_sub old_qty old_cost price))

  bought_quantity :
      new_quantity (bought divide old_qty old_cost quantity price) ≡ old_qty +ℤ quantity
  bought_quantity = elim bought_cases [
    | inl (gone, c) ↦ rw c (sym gone)
    | inr (inl (short, c)) ↦ rw c refl
    | inr (inr (inl c)) ↦ rw c refl
    | inr (inr (inr (long, stays, c))) ↦ rw c refl
  ]

  -- The four branches of a sale.
  abbrev SellCases : ℤ → Change → Type 0
  SellCases new_qty c =
      ((new_qty ≡ pos 0) × (c ≡ closed ((price -ℤ old_cost) *ℤ quantity)))
      ⊎ (c ≡ updated new_qty price ((price -ℤ old_cost) *ℤ old_qty))
      ⊎ (c ≡ updated new_qty old_cost ((price -ℤ old_cost) *ℤ quantity))
      ⊎ ((old_qty ≤ℤ pos 0)
          × (new_qty ≢ pos 0)
          × (c
              ≡ updated new_qty
                  (divide (old_cost *ℤ pos (abs old_qty) +ℤ price *ℤ quantity) (pos (abs new_qty)))
                  (pos 0)))

  sold_cases : SellCases (old_qty -ℤ quantity) (sold divide old_qty old_cost quantity price)
  unfolding sold
  sold_cases = ground (arith, -ℤ_parts old_qty quantity, eqb_ℤ→eq (old_qty -ℤ quantity) (pos 0))

  sold_quantity : new_quantity (sold divide old_qty old_cost quantity price) ≡ old_qty -ℤ quantity
  sold_quantity = elim sold_cases [
    | inl (gone, c) ↦ rw c (sym gone)
    | inr (inl c) ↦ rw c refl
    | inr (inr (inl c)) ↦ rw c refl
    | inr (inr (inr (short, stays, c))) ↦ rw c refl
  ]

  -- A sale: the quantity falls by what is sold, and the cost of the position by what is received, up to the
  -- profit.
  abbrev SellBalance : Change → Type 0
  SellBalance c =
      (new_quantity c ≡ old_qty -ℤ quantity)
      × (new_basis c ≡ old_qty *ℤ old_cost -ℤ quantity *ℤ price +ℤ profit c)

  sold_balance :
      pos 0 ≤ℤ quantity
      → (old_qty ≤ℤ pos 0
          → old_qty -ℤ quantity ≢ pos 0
          → IsExact divide
              (old_cost *ℤ pos (abs old_qty) +ℤ price *ℤ quantity)
              (pos (abs (old_qty -ℤ quantity))))
      → SellBalance (sold divide old_qty old_cost quantity price)
  sold_balance some_sold exact = elim sold_cases [
    | inl (gone, c) ↦ rw c (
      sym gone,
      omega (
        int_laws,
        cross spread_cost,
        cross spread_profit,
        cross (ap (λ q. q *ℤ old_cost) gone ∙ zero_mul old_cost),
      ),
    )
    | inr (inl c) ↦
        rw c (refl, omega (int_laws, cross (-ℤ-*ℤ old_qty quantity price), cross spread_old))
    | inr (inr (inl c)) ↦ rw c (refl, omega (int_laws, cross spread_cost, cross spread_profit))
    | inr (inr (inr (short, stays, c))) ↦ rw c (refl, averaged short stays)
  ]
    where
      spread_cost : (old_qty -ℤ quantity) *ℤ old_cost ≡ old_qty *ℤ old_cost -ℤ quantity *ℤ old_cost
      spread_cost = -ℤ-*ℤ old_qty quantity old_cost

      spread_profit : (price -ℤ old_cost) *ℤ quantity ≡ quantity *ℤ price -ℤ quantity *ℤ old_cost
      spread_profit = *ℤ_comm (price -ℤ old_cost) quantity ∙ *ℤ_sub quantity price old_cost

      spread_old : (price -ℤ old_cost) *ℤ old_qty ≡ old_qty *ℤ price -ℤ old_qty *ℤ old_cost
      spread_old = *ℤ_comm (price -ℤ old_cost) old_qty ∙ *ℤ_sub old_qty price old_cost

      averaged :
          old_qty ≤ℤ pos 0
          → old_qty -ℤ quantity ≢ pos 0
          → (old_qty -ℤ quantity)
              *ℤ divide
                  (old_cost *ℤ pos (abs old_qty) +ℤ price *ℤ quantity)
                  (pos (abs (old_qty -ℤ quantity)))
            ≡ old_qty *ℤ old_cost -ℤ quantity *ℤ price +ℤ pos 0
      averaged short stays =
          let n = old_qty -ℤ quantity in
          let old_abs = abs_neg old_qty short in
          let new_abs = abs_neg n (omega int_laws) in
          let avg = divide (old_cost *ℤ pos (abs old_qty) +ℤ price *ℤ quantity) (pos (abs n)) in
          let total = exact short stays in
          let negated = neg_mul n avg in
          let by_abs = ap (λ q. q *ℤ avg) new_abs in
          let old_total =
            ap (λ q. old_cost *ℤ q) old_abs
            ∙ *ℤ_comm old_cost (pos 0 -ℤ old_qty)
            ∙ neg_mul old_qty old_cost in
          omega (
            int_laws,
            cross total,
            cross negated,
            cross by_abs,
            cross old_total,
            cross (*ℤ_comm price quantity),
          )

-- The quotient by which a fill averages the cost is exact, where the fill averages: where it adds to a
-- position, or opens one that had come to nothing.
abbrev pub IsExactFill : (ℤ → ℤ → ℤ) → Side → ℤ → ℤ → ℤ → ℤ → Type 0
IsExactFill divide buy old_qty old_cost quantity price =
    pos 0 ≤ℤ old_qty
    → old_qty +ℤ quantity ≢ pos 0
    → IsExact divide (old_cost *ℤ old_qty +ℤ price *ℤ quantity) (old_qty +ℤ quantity)
IsExactFill divide sell old_qty old_cost quantity price =
    old_qty ≤ℤ pos 0
    → old_qty -ℤ quantity ≢ pos 0
    → IsExact divide (old_cost *ℤ pos (abs old_qty) +ℤ price *ℤ quantity)
        (pos (abs (old_qty -ℤ quantity)))

-- A fill adds its signed quantity, on every branch.
pub change_of_quantity :
    (divide : ℤ → ℤ → ℤ) (side : Side) (old_qty old_cost quantity price : ℤ)
    → new_quantity (change_of divide side old_qty old_cost quantity price)
      ≡ old_qty +ℤ signed side quantity
unfolding change_of signed
change_of_quantity divide buy old_qty old_cost quantity price =
    bought_quantity divide old_qty old_cost quantity price
change_of_quantity divide sell old_qty old_cost quantity price =
    sold_quantity divide old_qty old_cost quantity price ∙ omega int_laws

-- No fill makes or loses money, on any branch: opening, adding, reducing, closing or flipping a long or a
-- short position. With a quantity that is not negative, and an exact average where the cost is averaged, the
-- new quantity is the old one and the signed quantity of the fill, and the new cost of the position is the old
-- cost, what the fill paid, and the profit that is booked for one unit of the multiplier.
pub change_of_balance :
    (divide : ℤ → ℤ → ℤ) (side : Side) (old_qty old_cost quantity price : ℤ)
    → pos 0 ≤ℤ quantity
    → IsExactFill divide side old_qty old_cost quantity price
    → let c = change_of divide side old_qty old_cost quantity price in
      (new_quantity c ≡ old_qty +ℤ signed side quantity)
      × (new_basis c ≡ old_qty *ℤ old_cost +ℤ signed side quantity *ℤ price +ℤ profit c)
unfolding change_of signed
change_of_balance divide buy old_qty old_cost quantity price some_bought exact =
    bought_balance divide old_qty old_cost quantity price exact
change_of_balance divide sell old_qty old_cost quantity price some_sold exact =
    let b = sold_balance divide old_qty old_cost quantity price some_sold exact in
    (b.0 ∙ omega int_laws, b.1 ∙ omega (int_laws, cross (neg_mul quantity price)))
