-- ===== src/Prelude/Int/Ring.antt =====
-- Products of integers.
use Prim.Native.Nat.{ℕ, ◌+◌, ◌*◌}
use mathlib.Core.Path.{◌≡◌, refl, ap, ◌∙◌}
use mathlib.Core.Logic.{◌⊎◌, inl, inr}
use mathlib.Core.Bool.{true}
use native.Mathlib.Omega.{arith}
use aq_trading.Prelude.Int.{
  ℤ, pos, negsuc, pos_part, neg_part, ◌+ℤ◌, ◌-ℤ◌, ◌*ℤ◌, +ℤ_parts, -ℤ_parts, eq_of_parts, ◌≤ℤ◌,
  eqb_ℤ, abs,
}

pub *ℤ_parts :
    (a b : ℤ)
    → pos_part (a *ℤ b) + (pos_part a * neg_part b + neg_part a * pos_part b)
      ≡ neg_part (a *ℤ b) + (pos_part a * pos_part b + neg_part a * neg_part b)
unfolding ◌*ℤ◌
*ℤ_parts a b = ground arith

pub *ℤ_comm : (a b : ℤ) → a *ℤ b ≡ b *ℤ a
*ℤ_comm a b = omega (arith, *ℤ_parts a b, *ℤ_parts b a, eq_of_parts (a *ℤ b) (b *ℤ a))

pub +ℤ-*ℤ : (a b c : ℤ) → (a +ℤ b) *ℤ c ≡ a *ℤ c +ℤ b *ℤ c
+ℤ-*ℤ a b c = eq_of_parts ((a +ℤ b) *ℤ c) (a *ℤ c +ℤ b *ℤ c) (
    omega (
      arith,
      ap (λ (t : ℕ). t * pos_part c) (+ℤ_parts a b),
      ap (λ (t : ℕ). t * neg_part c) (+ℤ_parts a b),
      *ℤ_parts (a +ℤ b) c,
      *ℤ_parts a c,
      *ℤ_parts b c,
      +ℤ_parts (a *ℤ c) (b *ℤ c),
    ))

pub -ℤ-*ℤ : (a b c : ℤ) → (a -ℤ b) *ℤ c ≡ a *ℤ c -ℤ b *ℤ c
-ℤ-*ℤ a b c = eq_of_parts ((a -ℤ b) *ℤ c) (a *ℤ c -ℤ b *ℤ c) (
    omega (
      arith,
      ap (λ (t : ℕ). t * pos_part c) (-ℤ_parts a b),
      ap (λ (t : ℕ). t * neg_part c) (-ℤ_parts a b),
      *ℤ_parts (a -ℤ b) c,
      *ℤ_parts a c,
      *ℤ_parts b c,
      -ℤ_parts (a *ℤ c) (b *ℤ c),
    ))

pub zero_mul : (a : ℤ) → pos 0 *ℤ a ≡ pos 0
zero_mul a = eq_of_parts (pos 0 *ℤ a) (pos 0) (omega (arith, *ℤ_parts (pos 0) a))

pub neg_mul : (a b : ℤ) → (pos 0 -ℤ a) *ℤ b ≡ pos 0 -ℤ a *ℤ b
neg_mul a b = -ℤ-*ℤ (pos 0) a b ∙ rw (zero_mul b)

-- An equation of integers as one of numbers, for `omega`.
pub cross : {a b : ℤ} → a ≡ b → pos_part a + neg_part b ≡ pos_part b + neg_part a
cross {a} {b} e = rw e (omega arith)

pub eqb_ℤ→eq : (a b : ℤ) → eqb_ℤ a b ≡ true → a ≡ b
eqb_ℤ→eq a b h = eq_of_parts a b (ground arith)

pub abs_neg : (a : ℤ) → a ≤ℤ pos 0 → pos (abs a) ≡ pos 0 -ℤ a
abs_neg a h = eq_of_parts (pos (abs a)) (pos 0 -ℤ a) (omega (arith, -ℤ_parts (pos 0) a, one_part a))
  where
    one_part : (a : ℤ) → (pos_part a ≡ 0) ⊎ (neg_part a ≡ 0)
    one_part (pos n) = inr refl
    one_part (negsuc n) = inl refl

pub *ℤ_sub : (a b c : ℤ) → a *ℤ (b -ℤ c) ≡ a *ℤ b -ℤ a *ℤ c
*ℤ_sub a b c = *ℤ_comm a (b -ℤ c) ∙ -ℤ-*ℤ b c a ∙ rw (*ℤ_comm b a, *ℤ_comm c a)
