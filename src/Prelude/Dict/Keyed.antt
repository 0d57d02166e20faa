-- ===== src/Prelude/Dict/Keyed.antt =====
-- A table: a dict in which each row stands once, under its own primary key.
use Prim.Native.Nat.{ℕ}
use mathlib.Core.Path.{◌≡◌, refl, sym, ap, ◌∙◌}
use mathlib.Core.Logic.{◌≢◌, inl, inr}
use mathlib.Core.Bool.{Bool, true}
use mathlib.Core.Option.{none, some}
use mathlib.Core.List.{List, [], ◌∷◌}
use aq_trading.Prelude.Tests.{same-eqb, other-eqb, Bool-cases, same_or_not, some_injective}
use aq_trading.Prelude.Lists.{keep, All}
use aq_trading.Prelude.Dict.{Dict, lookup, insert, values, lookup-insert_ne}

module _ {ℓ} {V : Type ℓ} (key : V → ℕ) where
  abbrev pub IsKeyed : Dict V → Type ℓ
  IsKeyed [] = Unit
  IsKeyed ((at, v) ∷ rest) = (at ≡ key v) × (lookup at rest ≡ none) × IsKeyed rest

  -- No two rows of a list have one key.
  abbrev pub Distinct : List V → Type ℓ
  Distinct [] = Unit
  Distinct (v ∷ rest) = All (λ w. key w ≢ key v) rest × Distinct rest

  pub insert-IsKeyed : (d : Dict V) (v : V) → IsKeyed d → IsKeyed (insert d (key v) v)
  insert-IsKeyed [] v h = (refl, refl, tt)
  insert-IsKeyed ((at, old) ∷ rest) v (own, fresh, h) = elim (same_or_not at (key v)) [
    | inl same ↦ rw (same-eqb same) (same, fresh, h)
    | inr other ↦
        rw (other-eqb other)
          (own, lookup-insert_ne rest (key v) v at other ∙ fresh, insert-IsKeyed rest v h)
  ]

pub All-keep {ℓ κ} :
    {A : Type ℓ} (P : A → Type κ) (p : A → Bool) (xs : List A) → All P xs → All P (keep p xs)
All-keep P p [] h = tt
All-keep P p (x ∷ xs) (here, h) = elim (Bool-cases (p x)) [
  | inl kept ↦ rw kept (here, All-keep P p xs h)
  | inr dropped ↦ rw dropped (All-keep P p xs h)
]

pub All-keep_sat {ℓ} : {A : Type ℓ} (p : A → Bool) (xs : List A) → All (λ x. p x ≡ true) (keep p xs)
All-keep_sat p [] = tt
All-keep_sat p (x ∷ xs) = elim (Bool-cases (p x)) [
  | inl kept ↦ rw kept (kept, All-keep_sat p xs)
  | inr dropped ↦ rw dropped (All-keep_sat p xs)
]

pub All-zip {ℓ κ μ} :
    {A : Type ℓ} (P : A → Type κ) (Q : A → Type μ) (xs : List A)
    → All P xs
    → All Q xs
    → All (λ x. P x × Q x) xs
All-zip P Q [] h k = tt
All-zip P Q (x ∷ xs) h k = ((h.0, k.0), All-zip P Q xs h.1 k.1)

pub All-map {ℓ κ μ} :
    {A : Type ℓ} (P : A → Type κ) (Q : A → Type μ)
    → ((x : A) → P x → Q x)
    → (xs : List A) → All P xs
    → All Q xs
All-map P Q f [] h = tt
All-map P Q f (x ∷ xs) h = (f x h.0, All-map P Q f xs h.1)

module _ {ℓ} {V : Type ℓ} (key : V → ℕ) where
  -- Each row of a table is found under its key.
  pub values-All : (d : Dict V) → IsKeyed key d → All (λ v. lookup (key v) d ≡ some v) (values d)
  values-All [] h = tt
  values-All ((at, v) ∷ rest) (own, fresh, h) = (
    rw (same-eqb own) refl,
    All-map (λ w. lookup (key w) rest ≡ some w) (λ w. lookup (key w) ((at, v) ∷ rest) ≡ some w)
        below (values rest) (values-All rest h),
  )
    where
      apart : (w : V) → lookup (key w) rest ≡ some w → at ≢ key w
      apart w found e = absurd cc

      below : (w : V) → lookup (key w) rest ≡ some w → lookup (key w) ((at, v) ∷ rest) ≡ some w
      below w found = rw (other-eqb (apart w found)) found

  pub values-Distinct : (d : Dict V) → IsKeyed key d → Distinct key (values d)
  values-Distinct [] h = tt
  values-Distinct ((at, v) ∷ rest) (own, fresh, h) = (
    All-map (λ w. lookup (key w) rest ≡ some w) (λ w. key w ≢ key v) (λ w found e. absurd cc)
        (values rest) (values-All rest h),
    values-Distinct rest h,
  )

  pub keep-Distinct : (p : V → Bool) (vs : List V) → Distinct key vs → Distinct key (keep p vs)
  keep-Distinct p [] h = tt
  keep-Distinct p (v ∷ vs) (apart, h) = elim (Bool-cases (p v)) [
    | inl kept ↦ rw kept (All-keep (λ w. key w ≢ key v) p vs apart, keep-Distinct p vs h)
    | inr dropped ↦ rw dropped (keep-Distinct p vs h)
  ]

  -- The rows that a query gives: current, satisfying its condition, and each once.
  pub keep-All :
      (p : V → Bool) (d : Dict V)
      → IsKeyed key d
      → All (λ v. (lookup (key v) d ≡ some v) × (p v ≡ true)) (keep p (values d))
  keep-All p d h =
      All-zip (λ v. lookup (key v) d ≡ some v) (λ v. p v ≡ true) (keep p (values d))
        (All-keep (λ v. lookup (key v) d ≡ some v) p (values d) (values-All d h))
        (All-keep_sat p (values d))

  pub lookup-key : (d : Dict V) → IsKeyed key d → (k : ℕ) (v : V) → lookup k d ≡ some v → key v ≡ k
  lookup-key [] h k v found = absurd cc
  lookup-key ((at, w) ∷ rest) (own, fresh, h) k v found = elim (same_or_not at k) [
    | inl same ↦
        let here : lookup k ((at, w) ∷ rest) ≡ some w = rw (same-eqb same) refl in
        ap key (some_injective (sym found ∙ here)) ∙ sym own ∙ same
    | inr other ↦
        let below : lookup k ((at, w) ∷ rest) ≡ lookup k rest = rw (other-eqb other) refl in
        lookup-key rest h k v (sym below ∙ found)
  ]
