-- ===== src/Prelude/Table.antt =====
-- What the database returns for a query.
use mathlib.Core.List.{List, [], ◌∷◌}

-- `scalar_one_or_none`, which raises on more than one row.
pub data Found {ℓ} (A : Type ℓ) : Type ℓ where
  missing : Found A
  one : A → Found A
  multiple_results : Found A

unfoldable pub scalar_one_or_none {ℓ} : {A : Type ℓ} → List A → Found A
scalar_one_or_none [] = missing
scalar_one_or_none (a ∷ []) = one a
scalar_one_or_none (a ∷ b ∷ rest) = multiple_results
