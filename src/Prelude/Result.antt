-- ===== src/Prelude/Result.antt =====
-- A call that may raise: its value, or the exception. A method pairs it with the state that it
-- leaves, since what was written before a raise stays written.
use mathlib.Core.Bool.{Bool, true, false}

pub data Result {ℓ κ} (E : Type ℓ) (A : Type κ) : Type (ℓ ⊔ κ) where
  ok : A → Result E A
  raised : E → Result E A

abbrev pub is_ok {ℓ κ} : {E : Type ℓ} {A : Type κ} → Result E A → Bool
is_ok (ok a) = true
is_ok (raised e) = false
