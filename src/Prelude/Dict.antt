-- ===== src/Prelude/Dict.antt =====
-- A Python dict in insertion order, and a set as the list of its items. The keys are texts that the
-- source only compares for equality, so they are numbers here.
pub mod Keyed
use Prim.Native.Nat.{ℕ}
use mathlib.Core.Path.{◌≡◌}
use mathlib.Core.Logic.{◌≢◌}
use mathlib.Core.Bool.{Bool, true, false}
use mathlib.Core.Option.{Option, none, some}
use mathlib.Core.List.{List, [], ◌∷◌}
use native.Mathlib.Omega.{arith}
use aq_trading.Prelude.Tests.{◌==◌, if◌then◌else◌}

-- `k in s`
abbrev pub contains : ℕ → List ℕ → Bool
contains k [] = false
contains k (j ∷ s) = if k == j then true else contains k s

abbrev pub Dict {ℓ} : Type ℓ → Type ℓ
Dict V = List (ℕ × V)

module _ {ℓ} {V : Type ℓ} where
  -- `d.get(key)`
  abbrev pub lookup : ℕ → Dict V → Option V
  lookup key [] = none
  lookup key ((at, value) ∷ rest) = if at == key then some value else lookup key rest

  -- `d.values()`
  abbrev pub values : Dict V → List V
  values [] = []
  values ((at, value) ∷ rest) = value ∷ values rest

  -- `d[key] = value`: a known key keeps its place.
  abbrev pub insert : Dict V → ℕ → V → Dict V
  insert [] key value = (key, value) ∷ []
  insert ((at, old) ∷ rest) key value =
      let changed = (at, value) ∷ rest in
      let kept = (at, old) ∷ insert rest key value in if at == key then changed else kept

  -- `d.pop(key, None)`; a dict has a key once.
  abbrev pub erase : Dict V → ℕ → Dict V
  erase [] key = []
  erase ((at, old) ∷ rest) key =
      let cleared = erase rest key in if at == key then cleared else (at, old) ∷ cleared

  pub lookup-insert :
      (d : Dict V) (key : ℕ) (value : V) (other : ℕ)
      → lookup other (insert d key value) ≡ (if other == key then some value else lookup other d)
  lookup-insert [] key value other = ground arith
  lookup-insert ((at, old) ∷ rest) key value other =
      ground (arith, lookup-insert rest key value other)

  pub lookup-erase :
      (d : Dict V) (key other : ℕ)
      → lookup other (erase d key) ≡ (if other == key then none else lookup other d)
  lookup-erase [] key other = ground arith
  lookup-erase ((at, old) ∷ rest) key other = ground (arith, lookup-erase rest key other)

  pub lookup-insert_same :
      (d : Dict V) (key : ℕ) (value : V) (other : ℕ)
      → other ≡ key
      → lookup other (insert d key value) ≡ some value
  lookup-insert_same d key value other e = ground (arith, lookup-insert d key value other)

  pub lookup-insert_ne :
      (d : Dict V) (key : ℕ) (value : V) (other : ℕ)
      → other ≢ key
      → lookup other (insert d key value) ≡ lookup other d
  lookup-insert_ne d key value other ne = ground (arith, lookup-insert d key value other)

  pub lookup-erase_same : (d : Dict V) (key : ℕ) → lookup key (erase d key) ≡ none
  lookup-erase_same d key = ground (arith, lookup-erase d key key)

  pub lookup-erase_ne :
      (d : Dict V) (key other : ℕ) → other ≢ key → lookup other (erase d key) ≡ lookup other d
  lookup-erase_ne d key other ne = ground (arith, lookup-erase d key other)
