-- ===== src/Governance/Constraints/Registry.antt =====
-- `ConstraintRegistry` of backend/src/governance/constraints/registry.py. What the loader reads from its
-- files is an argument of the registry.
use aq_trading.Prelude.{
  ℕ, Bool, true, false, ◌||◌, Option, none, some, List, [], ◌∷◌, keep, is_some, length,
  if◌then◌else◌,
}
use aq_trading.Prelude.Dict.{Dict, lookup, insert, erase, values, contains}
use aq_trading.Prelude.Result.{Result, ok, raised}
use aq_trading.Governance.Constraints.{Constraint}

pub record ConstraintRegistry : Type 0 where
  pub constraints : Dict Constraint
  pub loaded : Bool

pub data RegistryError : Type 0 where
  duplicate_constraint : ℕ → RegistryError
  no_loader : RegistryError

abbrev pub is_empty {ℓ} : {A : Type ℓ} → List A → Bool
is_empty [] = true
is_empty (_ ∷ _) = false

-- One constraint into the dict.
unfoldable pub add : Constraint → Dict Constraint → Dict Constraint × Option RegistryError
add c d =
    if is_some (lookup c.id d)
    then (d, some (duplicate_constraint c.id))
    else (insert d c.id c, none)

-- The loop over what is loaded, which the first duplicate ends.
unfoldable pub add_all : List Constraint → Dict Constraint → Dict Constraint × Option RegistryError
add_all [] d = (d, none)
add_all (c ∷ rest) d =
    let below = add_all rest (insert d c.id c) in
    if is_some (lookup c.id d) then (d, some (duplicate_constraint c.id)) else below

module _ (loader : Option (List Constraint)) where
  -- The registry after a load; a load that raises leaves what it has added, and the flag as it was.
  unfoldable pub finish_load :
      ConstraintRegistry
      → Dict Constraint × Option RegistryError
      → ConstraintRegistry × Option RegistryError
  finish_load r (d, none) = (record { constraints = d; loaded = true }, none)
  finish_load r (d, some error) = (record r { constraints = d }, some error)

  unfoldable pub load :
      Option (List Constraint) → ConstraintRegistry → ConstraintRegistry × Option RegistryError
  unfolding finish_load
  load none r = (r, none)
  load (some constraints) r = finish_load r (add_all constraints r.constraints)

  -- `_ensure_loaded`
  unfoldable pub ensure_loaded : ConstraintRegistry → ConstraintRegistry × Option RegistryError
  unfolding load
  ensure_loaded r = if r.loaded then (r, none) else load loader r

  -- A query, which loads first.
  unfoldable pub query {ℓ} :
      {A : Type ℓ}
      → (ConstraintRegistry → A)
      → ConstraintRegistry × Option RegistryError
      → ConstraintRegistry × Result RegistryError A
  query f (r, none) = (r, ok (f r))
  query f (r, some error) = (r, raised error)

  unfoldable pub get :
      ℕ → ConstraintRegistry → ConstraintRegistry × Result RegistryError (Option Constraint)
  unfolding query
  get id r = query (λ r. lookup id r.constraints) (ensure_loaded r)

  unfoldable pub list_all :
      ConstraintRegistry → ConstraintRegistry × Result RegistryError (List Constraint)
  unfolding query
  list_all r = query (λ r. values r.constraints) (ensure_loaded r)

  -- No symbols stand for all.
  unfoldable pub applies_to_symbol : ℕ → Constraint → Bool
  applies_to_symbol symbol c = is_empty c.symbols || contains symbol c.symbols

  unfoldable pub applies_to_strategy : ℕ → Constraint → Bool
  applies_to_strategy strategy c = is_empty c.strategies || contains strategy c.strategies

  unfoldable pub filter_by_symbol :
      ℕ → ConstraintRegistry → ConstraintRegistry × Result RegistryError (List Constraint)
  unfolding query applies_to_symbol
  filter_by_symbol symbol r =
      query (λ r. keep (applies_to_symbol symbol) (values r.constraints)) (ensure_loaded r)

  unfoldable pub filter_by_strategy :
      ℕ → ConstraintRegistry → ConstraintRegistry × Result RegistryError (List Constraint)
  unfolding query applies_to_strategy
  filter_by_strategy strategy r =
      query (λ r. keep (applies_to_strategy strategy) (values r.constraints)) (ensure_loaded r)

  -- Marks the registry as loaded, so that nothing is loaded later.
  unfoldable pub register :
      Constraint → ConstraintRegistry → ConstraintRegistry × Option RegistryError
  unfolding add
  register c r =
      let (d, error) = add c r.constraints in (record { constraints = d; loaded = true }, error)

  unfoldable pub remove : ℕ → ConstraintRegistry → Bool → ConstraintRegistry × Bool
  remove id r true = (record r { constraints = erase r.constraints id }, true)
  remove id r false = (r, false)

  unfoldable pub unregister_loaded :
      ℕ → ConstraintRegistry × Option RegistryError → ConstraintRegistry × Result RegistryError Bool
  unfolding remove
  unregister_loaded id (r, some error) = (r, raised error)
  unregister_loaded id (r, none) =
      let (r', removed) = remove id r (is_some (lookup id r.constraints)) in (r', ok removed)

  unfoldable pub unregister :
      ℕ → ConstraintRegistry → ConstraintRegistry × Result RegistryError Bool
  unfolding unregister_loaded
  unregister id r = unregister_loaded id (ensure_loaded r)

  -- `reload`
  unfoldable pub reload_from :
      Option (List Constraint) → ConstraintRegistry → ConstraintRegistry × Option RegistryError
  unfolding finish_load
  reload_from none r = (r, some no_loader)
  reload_from (some constraints) r = finish_load r (add_all constraints [])

  unfoldable pub reload : ConstraintRegistry → ConstraintRegistry × Option RegistryError
  unfolding reload_from
  reload r = reload_from loader r

  unfoldable pub count : ConstraintRegistry → ConstraintRegistry × Result RegistryError ℕ
  unfolding query
  count r = query (λ r. length r.constraints) (ensure_loaded r)
