-- ===== src/Governance/Constraints/Registered.antt =====
-- The first constraint under an id stays in the registry.
use aq_trading.Prelude.{
  ℕ, ◌≡◌, ◌≢◌, All, inl, inr, refl, sym, subst, if_keeps, ◌∙◌, Bool, true, false, Option, none,
  some, List, [], ◌∷◌, is_some, same_or_not, Bool-cases,
}
use aq_trading.Prelude.Dict.{Dict, lookup, insert, lookup-erase_ne, lookup-insert_ne}
use aq_trading.Governance.Constraints.{Constraint}
use aq_trading.Governance.Constraints.Registry.{
  ConstraintRegistry, RegistryError, duplicate_constraint, add, add_all, finish_load, load,
  ensure_loaded, query, get, register, remove, unregister_loaded, unregister, reload,
}

-- A call on a registry.
pub data Call : Type 0 where
  call_register : Constraint → Call
  call_unregister : ℕ → Call
  call_get : ℕ → Call
  call_reload : Call

module _ (loader : Option (List Constraint)) where
  -- The registry after a call, whether it returns or raises.
  unfoldable pub after_call : Call → ConstraintRegistry → ConstraintRegistry
  unfolding register unregister get reload
  after_call (call_register c) r = (register loader c r).0
  after_call (call_unregister id) r = (unregister loader id r).0
  after_call (call_get id) r = (get loader id r).0
  after_call call_reload r = (reload loader r).0

  unfoldable pub after_calls : List Call → ConstraintRegistry → ConstraintRegistry
  unfolding after_call
  after_calls [] r = r
  after_calls (call ∷ rest) r = after_calls rest (after_call call r)

  -- The call is none that takes the constraint of an id out.
  abbrev pub Spares : ℕ → Call → Type 0
  Spares id (call_register c) = Unit
  Spares id (call_unregister other) = id ≢ other
  Spares id (call_get other) = Unit
  Spares id call_reload = ⊥

  add_all-keeps :
      (id : ℕ) (c : Constraint) (cs : List Constraint) (d : Dict Constraint)
      → lookup id d ≡ some c
      → lookup id (add_all cs d).0 ≡ some c
  unfolding add_all
  add_all-keeps id c [] d h = h
  add_all-keeps id c (x ∷ rest) d h = elim (Bool-cases (is_some (lookup x.id d))) [
    | inl known ↦ rw (add_all, known) h
    | inr new ↦ elim (same_or_not id x.id) [
      | inl same ↦ absurd (let bad = rw (← same, h) at new in cc)
      | inr other ↦
          rw (add_all, new)
            (add_all-keeps id c rest (insert d x.id x) (lookup-insert_ne d x.id x id other ∙ h))
    ]
  ]

  finish_load-keeps :
      (id : ℕ) (c : Constraint) (r : ConstraintRegistry)
      (out : Dict Constraint × Option RegistryError)
      → lookup id out.0 ≡ some c
      → lookup id (finish_load loader r out).0.constraints ≡ some c
  unfolding finish_load
  finish_load-keeps id c r (d, none) h = h
  finish_load-keeps id c r (d, some error) h = h

  load-keeps :
      (id : ℕ) (c : Constraint) (from : Option (List Constraint)) (r : ConstraintRegistry)
      → lookup id r.constraints ≡ some c
      → lookup id (load loader from r).0.constraints ≡ some c
  unfolding load
  load-keeps id c none r h = h
  load-keeps id c (some cs) r h =
      finish_load-keeps id c r (add_all cs r.constraints) (add_all-keeps id c cs r.constraints h)

  ensure_loaded-keeps :
      (id : ℕ) (c : Constraint) (r : ConstraintRegistry)
      → lookup id r.constraints ≡ some c
      → lookup id (ensure_loaded loader r).0.constraints ≡ some c
  unfolding ensure_loaded
  ensure_loaded-keeps id c r h =
      if_keeps
        (λ (out : ConstraintRegistry × Option RegistryError). lookup id out.0.constraints ≡ some c)
        r.loaded (r, none) (load loader loader r) h (load-keeps id c loader r h)

  query-registry {ℓ} :
      {A : Type ℓ} (f : ConstraintRegistry → A) (out : ConstraintRegistry × Option RegistryError)
      → (query loader f out).0 ≡ out.0
  unfolding query
  query-registry f (r, none) = refl
  query-registry f (r, some error) = refl

  unregister_loaded-keeps :
      (id other : ℕ) (c : Constraint) (out : ConstraintRegistry × Option RegistryError)
      → id ≢ other
      → lookup id out.0.constraints ≡ some c
      → lookup id (unregister_loaded loader other out).0.constraints ≡ some c
  unfolding unregister_loaded remove
  unregister_loaded-keeps id other c (r, some error) ne h = h
  unregister_loaded-keeps id other c (r, none) ne h = go (is_some (lookup other r.constraints))
    where
      go : (known : Bool) → lookup id (remove loader other r known).0.constraints ≡ some c
      go true = lookup-erase_ne r.constraints other id ne ∙ h
      go false = h

  register-keeps :
      (id : ℕ) (c x : Constraint) (r : ConstraintRegistry)
      → lookup id r.constraints ≡ some c
      → lookup id (register loader x r).0.constraints ≡ some c
  unfolding register add
  register-keeps id c x r h = elim (Bool-cases (is_some (lookup x.id r.constraints))) [
    | inl known ↦ rw (register, known) h
    | inr new ↦ elim (same_or_not id x.id) [
      | inl same ↦ absurd (let bad = rw (← same, h) at new in cc)
      | inr other ↦ rw (register, new) (lookup-insert_ne r.constraints x.id x id other ∙ h)
    ]
  ]

  register-duplicate :
      (id : ℕ) (c x : Constraint) (r : ConstraintRegistry)
      → lookup id r.constraints ≡ some c
      → x.id ≡ id
      → (register loader x r).1 ≡ some (duplicate_constraint id)
  unfolding register add
  register-duplicate id c x r h same = rw (same, h) refl

  after_call-keeps :
      (id : ℕ) (c : Constraint) (call : Call) (r : ConstraintRegistry)
      → Spares id call
      → lookup id r.constraints ≡ some c
      → lookup id (after_call call r).constraints ≡ some c
  unfolding after_call unregister get
  after_call-keeps id c (call_register x) r spares h = register-keeps id c x r h
  after_call-keeps id c (call_unregister other) r spares h =
      unregister_loaded-keeps id other c (ensure_loaded loader r) spares
        (ensure_loaded-keeps id c r h)
  after_call-keeps id c (call_get other) r spares h =
      subst (λ (r : ConstraintRegistry). lookup id r.constraints ≡ some c)
        (sym (query-registry (λ r. lookup other r.constraints) (ensure_loaded loader r)))
        (ensure_loaded-keeps id c r h)
  after_call-keeps id c call_reload r spares h = absurd spares

  -- The first constraint that is registered under an id stays: after any calls of register (of any constraints, under
  -- that id too) and get, which may load from the files, and of unregister for other ids, whether they return or
  -- raise, the registry has that constraint under the id, and a further call of register with the id raises the error
  -- of a duplicate.
  pub registered_stays :
      (calls : List Call) (id : ℕ) (c : Constraint) (r : ConstraintRegistry)
      → lookup id r.constraints ≡ some c
      → All (Spares id) calls
      → let r' = after_calls calls r in
        (lookup id r'.constraints ≡ some c)
        × ((x : Constraint) → x.id ≡ id → (register loader x r').1 ≡ some (duplicate_constraint id))
  unfolding after_calls
  registered_stays [] id c r h spared = (h, λ x same. register-duplicate id c x r h same)
  registered_stays (call ∷ rest) id c r h (here, spared) =
      registered_stays rest id c (after_call call r) (after_call-keeps id c call r here h) spared
