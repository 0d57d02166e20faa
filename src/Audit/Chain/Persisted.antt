-- ===== src/Audit/Chain/Persisted.antt =====
-- The verification of what has been written through the repository.
use aq_trading.Prelude.{
  ℕ, suc, ◌≡◌, ◌≢◌, refl, sym, ◌∙◌, Option, none, some, List, [], ◌∷◌, ◌++◌, map, keep, All, ◌==◌,
  some_injective,
}
use aq_trading.Prelude.Dict.Keyed.{All-keep}
use aq_trading.Audit.Chain.{
  AuditField, event_id, Value, uuid, Json, json_null, AuditLog, AuditStore, take, serialize_value,
  compute_checksum, row_value, cons_value, row_values, verify_chain, persist_audit_event, dict_get,
  row_to_dict, verify_chain_integrity,
}
use aq_trading.Audit.Chain.Verified.{IsInjective, verify_from-cons}

All-append {ℓ κ} :
    {A : Type ℓ} (P : A → Type κ) (xs ys : List A) → All P xs → All P ys → All P (xs ++ ys)
All-append P [] ys h k = k
All-append P (x ∷ xs) ys h k = (h.0, All-append P xs ys h.1 k)

-- An event to be written, with its id and its chain.
pub record Entry : Type 0 where
  pub id : ℕ
  pub rest : AuditField → Value
  pub chain_key : ℕ

abbrev pub no_rows : AuditStore
no_rows = record { chain_heads = []; sequence = 0; logs = [] }

-- The fields of an `AuditEvent`, whose id is a UUID.
unfoldable pub event_of : Entry → AuditField → Value
event_of entry event_id = uuid entry.id
event_of entry field = entry.rest field

module _ (str isoformat dumps : ℕ → ℕ) (sha : List Json → ℕ → Option ℕ → ℕ) where
  -- A row that has an id and the checksum of its event.
  abbrev IsSealed : AuditLog → Type 0
  IsSealed log =
      ((u : ℕ) × (log.event event_id ≡ uuid u))
      × (log.checksum
          ≡ compute_checksum str isoformat dumps sha log.event log.sequence_id log.prev_checksum)

  unfoldable pub persist_all : List Entry → AuditStore → AuditStore
  unfolding event_of
  persist_all [] s = s
  persist_all (entry ∷ rest) s =
      persist_all rest
        (persist_audit_event str isoformat dumps sha (event_of entry) entry.chain_key s)

  persist_all-IsSealed :
      (entries : List Entry) (s : AuditStore)
      → All IsSealed s.logs
      → All IsSealed (persist_all entries s).logs
  unfolding persist_all persist_audit_event
  persist_all-IsSealed [] s h = h
  persist_all-IsSealed (entry ∷ rest) s h =
      persist_all-IsSealed rest
        (persist_audit_event str isoformat dumps sha (event_of entry) entry.chain_key s)
        (All-append IsSealed s.logs _ h (((entry.id, refl), refl), tt))

  id_not_null :
      (v : Value) (u : ℕ)
      → v ≡ uuid u
      → (ws zs : List Json) → json_null ∷ ws ≢ serialize_value str isoformat dumps sha v ∷ zs
  unfolding serialize_value
  id_not_null v u is_id ws zs e = let bad = rw is_id at e in absurd cc

  nulls_first :
      (rest : Option (List Json)) (vs : List Json)
      → cons_value str isoformat dumps sha (some json_null) rest ≡ some vs
      → (ws : List Json) × (vs ≡ json_null ∷ ws)
  nulls_first none vs e = absurd cc
  nulls_first (some ws) vs e = (ws, sym (some_injective e))

  module _ (column : Value → Value) where
    IsSealed-rejected :
        IsInjective str isoformat dumps sha
        → (log : AuditLog) (rest : List AuditLog) → IsSealed log
        → verify_chain str isoformat dumps sha
            (map (row_to_dict str isoformat dumps sha column) (log ∷ rest))
          ≢ some []
    unfolding verify_chain row_to_dict dict_get compute_checksum row_values row_value
        serialize_value
    IsSealed-rejected injective log rest ((u, is_id), sum) e =
        let row = row_to_dict str isoformat dumps sha column log in
        let ((vs, has, sum'), _) =
          verify_from-cons str isoformat dumps sha none row
            (map (row_to_dict str isoformat dumps sha column) rest) e in
        let (ws, is_null) = nulls_first _ vs has in
        let (same, _, _) =
          injective vs _ log.sequence_id log.sequence_id log.prev_checksum log.prev_checksum
            (sym sum' ∙ sum) in
        id_not_null (log.event event_id) u is_id ws _ (sym is_null ∙ same)

    take-IsSealed :
        IsInjective str isoformat dumps sha
        → (limit : ℕ) (logs : List AuditLog) → All IsSealed logs
        → logs ≢ []
        → verify_chain str isoformat dumps sha
            (map (row_to_dict str isoformat dumps sha column) (take (suc limit) logs))
          ≢ some []
    take-IsSealed injective limit [] sealed some_logs = absurd (some_logs refl)
    take-IsSealed injective limit (log ∷ rest) sealed some_logs =
        IsSealed-rejected injective log (take limit rest) sealed.0

    -- Where no two contents have one digest, the verification of a chain finds no chain valid that the repository has
    -- written: after any writes to empty tables, a chain that has a row and is verified with a limit of at least 1
    -- either raises or is reported with an error, however the driver gives the columns.
    pub persisted_never_verifies :
        IsInjective str isoformat dumps sha
        → (entries : List Entry) (chain_key limit : ℕ)
        → keep (λ (log : AuditLog). log.chain_key == chain_key) (persist_all entries no_rows).logs
          ≢ []
        → verify_chain_integrity str isoformat dumps sha column chain_key
            (suc limit)
            (persist_all entries no_rows)
          ≢ some []
    unfolding verify_chain_integrity
    persisted_never_verifies injective entries chain_key limit =
        let sealed = persist_all-IsSealed entries no_rows tt in
        take-IsSealed injective limit
          (keep (λ (log : AuditLog). log.chain_key == chain_key) (persist_all entries no_rows).logs)
          (All-keep IsSealed (λ (log : AuditLog). log.chain_key == chain_key)
            (persist_all entries no_rows).logs sealed)
