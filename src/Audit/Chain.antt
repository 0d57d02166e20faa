-- ===== src/Audit/Chain.antt =====
-- The chain of checksums: backend/src/audit/integrity.py, and the writing and verifying of
-- backend/src/audit/repository.py. The texts of a date and of a dict, and the digest of the JSON text, are
-- arguments; a text is a number.
pub mod Persisted
pub mod Verified
use aq_trading.Prelude.{
  ℕ, zero, suc, ◌+◌, Bool, true, false, not, Option, none, some, List, [], ◌∷◌, ◌++◌, map, keep,
  ◌==◌, leb, if◌then◌else◌,
}
use aq_trading.Prelude.Dict.{Dict, lookup, insert}

-- `CHECKSUM_FIELDS`
pub data AuditField : Type 0 where
  event_id timestamp event_type actor_id resource_type resource_id old_value new_value : AuditField

abbrev pub checksum_fields : List AuditField
checksum_fields =
    event_id ∷ timestamp ∷ event_type ∷ actor_id ∷ resource_type ∷ resource_id ∷ old_value
    ∷ new_value ∷ []

-- A value of Python, and one that JSON has.
pub data Value : Type 0 where
  null : Value
  text : ℕ → Value
  uuid : ℕ → Value
  datetime : ℕ → Value
  dict : ℕ → Value

pub data Json : Type 0 where
  json_null : Json
  json_text : ℕ → Json

-- A row of the table: the values under the keys of the checksum fields (`dict.get`), and the chain's columns.
pub record AuditRow : Type 0 where
  pub get : AuditField → Value
  pub sequence_id : ℕ
  pub checksum : ℕ
  pub prev_checksum : Option ℕ

pub data ChainError : Type 0 where
  first_has_prev not_increasing chain_broken invalid_checksum : ChainError

-- A row of `audit_logs`; the event is what its columns hold.
pub record AuditLog : Type 0 where
  pub chain_key : ℕ
  pub event : AuditField → Value
  pub sequence_id : ℕ
  pub checksum : ℕ
  pub prev_checksum : Option ℕ

-- The tables: the heads of the chains, the sequence, and the rows in the order of their ids.
pub record AuditStore : Type 0 where
  pub chain_heads : Dict ℕ
  pub sequence : ℕ
  pub logs : List AuditLog

abbrev pub take {ℓ} : {A : Type ℓ} → ℕ → List A → List A
take zero rows = []
take (suc n) [] = []
take (suc n) (a ∷ rest) = a ∷ take n rest

module _ (str isoformat dumps : ℕ → ℕ) (sha : List Json → ℕ → Option ℕ → ℕ) where
  -- `_serialize_value`
  unfoldable pub serialize_value : Value → Json
  serialize_value null = json_null
  serialize_value (text t) = json_text t
  serialize_value (uuid u) = json_text (str u)
  serialize_value (datetime t) = json_text (isoformat t)
  serialize_value (dict d) = json_text (dumps d)

  unfoldable pub compute_checksum : (AuditField → Value) → ℕ → Option ℕ → ℕ
  unfolding serialize_value
  compute_checksum event sequence_id prev_checksum =
      sha (map (λ field. serialize_value (event field)) checksum_fields) sequence_id prev_checksum

  -- A value of a row in JSON; `json.dumps` raises on an id or a date.
  unfoldable pub row_value : Value → Option Json
  row_value null = some json_null
  row_value (text t) = some (json_text t)
  row_value (uuid u) = none
  row_value (datetime t) = none
  row_value (dict d) = some (json_text (dumps d))

  abbrev pub cons_value : Option Json → Option (List Json) → Option (List Json)
  cons_value none rest = none
  cons_value (some v) none = none
  cons_value (some v) (some vs) = some (v ∷ vs)

  unfoldable pub row_values : (AuditField → Value) → List AuditField → Option (List Json)
  unfolding row_value
  row_values get [] = some []
  row_values get (field ∷ rest) = cons_value (row_value (get field)) (row_values get rest)

  -- `_compute_checksum_from_row`; `none` is the exception.
  unfoldable pub compute_checksum_from_row : AuditRow → ℕ → Option ℕ → Option ℕ
  unfolding row_values
  compute_checksum_from_row row sequence_id prev_checksum =
      elim (row_values row.get checksum_fields) [
        | none ↦ none
        | some vs ↦ some (sha vs sequence_id prev_checksum)
      ]

  abbrev pub same_option : Option ℕ → Option ℕ → Bool
  same_option none none = true
  same_option (some a) (some b) = a == b
  same_option _ _ = false

  abbrev pub error_if : Bool → ChainError → List ChainError
  error_if true e = e ∷ []
  error_if false e = []

  -- The checks of a row against the one before it, which the first row does not have.
  unfoldable pub link_errors : Option AuditRow → AuditRow → List ChainError
  link_errors none row = error_if (not (same_option row.prev_checksum none)) first_has_prev
  link_errors (some before) row =
      error_if (leb row.sequence_id before.sequence_id) not_increasing
      ++ error_if (not (same_option row.prev_checksum (some before.checksum))) chain_broken

  unfoldable pub checksum_errors : AuditRow → Option ℕ → Option (List ChainError)
  checksum_errors row none = none
  checksum_errors row (some computed) =
      some (error_if (not (row.checksum == computed)) invalid_checksum)

  abbrev pub join_errors :
      List ChainError
      → Option (List ChainError)
      → Option (List ChainError)
      → Option (List ChainError)
  join_errors link none rest = none
  join_errors link (some own) none = none
  join_errors link (some own) (some rest) = some (link ++ (own ++ rest))

  -- The loop of `verify_chain`
  unfoldable pub verify_from : Option AuditRow → List AuditRow → Option (List ChainError)
  unfolding link_errors checksum_errors compute_checksum_from_row
  verify_from before [] = some []
  verify_from before (row ∷ rest) =
      join_errors (link_errors before row)
        (checksum_errors row (compute_checksum_from_row row row.sequence_id row.prev_checksum))
        (verify_from (some row) rest)

  -- `verify_chain`: the errors, of which a valid chain has none.
  unfoldable pub verify_chain : List AuditRow → Option (List ChainError)
  unfolding verify_from
  verify_chain rows = verify_from none rows

  -- `persist_audit_event`
  unfoldable pub persist_audit_event : (AuditField → Value) → ℕ → AuditStore → AuditStore
  unfolding compute_checksum
  persist_audit_event event chain_key s =
      let prev = lookup chain_key s.chain_heads in
      let id = s.sequence + 1 in
      let checksum = compute_checksum event id prev in
      record {
        chain_heads = insert s.chain_heads chain_key checksum;
        sequence = id;
        logs =
            s.logs
            ++ (record {
              chain_key = chain_key;
              event = event;
              sequence_id = id;
              checksum = checksum;
              prev_checksum = prev;
            }
                ∷ []);
      }

  -- What a row of the table gives for the keys of the checksum fields; its id stands under `id`, not `event_id`. How
  -- the driver gives the other columns is an argument.
  unfoldable pub dict_get : (Value → Value) → (AuditField → Value) → AuditField → Value
  dict_get column event event_id = null
  dict_get column event field = column (event field)

  unfoldable pub row_to_dict : (Value → Value) → AuditLog → AuditRow
  unfolding dict_get
  row_to_dict column log = record {
    get = dict_get column log.event;
    sequence_id = log.sequence_id;
    checksum = log.checksum;
    prev_checksum = log.prev_checksum;
  }

  -- `verify_chain_integrity`
  unfoldable pub verify_chain_integrity :
      (Value → Value) → ℕ → ℕ → AuditStore → Option (List ChainError)
  unfolding verify_chain row_to_dict
  verify_chain_integrity column chain_key limit s = verify_chain (
      map (row_to_dict column)
        (take limit (keep (λ (log : AuditLog). log.chain_key == chain_key) s.logs)))
