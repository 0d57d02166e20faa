-- ===== src/Audit/Chain/Verified.antt =====
-- What a chain that verifies is.
use aq_trading.Prelude.{
  ℕ, ◌≡◌, refl, Option, none, some, List, [], ◌∷◌, ◌==◌, inl, inr, Bool-cases, some_injective,
  arith,
}
use aq_trading.Audit.Chain.{
  checksum_fields, Json, AuditRow, ChainError, row_values, compute_checksum_from_row, link_errors,
  checksum_errors, join_errors, verify_from,
}

module _ (str isoformat dumps : ℕ → ℕ) (sha : List Json → ℕ → Option ℕ → ℕ) where
  -- A row whose checksum is that of its content.
  abbrev pub IsIntact : AuditRow → Type 0
  IsIntact row =
      (vs : List Json) × (row_values str isoformat dumps sha row.get checksum_fields ≡ some vs)
      × (row.checksum ≡ sha vs row.sequence_id row.prev_checksum)

  join_errors-nil :
      (link : List ChainError) (own rest : Option (List ChainError))
      → join_errors str isoformat dumps sha link own rest ≡ some []
      → (link ≡ []) × (own ≡ some []) × (rest ≡ some [])
  join_errors-nil link none rest e = absurd cc
  join_errors-nil link (some own) none e = absurd cc
  join_errors-nil [] (some []) (some rest) e = (refl, refl, e)
  join_errors-nil [] (some (_ ∷ _)) (some rest) e = absurd cc
  join_errors-nil (_ ∷ _) (some own) (some rest) e = absurd cc

  checksum_errors-nil :
      (row : AuditRow) (computed : Option ℕ)
      → checksum_errors str isoformat dumps sha row computed ≡ some []
      → computed ≡ some row.checksum
  unfolding checksum_errors
  checksum_errors-nil row none e = absurd cc
  checksum_errors-nil row (some c) e = elim (Bool-cases (row.checksum == c)) [
    | inl same ↦ ground arith
    | inr other ↦ absurd (let bad = rw (checksum_errors, other) at e in cc)
  ]

  computed-IsIntact :
      (row : AuditRow)
      → compute_checksum_from_row str isoformat dumps sha row row.sequence_id row.prev_checksum
        ≡ some row.checksum
      → IsIntact row
  unfolding compute_checksum_from_row
  computed-IsIntact row e = go (row_values str isoformat dumps sha row.get checksum_fields) refl
    where
      go :
          (o : Option (List Json))
          → row_values str isoformat dumps sha row.get checksum_fields ≡ o
          → IsIntact row
      go none is_o = absurd cc
      go (some vs) is_o = (vs, is_o, some_injective cc)

  pub verify_from-cons :
      (before : Option AuditRow) (row : AuditRow) (rest : List AuditRow)
      → verify_from str isoformat dumps sha before (row ∷ rest) ≡ some []
      → IsIntact row × (verify_from str isoformat dumps sha (some row) rest ≡ some [])
  unfolding verify_from
  verify_from-cons before row rest e =
      let (_, own, below) =
        join_errors-nil (link_errors str isoformat dumps sha before row)
          (checksum_errors str isoformat dumps sha row (
            compute_checksum_from_row str isoformat dumps sha row row.sequence_id
              row.prev_checksum))
          (verify_from str isoformat dumps sha (some row) rest) e in
      (
        computed-IsIntact row (
            checksum_errors-nil row
              (compute_checksum_from_row str isoformat dumps sha row row.sequence_id
                row.prev_checksum)
              own),
        below,
      )

  -- No two contents have one digest.
  abbrev pub IsInjective : Type 0
  IsInjective =
      (vs vs' : List Json) (id id' : ℕ) (prev prev' : Option ℕ)
      → sha vs id prev ≡ sha vs' id' prev'
      → (vs ≡ vs') × (id ≡ id') × (prev ≡ prev')
