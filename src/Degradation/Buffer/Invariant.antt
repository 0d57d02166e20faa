-- ===== src/Degradation/Buffer/Invariant.antt =====
-- The limits of the buffer, its keys, and what a crash leaves.
use aq_trading.Prelude.{
  ℕ, ◌+◌, ◌≡◌, ◌↔◌, ◌⊎◌, inl, inr, refl, sym, ap, ◌∙◌, Bool, true, false, List, [], ◌∷◌, ◌++◌,
  length, arith,
}
use aq_trading.Prelude.Int.{pos, ◌<ℤ◌}
use aq_trading.Prelude.Dict.{contains}
use aq_trading.Degradation.Buffer.{
  BufferEntry, WalLine, DbBuffer, append_entry, write_wal, add, clear_wal, flush_to_db,
}

module _ {Data : Type 0} (json_bytes : Data → ℕ) (reads_as : BufferEntry Data → WalLine Data)
    (joined : WalLine Data → BufferEntry Data → WalLine Data) where
  -- The bytes of the entries together.
  abbrev pub total_bytes : List (BufferEntry Data) → ℕ
  total_bytes [] = 0
  total_bytes (e ∷ es) = json_bytes e.payload + total_bytes es

  -- The keys of the entries, the last entry's first.
  abbrev pub keys_onto : List ℕ → List (BufferEntry Data) → List ℕ
  keys_onto acc [] = acc
  keys_onto acc (e ∷ es) = keys_onto (e.idempotent_key ∷ acc) es

  -- No key stands twice, and none stands in the list of keys.
  abbrev pub AllNew : List ℕ → List (BufferEntry Data) → Type 0
  AllNew keys [] = Unit
  AllNew keys (e ∷ es) =
      (contains e.idempotent_key keys ≡ false) × AllNew (e.idempotent_key ∷ keys) es

  total_bytes-append :
      (es fs : List (BufferEntry Data)) → total_bytes (es ++ fs) ≡ total_bytes es + total_bytes fs
  total_bytes-append [] fs = omega arith
  total_bytes-append (e ∷ es) fs = omega (arith, total_bytes-append es fs)

  keys_onto-snoc :
      (acc : List ℕ) (es : List (BufferEntry Data)) (e : BufferEntry Data)
      → keys_onto acc (es ++ e ∷ []) ≡ e.idempotent_key ∷ keys_onto acc es
  keys_onto-snoc acc [] e = refl
  keys_onto-snoc acc (x ∷ es) e = keys_onto-snoc (x.idempotent_key ∷ acc) es e

  AllNew-snoc :
      (keys : List ℕ) (es : List (BufferEntry Data)) (e : BufferEntry Data)
      → AllNew keys es
      → contains e.idempotent_key (keys_onto keys es) ≡ false
      → AllNew keys (es ++ e ∷ [])
  AllNew-snoc keys [] e h new_key = (new_key, tt)
  AllNew-snoc keys (x ∷ es) e h new_key =
      (h.0, AllNew-snoc (x.idempotent_key ∷ keys) es e h.1 new_key)

  -- The set of keys and the byte count are those of the entries, and no two entries share a key.
  pub record IsIndexed (b : DbBuffer Data) : Type 0 where
    pub keys_match : b.idempotent_keys ≡ keys_onto [] b.entries
    pub bytes_match : b.byte_count ≡ total_bytes b.entries
    pub all_new : AllNew [] b.entries

  append_entry-IsIndexed :
      (e : BufferEntry Data) (b : DbBuffer Data)
      → IsIndexed b
      → contains e.idempotent_key b.idempotent_keys ≡ false
      → IsIndexed (append_entry json_bytes e b)
  append_entry-IsIndexed e b h new_key = record {
    keys_match = ap (λ k. e.idempotent_key ∷ k) h.keys_match ∙ sym (keys_onto-snoc [] b.entries e);
    bytes_match = omega (arith, h.bytes_match, total_bytes-append b.entries (e ∷ []));
    all_new = AllNew-snoc [] b.entries e h.all_new (rw h.keys_match at new_key);
  }

  -- One more entry fits, and its bytes stay below the limit.
  abbrev pub HasRoom : BufferEntry Data → DbBuffer Data → Type 0
  HasRoom e b =
      (pos (length b.entries) <ℤ b.config.db_buffer_max_entries)
      × (pos (b.byte_count + json_bytes e.payload) <ℤ b.config.db_buffer_max_bytes)

  write_wal-IsIndexed :
      (written : Bool) (e : BufferEntry Data) (b : DbBuffer Data)
      → IsIndexed b
      → IsIndexed (write_wal json_bytes reads_as joined written e b)
  unfolding write_wal
  write_wal-IsIndexed written e b h = record {
    keys_match = ground arith;
    bytes_match = ground arith;
    all_new = same-AllNew;
  }
    where
      same : (write_wal json_bytes reads_as joined written e b).entries ≡ b.entries
      same = ground arith

      same-AllNew : AllNew [] (write_wal json_bytes reads_as joined written e b).entries
      same-AllNew = rw same h.all_new

  pub add_cases :
      (written : Bool) (e : BufferEntry Data) (b : DbBuffer Data)
      → let b' = (add json_bytes reads_as joined written e b).0 in
        (b' ≡ b)
        ⊎ ((contains e.idempotent_key b.idempotent_keys ≡ false)
            × (b' ≡ write_wal json_bytes reads_as joined written e (append_entry json_bytes e b)))
  unfolding add
  add_cases written e b = ground arith

  pub flush_cases :
      (truncated : Bool) (es : List (BufferEntry Data)) (b : DbBuffer Data)
      → b.entries ≡ es
      → let b' = (flush_to_db json_bytes truncated b).0 in
        (b' ≡ b)
        ⊎ (b'
            ≡ clear_wal json_bytes truncated
                (record b { entries = []; idempotent_keys = []; byte_count = 0 }))
  unfolding flush_to_db
  flush_cases truncated [] b eq = inl (ground arith)
  flush_cases truncated (e ∷ es) b eq = inr (ground arith)

  clear_wal-IsIndexed :
      (truncated : Bool) (b : DbBuffer Data)
      → IsIndexed (
          clear_wal json_bytes truncated
            (record b { entries = []; idempotent_keys = []; byte_count = 0 }))
  unfolding clear_wal
  clear_wal-IsIndexed truncated b = record {
    keys_match = ground arith;
    bytes_match = ground arith;
    all_new = rw none_left tt;
  }
    where
      none_left :
          (clear_wal json_bytes truncated
            (record b { entries = []; idempotent_keys = []; byte_count = 0 })).entries
          ≡ []
      none_left = ground arith

  -- Adding an entry and flushing keep the set of keys and the byte count those of the entries, no two of
  -- which share a key, whether or not the log takes the write.
  pub add-IsIndexed :
      (written : Bool) (e : BufferEntry Data) (b : DbBuffer Data)
      → IsIndexed b
      → IsIndexed (add json_bytes reads_as joined written e b).0
        × IsIndexed (flush_to_db json_bytes written b).0
  add-IsIndexed written e b h = (after_add, after_flush)
    where
      after_add : IsIndexed (add json_bytes reads_as joined written e b).0
      after_add = elim (add_cases written e b) [
        | inl same ↦ rw same h
        | inr added ↦ rw added.1 (
            write_wal-IsIndexed written e (append_entry json_bytes e b)
              (append_entry-IsIndexed e b h added.0))
      ]

      after_flush : IsIndexed (flush_to_db json_bytes written b).0
      after_flush = elim (flush_cases written b.entries b refl) [
        | inl same ↦ rw same h
        | inr flushed ↦ rw flushed (clear_wal-IsIndexed written b)
      ]

  -- An entry whose key is known is accepted and changes nothing. Any other is accepted exactly when there
  -- is room for it, and then it stands last among the entries; refused, it changes nothing.
  pub add-outcome :
      (written : Bool) (e : BufferEntry Data) (b : DbBuffer Data)
      → let (b', accepted) = add json_bytes reads_as joined written e b in
        (contains e.idempotent_key b.idempotent_keys ≡ true → (accepted ≡ true) × (b' ≡ b))
        × (contains e.idempotent_key b.idempotent_keys ≡ false
            → ((accepted ≡ true) ↔ HasRoom e b)
              × (accepted ≡ true → b'.entries ≡ b.entries ++ e ∷ []))
        × (accepted ≡ false → b' ≡ b)
  unfolding add
  add-outcome written e b = ground arith
