-- ===== src/Degradation/Buffer/Durability.antt =====
-- What a crash leaves: the buffer that the log file gives back.
use aq_trading.Prelude.{
  ℕ, ◌≡◌, inl, inr, refl, sym, ap, ◌∙◌, true, false, Option, none, some, List, [], ◌∷◌, ◌++◌, arith,
  All, Option-cases, some_injective,
}
use aq_trading.Prelude.Dict.{contains}
use aq_trading.Degradation.Types.{DegradationConfig}
use aq_trading.Degradation.Buffer.{
  BufferEntry, WalLine, WalFile, DbBuffer, onto, read_wal, append_entry, restore_one, restore, new,
  write_wal, add, clear_wal, flush_to_db,
}
use aq_trading.Degradation.Buffer.Invariant.{add_cases, flush_cases}

module _ {Data : Type 0} (json_bytes : Data → ℕ) (reads_as : BufferEntry Data → WalLine Data)
    (joined : WalLine Data → BufferEntry Data → WalLine Data) where
  -- A log file whose last line is ended.
  abbrev pub ended : List (WalLine Data) → WalFile Data
  ended lines = record { lines = lines; unfinished = none }

  abbrev with_last :
      BufferEntry Data → Option (List (BufferEntry Data)) → Option (List (BufferEntry Data))
  with_last e none = none
  with_last e (some es) = some (es ++ e ∷ [])

  onto-with_last :
      (f e : BufferEntry Data) (o : Option (List (BufferEntry Data)))
      → onto json_bytes f (with_last e o) ≡ with_last e (onto json_bytes f o)
  onto-with_last f e none = refl
  onto-with_last f e (some es) = refl

  read_wal-snoc :
      (lines : List (WalLine Data)) (e : BufferEntry Data)
      → read_wal json_bytes (lines ++ WalLine.line e ∷ []) ≡ with_last e (read_wal json_bytes lines)
  unfolding read_wal
  read_wal-snoc [] e = refl
  read_wal-snoc (WalLine.raising ∷ lines) e = refl
  read_wal-snoc (WalLine.blank ∷ lines) e = read_wal-snoc lines e
  read_wal-snoc (WalLine.invalid ∷ lines) e = read_wal-snoc lines e
  read_wal-snoc (WalLine.line f ∷ lines) e =
      ap (onto json_bytes f) (read_wal-snoc lines e)
      ∙ onto-with_last f e (read_wal json_bytes lines)

  abbrev with_wal : WalFile Data → DbBuffer Data → DbBuffer Data
  with_wal file b = record b { wal = some file }

  restore_one-wal :
      (e : BufferEntry Data) (file : WalFile Data) (b : DbBuffer Data)
      → restore_one json_bytes e (with_wal file b) ≡ with_wal file (restore_one json_bytes e b)
  unfolding restore_one
  restore_one-wal e file b = ground arith

  -- The loop leaves the file alone.
  restore-wal :
      (es : List (BufferEntry Data)) (file : WalFile Data) (b : DbBuffer Data)
      → restore json_bytes es (with_wal file b) ≡ with_wal file (restore json_bytes es b)
  restore-wal [] file b = unfold restore in refl
  restore-wal (e ∷ es) file b =
      restore-cons e es (with_wal file b)
      ∙ ap (restore json_bytes es) (restore_one-wal e file b)
      ∙ restore-wal es file (restore_one json_bytes e b)
      ∙ ap (with_wal file) (sym (restore-cons e es b))
    where
      restore-cons :
          (e : BufferEntry Data) (es : List (BufferEntry Data)) (b : DbBuffer Data)
          → restore json_bytes (e ∷ es) b ≡ restore json_bytes es (restore_one json_bytes e b)
      restore-cons e es b = unfold restore in refl

  restore-snoc :
      (es : List (BufferEntry Data)) (e : BufferEntry Data) (b : DbBuffer Data)
      → restore json_bytes (es ++ e ∷ []) b ≡ restore_one json_bytes e (restore json_bytes es b)
  unfolding restore
  restore-snoc [] e b = refl
  restore-snoc (f ∷ es) e b = restore-snoc es e (restore_one json_bytes f b)

  abbrev empty : DegradationConfig → List (WalLine Data) → DbBuffer Data
  empty c lines = record {
    config = c;
    wal = some (ended lines);
    entries = [];
    idempotent_keys = [];
    byte_count = 0;
  }

  -- The log file can be read, and the entries in it restore the buffer at hand.
  abbrev IsRecoverable : List (WalLine Data) → List (BufferEntry Data) → DbBuffer Data → Type 0
  IsRecoverable lines es b =
      (b.wal ≡ some (ended lines))
      × (read_wal json_bytes lines ≡ some es)
      × (restore json_bytes es (empty b.config lines) ≡ b)

  abbrev SomeRecoverable : DbBuffer Data → Type 0
  SomeRecoverable b =
      (lines : List (WalLine Data)) × (es : List (BufferEntry Data)) × IsRecoverable lines es b

  restore_one-fresh :
      (e : BufferEntry Data) (b : DbBuffer Data)
      → contains e.idempotent_key b.idempotent_keys ≡ false
      → restore_one json_bytes e b ≡ append_entry json_bytes e b
  unfolding restore_one
  restore_one-fresh e b fresh = rw fresh

  write_wal_lem :
      (e : BufferEntry Data) (lines : List (WalLine Data)) (b : DbBuffer Data)
      → b.wal ≡ some (ended lines)
      → reads_as e ≡ WalLine.line e
      → write_wal json_bytes reads_as joined true e b
        ≡ with_wal (ended (lines ++ WalLine.line e ∷ [])) b
  unfolding write_wal
  write_wal_lem e lines b h back = rw (h, back) refl

  restored-snoc :
      (e : BufferEntry Data) (lines lines' : List (WalLine Data)) (es : List (BufferEntry Data))
      (b : DbBuffer Data)
      → restore json_bytes es (empty b.config lines) ≡ b
      → contains e.idempotent_key b.idempotent_keys ≡ false
      → restore json_bytes (es ++ e ∷ []) (empty b.config lines')
        ≡ with_wal (ended lines') (append_entry json_bytes e b)
  restored-snoc e lines lines' es b h fresh =
      restore-snoc es e (empty b.config lines')
      ∙ ap (restore_one json_bytes e) (restore-wal es (ended lines') (empty b.config lines))
      ∙ ap (λ c. restore_one json_bytes e (with_wal (ended lines') c)) h
      ∙ restore_one-wal e (ended lines') b
      ∙ ap (with_wal (ended lines')) (restore_one-fresh e b fresh)

  append-IsRecoverable :
      (e : BufferEntry Data) (lines : List (WalLine Data)) (es : List (BufferEntry Data))
      (b : DbBuffer Data)
      → IsRecoverable lines es b
      → reads_as e ≡ WalLine.line e
      → contains e.idempotent_key b.idempotent_keys ≡ false
      → IsRecoverable
          (lines ++ WalLine.line e ∷ [])
          (es ++ e ∷ [])
          (write_wal json_bytes reads_as joined true e (append_entry json_bytes e b))
  append-IsRecoverable e lines es b (file, has, restored) back fresh =
      rw (write_wal_lem e lines (append_entry json_bytes e b) file back) (
        refl,
        read_wal-snoc lines e ∙ ap (with_last e) has,
        restored-snoc e lines (lines ++ WalLine.line e ∷ []) es b restored fresh,
      )

  add-SomeRecoverable :
      (e : BufferEntry Data) (b : DbBuffer Data)
      → SomeRecoverable b
      → reads_as e ≡ WalLine.line e
      → SomeRecoverable (add json_bytes reads_as joined true e b).0
  add-SomeRecoverable e b (lines, es, h) back =
      elim (add_cases json_bytes reads_as joined true e b) [
        | inl same ↦ rw same (lines, es, h)
        | inr added ↦ rw added.1 (
          lines ++ WalLine.line e ∷ [],
          es ++ e ∷ [],
          append-IsRecoverable e lines es b h back added.0,
        )
      ]

  flush-SomeRecoverable :
      (b : DbBuffer Data) → SomeRecoverable b → SomeRecoverable (flush_to_db json_bytes true b).0
  unfolding clear_wal
  flush-SomeRecoverable b (lines, es, h) =
      elim (flush_cases json_bytes reads_as joined true b.entries b refl) [
        | inl same ↦ rw same (lines, es, h)
        | inr flushed ↦
            rw (flushed, h.0, clear_wal)
              ([], [], (refl, unfold read_wal in refl, unfold restore in refl))
      ]

  restore_one_frame :
      (e : BufferEntry Data) (b : DbBuffer Data)
      → let c = restore_one json_bytes e b in (c.wal ≡ b.wal) × (c.config ≡ b.config)
  unfolding restore_one
  restore_one_frame e b = ground arith

  restore_frame :
      (es : List (BufferEntry Data)) (b : DbBuffer Data)
      → let c = restore json_bytes es b in (c.wal ≡ b.wal) × (c.config ≡ b.config)
  unfolding restore
  restore_frame [] b = (refl, refl)
  restore_frame (e ∷ es) b =
      let first = restore_one_frame e b in
      let rest = restore_frame es (restore_one json_bytes e b) in
      (rest.0 ∙ first.0, rest.1 ∙ first.1)

  new_lem :
      (c : DegradationConfig) (lines : List (WalLine Data)) (es : List (BufferEntry Data))
      → read_wal json_bytes lines ≡ some es
      → new json_bytes c (some (ended lines)) ≡ some (restore json_bytes es (empty c lines))
  unfolding new
  new_lem c lines es has = rw has refl

  new_raises :
      (c : DegradationConfig) (lines : List (WalLine Data))
      → read_wal json_bytes lines ≡ none
      → new json_bytes c (some (ended lines)) ≡ none
  unfolding new
  new_raises c lines has = rw has refl

  new-SomeRecoverable :
      (c : DegradationConfig) (lines : List (WalLine Data)) (b : DbBuffer Data)
      → new json_bytes c (some (ended lines)) ≡ some b
      → SomeRecoverable b
  new-SomeRecoverable c lines b made = elim (Option-cases (read_wal json_bytes lines)) [
    | inl raises ↦ absurd (let bad = new_raises c lines raises in cc)
    | inr (es, has) ↦
        let is_b = some_injective (sym (new_lem c lines es has) ∙ made) in
        let frame = restore_frame es (empty c lines) in
        (
          lines,
          es,
          (
            ap (λ d. d.wal) (sym is_b) ∙ frame.0,
            has,
            ap (λ d. restore json_bytes es (empty d lines))
                  (ap (λ d. d.config) (sym is_b) ∙ frame.1)
                ∙ is_b,
          ),
        )
  ]

  -- The calls of a buffer with a log file that takes every write: an entry to add, or a flush (`none`).
  pub run : List (Option (BufferEntry Data)) → DbBuffer Data → DbBuffer Data
  run [] b = b
  run (none ∷ ops) b = run ops (flush_to_db json_bytes true b).0
  run (some e ∷ ops) b = run ops (add json_bytes reads_as joined true e b).0

  -- The line of an entry to add is read as the entry.
  abbrev pub ReadsBack : Option (BufferEntry Data) → Type 0
  ReadsBack none = Unit
  ReadsBack (some e) = reads_as e ≡ WalLine.line e

  run-SomeRecoverable :
      (ops : List (Option (BufferEntry Data))) (b : DbBuffer Data)
      → SomeRecoverable b
      → All ReadsBack ops
      → SomeRecoverable (run ops b)
  unfolding run
  run-SomeRecoverable [] b h back = h
  run-SomeRecoverable (none ∷ ops) b h back =
      run-SomeRecoverable ops (flush_to_db json_bytes true b).0 (flush-SomeRecoverable b h) back.1
  run-SomeRecoverable (some e ∷ ops) b h back =
      run-SomeRecoverable ops (add json_bytes reads_as joined true e b).0
        (add-SomeRecoverable e b h back.0) back.1

  -- A buffer is built from a log file whose last line is ended, with blank, broken and repeated lines in it but none
  -- at which the reading raises; then any calls add entries and flush. As long as the file takes every write, and each
  -- entry that is added is read back from its line as it was, a crash loses nothing: a buffer that is built anew from
  -- the file is the one at hand, with its entries in their order, its keys and its byte count.
  pub crash_loses_nothing :
      (c : DegradationConfig) (lines : List (WalLine Data)) (first : DbBuffer Data)
      (ops : List (Option (BufferEntry Data)))
      → new json_bytes c (some (ended lines)) ≡ some first
      → All ReadsBack ops
      → let b = run ops first in
        (lines' : List (WalLine Data)) × (b.wal ≡ some (ended lines'))
        × (new json_bytes b.config (some (ended lines')) ≡ some b)
  crash_loses_nothing c lines first ops made back =
      let (lines', es, (file, has, restored)) =
        run-SomeRecoverable ops first (new-SomeRecoverable c lines first made) back in
      (lines', file, new_lem (run ops first).config lines' es has ∙ ap some restored)
