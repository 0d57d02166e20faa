-- ===== src/Degradation/Buffer.antt =====
-- The write buffer behind a failing database: `DBBuffer` of backend/src/degradation/db_buffer.py.
-- `json.dumps` of an entry's data is an argument, the number of bytes that it gives for the data. The
-- write-ahead log is the list of its lines, each as the reader finds it, and what follows the last newline. How
-- the line that is written for an entry is read back is an argument, and so is how it is read where it is written
-- behind an unfinished line.
pub mod Invariant
pub mod Durability
use aq_trading.Prelude.{
  ℕ, ◌+◌, Bool, true, false, Option, none, some, List, [], ◌∷◌, ◌++◌, length, if◌then◌else◌,
}
use aq_trading.Prelude.Int.{ℤ, pos, leb_ℤ}
use aq_trading.Prelude.Dict.{contains}
use aq_trading.Degradation.Types.{DegradationConfig}

-- The idempotent key is a text that is only compared; `payload` is the field `data`.
pub record BufferEntry (Data : Type 0) : Type 0 where
  pub resource_type : ℕ
  pub resource_id : ℕ
  pub payload : Data
  pub timestamp : ℕ
  pub idempotent_key : ℕ

-- A line of the log: blank, one that is skipped (no JSON, or a key is missing), one that raises what the reader does
-- not catch (such as the `ValueError` of a bad timestamp or the `TypeError` of no object), or an entry.
pub data WalLine (Data : Type 0) : Type 0 where
  blank invalid raising : WalLine Data
  line : BufferEntry Data → WalLine Data

pub record WalFile (Data : Type 0) : Type 0 where
  -- the lines that are ended by a newline
  pub lines : List (WalLine Data)
  -- what follows them, if anything
  pub unfinished : Option (WalLine Data)

pub record DbBuffer (Data : Type 0) : Type 0 where
  pub config : DegradationConfig
  -- the log file, `none` without a path
  pub wal : Option (WalFile Data)
  pub entries : List (BufferEntry Data)
  pub idempotent_keys : List ℕ
  pub byte_count : ℕ

module _ {Data : Type 0} (json_bytes : Data → ℕ) where
  abbrev pub onto :
      BufferEntry Data → Option (List (BufferEntry Data)) → Option (List (BufferEntry Data))
  onto e none = none
  onto e (some es) = some (e ∷ es)

  -- `_read_wal`; `none` is an exception that it does not catch.
  unfoldable pub read_wal : List (WalLine Data) → Option (List (BufferEntry Data))
  read_wal [] = some []
  read_wal (WalLine.raising ∷ rest) = none
  read_wal (WalLine.blank ∷ rest) = read_wal rest
  read_wal (WalLine.invalid ∷ rest) = read_wal rest
  read_wal (WalLine.line e ∷ rest) = onto e (read_wal rest)

  abbrev pub append_entry : BufferEntry Data → DbBuffer Data → DbBuffer Data
  append_entry e b = record b {
    entries = b.entries ++ e ∷ [];
    idempotent_keys = e.idempotent_key ∷ b.idempotent_keys;
    byte_count = b.byte_count + json_bytes e.payload;
  }

  -- The body of the loop of `_restore_from_wal`, which checks no limits.
  unfoldable pub restore_one : BufferEntry Data → DbBuffer Data → DbBuffer Data
  restore_one e b = if contains e.idempotent_key b.idempotent_keys then b else append_entry e b

  unfoldable pub restore : List (BufferEntry Data) → DbBuffer Data → DbBuffer Data
  unfolding restore_one
  restore [] b = b
  restore (e ∷ es) b = restore es (restore_one e b)

  -- The lines of `for line in f`, an unfinished one included.
  abbrev pub all_lines : List (WalLine Data) → Option (WalLine Data) → List (WalLine Data)
  all_lines lines none = lines
  all_lines lines (some l) = lines ++ l ∷ []

  -- `__init__`, on the log file that it finds; `none` is an exception.
  unfoldable pub new : DegradationConfig → Option (WalFile Data) → Option (DbBuffer Data)
  unfolding restore read_wal
  new config wal =
      let empty : DbBuffer Data = record {
        config = config;
        wal = wal;
        entries = [];
        idempotent_keys = [];
        byte_count = 0;
      } in
      elim wal [
        | none ↦ some empty
        | some file ↦ elim (read_wal (all_lines file.lines file.unfinished)) [
          | none ↦ none
          | some es ↦ some (restore es empty)
        ]
      ]

  unfoldable pub is_full : DbBuffer Data → Bool
  is_full b = leb_ℤ b.config.db_buffer_max_entries (pos (length b.entries))

  -- `_clear_wal`; the flag says whether the file was truncated.
  unfoldable pub clear_wal : Bool → DbBuffer Data → DbBuffer Data
  clear_wal truncated b = elim b.wal [
    | none ↦ b
    | some file ↦
        if truncated then record b { wal = some (record { lines = []; unfinished = none }) } else b
  ]

  -- `flush_to_db`, which clears the buffer without a write to the database
  unfoldable pub flush_to_db : Bool → DbBuffer Data → DbBuffer Data × ℕ
  unfolding clear_wal
  flush_to_db truncated b =
      let cleared = record b { entries = []; idempotent_keys = []; byte_count = 0 } in
      elim b.entries [ [] ↦ (b, 0) | _ ∷ _ ↦ (clear_wal truncated cleared, length b.entries) ]

  module _ (reads_as : BufferEntry Data → WalLine Data)
      (joined : WalLine Data → BufferEntry Data → WalLine Data) where
    -- The line of an entry, written at the end of the file.
    abbrev pub written_line : Option (WalLine Data) → BufferEntry Data → WalLine Data
    written_line none e = reads_as e
    written_line (some l) e = joined l e

    -- `_write_wal`; the flag says whether the file takes the line, or an `OSError` is logged and the file is as before.
    unfoldable pub write_wal : Bool → BufferEntry Data → DbBuffer Data → DbBuffer Data
    write_wal written e b = elim b.wal [
      | none ↦ b
      | some file ↦
          let file' : WalFile Data = record {
            lines = file.lines ++ written_line file.unfinished e ∷ [];
            unfinished = none;
          } in
          if written then record b { wal = some file' } else b
    ]

    unfoldable pub add : Bool → BufferEntry Data → DbBuffer Data → DbBuffer Data × Bool
    unfolding is_full write_wal
    add written e b =
        if contains e.idempotent_key b.idempotent_keys
        then (b, true)
        else if is_full b
        then (b, false)
        else if leb_ℤ b.config.db_buffer_max_bytes (pos (b.byte_count + json_bytes e.payload))
        then (b, false)
        else (write_wal written e (append_entry e b), true)
