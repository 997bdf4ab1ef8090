-- ===== src/Codec/Scan.antt =====
-- `scan_log_content` of src/record_codec.cc: how much of a file's content is whole, tested records.
pub mod Cut
pub mod Lines
pub mod Resume
pub mod Written
use seastar_log_engine.Prelude.{
  ℕ, suc, ◌+◌, ◌%◌, Bool, true, false, ◌||◌, Option, none, some, [], ◌∷◌, ◌++◌, Bytes, length,
  is_empty, ◌==◌, if◌then◌else◌, u64_modulus,
}
use seastar_log_engine.Codec.Record.{verify_record_line, extract_sequence}

pub record VerifiedLogState : Type 0 where
  pub valid_size : ℕ
  pub next_sequence : ℕ
  pub valid_records : ℕ
  pub clean_end : Bool

-- The sequence number that follows a line.
unfoldable pub sequence_after : ℕ → Bytes → ℕ
sequence_after next line = elim (extract_sequence line) [
  | none ↦ (next + 1) % u64_modulus
  | some sequence ↦ (sequence + 1) % u64_modulus
]

-- A line behind the valid bytes, and its line end; `none` where the line is not accepted.
unfoldable pub accept_line : VerifiedLogState → Bytes → Option VerifiedLogState
accept_line state line =
    if is_empty line
    then some (record state { valid_size = state.valid_size + length line + 1 })
    else if verify_record_line line
    then some (record state {
      valid_size = state.valid_size + length line + 1;
      next_sequence = sequence_after state.next_sequence line;
      valid_records = state.valid_records + 1;
    })
    else none

-- The loop; `line` holds the bytes from the end of the last line on.
unfoldable pub scan_loop : VerifiedLogState → Bytes → Bytes → VerifiedLogState
scan_loop state line [] = if is_empty line then state else record state { clean_end = false }
scan_loop state line (c ∷ content) = elim (c == b'\n') [
  | true ↦ elim (accept_line state line) [
    | none ↦ record state { clean_end = false }
    | some next ↦ scan_loop next [] content
  ]
  | false ↦ scan_loop state (line ++ c ∷ []) content
]

abbrev pub scan_start : VerifiedLogState
scan_start = record { valid_size = 0; next_sequence = 0; valid_records = 0; clean_end = true }

unfoldable pub scan_log_content : Bytes → VerifiedLogState
scan_log_content content = scan_loop scan_start [] content
