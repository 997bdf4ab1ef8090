-- ===== src/Recovery/Stream.antt =====
-- `scan_log_file_streaming` of src/log_manager.cc: the scan of a file read in pieces, which also keeps
-- the last bytes of the valid content.
pub mod Whole
pub mod LastBytes
pub mod Trailing
use seastar_log_engine.Prelude.{
  ℕ, suc, ◌+◌, ◌-◌, Bool, true, false, ◌||◌, Option, none, some, List, [], ◌∷◌, ◌++◌, Bytes, length,
  drop, is_empty, ltb, leb, ◌==◌, if◌then◌else◌,
}
use seastar_log_engine.Codec.Scan.{VerifiedLogState, accept_line}

pub record StreamedVerifiedLogState : Type 0 where
  pub verified : VerifiedLogState
  pub trailing_bytes : Bytes

-- The lambda `append_to_trailing`.
pub append_to_trailing : ℕ → Bytes → Bytes → Bytes
append_to_trailing capacity trailing bytes =
    let size = length trailing + length bytes in
    let overflow = (if ltb capacity size then size - capacity else 0) in
    if capacity == 0 || is_empty bytes
    then trailing
    else if leb capacity (length bytes)
    then drop (length bytes - capacity) bytes
    else drop overflow trailing ++ bytes

-- The bytes of a line that is accepted: in one piece, or as those kept from earlier reads, which now
-- hold the whole line, and the line end.
pub append_line : ℕ → Bytes → Bytes → Bytes → Bytes
append_line capacity trailing pending_line run =
    if is_empty pending_line
    then append_to_trailing capacity trailing (run ++ b'\n' ∷ [])
    else append_to_trailing capacity (append_to_trailing capacity trailing (pending_line ++ run))
        (b'\n' ∷ [])

-- After a piece: the function has returned, or it goes on with the bytes of a line begun.
pub data ChunkResult : Type 0 where
  returned : StreamedVerifiedLogState → ChunkResult
  going_on : StreamedVerifiedLogState → Bytes → ChunkResult

-- The loop over a piece; `run` holds the bytes from `offset` on.
pub scan_chunk : ℕ → StreamedVerifiedLogState → Bytes → Bytes → Bytes → ChunkResult
scan_chunk capacity state pending_line run [] = going_on state (pending_line ++ run)
scan_chunk capacity state pending_line run (c ∷ chunk) = elim (c == b'\n') [
  | false ↦ scan_chunk capacity state pending_line (run ++ c ∷ []) chunk
  | true ↦ elim (accept_line state.verified (pending_line ++ run)) [
    | none ↦ returned (record state { verified = record state.verified { clean_end = false } })
    | some next ↦
        scan_chunk capacity
          (record {
            verified = next;
            trailing_bytes = append_line capacity state.trailing_bytes pending_line run;
          })
          [] [] chunk
  ]
]

-- The loop over the pieces.
pub scan_chunks : ℕ → StreamedVerifiedLogState → Bytes → List Bytes → StreamedVerifiedLogState
scan_chunks capacity state pending_line [] =
    if is_empty pending_line
    then state
    else record state { verified = record state.verified { clean_end = false } }
scan_chunks capacity state pending_line (chunk ∷ chunks) =
    elim (scan_chunk capacity state pending_line [] chunk) [
      | returned state ↦ state
      | going_on state line ↦ scan_chunks capacity state line chunks
    ]

-- From `start_offset` on, the pieces being what the reads give.
pub scan_log_file_streaming : List Bytes → ℕ → ℕ → ℕ → StreamedVerifiedLogState
scan_log_file_streaming chunks start_offset next_sequence trailing_capacity =
    scan_chunks trailing_capacity
      (record {
        verified = record {
          valid_size = start_offset;
          next_sequence = next_sequence;
          valid_records = 0;
          clean_end = true;
        };
        trailing_bytes = [];
      })
      [] chunks
