-- ===== src/Agent/Tail.antt =====
-- `tail_file_once` and `tail_file_once_async` of src/agent_support.cc: the whole lines that a file has
-- got since the last time, and how far they reach. The size, the inode and the bytes of the file are
-- arguments.
pub mod Lines
pub mod Buffers
pub mod Multiline
use seastar_log_engine.Prelude.{
  ℕ, zero, suc, ◌+◌, ◌-◌, Bool, true, false, not, ◌&&◌, ◌||◌, Option, none, some, List, [], ◌∷◌,
  ◌++◌, Bytes, bytes_eq, starts_with, drop, is_empty, length, ltb, leb, ◌==◌, if◌then◌else◌,
}
use seastar_log_engine.Agent.{SourceOffset}

pub record TailBatch : Type 0 where
  pub next_offset : SourceOffset
  pub lines : List Bytes
  pub file_rotated_or_truncated : Bool

-- The previous offset is one in this file.
unfoldable pub same_file : Bytes → ℕ → ℕ → SourceOffset → Bool
same_file path inode file_size previous =
    bytes_eq previous.path path && (previous.inode == inode && leb previous.offset file_size)

unfoldable pub start_offset : Bytes → ℕ → ℕ → Option SourceOffset → ℕ
start_offset path inode file_size none = 0
start_offset path inode file_size (some previous) =
    if same_file path inode file_size previous then previous.offset else 0

pub rotated : Bytes → ℕ → ℕ → Option SourceOffset → Bool
rotated path inode file_size none = false
rotated path inode file_size (some previous) = not (same_file path inode file_size previous)

pub push_line : Bytes → List Bytes × ℕ → List Bytes × ℕ
push_line line (lines, offset) = (line ∷ lines, offset)

-- The loop over `std::getline`, with room for so many lines; `line` holds the bytes of the line begun,
-- and `committed` is `committed_offset`. A line without its end is not taken.
pub tail_lines : ℕ → Bytes → ℕ → Bytes → List Bytes × ℕ
tail_lines zero line committed bytes = ([], committed)
tail_lines (suc room) line committed [] = ([], committed)
tail_lines (suc room) line committed (c ∷ bytes) = elim (c == b'\n') [
  | true ↦ push_line line (tail_lines room [] (committed + length line + 1) bytes)
  | false ↦ tail_lines (suc room) (line ++ c ∷ []) committed bytes
]

pub tail_batch : Bytes → ℕ → Bool → List Bytes × ℕ → TailBatch
tail_batch path inode changed (lines, offset) = record {
  next_offset = record { path = path; inode = inode; offset = offset };
  lines = lines;
  file_rotated_or_truncated = changed;
}

-- `none` for the content is a file that cannot be opened, which throws. The read is not begun when
-- nothing can come of it.
pub tail_file_once : Bytes → ℕ → ℕ → Option SourceOffset → ℕ → Option Bytes → Option TailBatch
tail_file_once path inode file_size previous max_lines content =
    let start = start_offset path inode file_size previous in
    let changed = rotated path inode file_size previous in
    if max_lines == 0 || leb file_size start
    then some (tail_batch path inode changed ([], start))
    else elim content [
      | none ↦ none
      | some bytes ↦
          some (tail_batch path inode changed (tail_lines max_lines [] start (drop start bytes)))
    ]

-- After a buffer: the lines taken, the room left, `pending` and `consumed_offset`.
pub record BufferLines : Type 0 where
  pub taken : List Bytes
  pub room : ℕ
  pub pending : Bytes
  pub consumed_offset : ℕ

pub take_line : Bytes → BufferLines → BufferLines
take_line line b = record b { taken = line ∷ b.taken }

-- The loop over a buffer; `run` holds the bytes from `begin` on.
pub tail_buffer : ℕ → Bytes → Bytes → ℕ → Bytes → BufferLines
tail_buffer zero pending run consumed buffer = record {
  taken = [];
  room = 0;
  pending = pending;
  consumed_offset = consumed;
}
tail_buffer (suc room) pending run consumed [] = record {
  taken = [];
  room = suc room;
  pending = pending ++ run;
  consumed_offset = consumed;
}
tail_buffer (suc room) pending run consumed (c ∷ buffer) = elim (c == b'\n') [
  | true ↦
      take_line (pending ++ run)
        (tail_buffer room [] [] (consumed + (length pending + length run) + 1) buffer)
  | false ↦ tail_buffer (suc room) pending (run ++ c ∷ []) consumed buffer
]

pub append_taken : List Bytes → List Bytes × ℕ → List Bytes × ℕ
append_taken taken (lines, offset) = (taken ++ lines, offset)

-- The loop over the reads, which an empty buffer ends.
pub tail_buffers : ℕ → Bytes → ℕ → List Bytes → List Bytes × ℕ
tail_buffers zero pending consumed buffers = ([], consumed)
tail_buffers (suc room) pending consumed [] = ([], consumed)
tail_buffers (suc room) pending consumed (buffer ∷ buffers) =
    let b = tail_buffer (suc room) pending [] consumed buffer in
    let rest = tail_buffers b.room b.pending b.consumed_offset buffers in
    if is_empty buffer then ([], consumed) else append_taken b.taken rest

-- The buffers are those of so many bytes from the start offset on; a failing read throws.
pub tail_file_once_async :
    Bytes → ℕ → ℕ → Option SourceOffset → ℕ → (ℕ → ℕ → Option (List Bytes)) → Option TailBatch
tail_file_once_async path inode file_size previous max_lines read =
    let start = start_offset path inode file_size previous in
    let changed = rotated path inode file_size previous in
    if max_lines == 0 || leb file_size start
    then some (tail_batch path inode changed ([], start))
    else elim (read start (file_size - start)) [
      | none ↦ none
      | some buffers ↦
          some (tail_batch path inode changed (tail_buffers max_lines [] start buffers))
    ]
