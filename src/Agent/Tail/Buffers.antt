-- ===== src/Agent/Tail/Buffers.antt =====
-- `tail_file_once_async` of src/agent_support.cc against `tail_file_once`.
use seastar_log_engine.Prelude.{
  ℕ, zero, suc, ◌+◌, ◌≡◌, refl, sym, ap, ◌∙◌, inl, inr, Bool-cases, Option, some, ◌||◌, List, [],
  ◌∷◌, ◌++◌, append-nil, append_assoc, arith, Bytes, length, length-append, drop, leb, ◌==◌,
}
use seastar_log_engine.Recovery.Stream.Whole.{join_chunks}
use seastar_log_engine.Reader.Lines.{NonEmpty}
use seastar_log_engine.Agent.{SourceOffset}
use seastar_log_engine.Agent.Tail.{
  start_offset, rotated, push_line, tail_lines, tail_batch, tail_file_once, BufferLines, take_line,
  tail_buffer, append_taken, tail_buffers, tail_file_once_async,
}

-- What the loop over the lines does behind a buffer.
resume : Bytes → BufferLines → List Bytes × ℕ
resume rest b = append_taken b.taken (tail_lines b.room b.pending b.consumed_offset rest)

append_taken-push_line :
    (line : Bytes) (taken : List Bytes) (r : List Bytes × ℕ)
    → push_line line (append_taken taken r) ≡ append_taken (line ∷ taken) r
unfolding push_line append_taken
append_taken-push_line line taken (lines, offset) = refl

append_taken-nil : (r : List Bytes × ℕ) → r ≡ append_taken [] r
unfolding append_taken
append_taken-nil (lines, offset) = refl

tail_lines-zero :
    (line bytes : Bytes) (committed : ℕ) → tail_lines 0 line committed bytes ≡ ([], committed)
unfolding tail_lines
tail_lines-zero line [] committed = refl
tail_lines-zero line (c ∷ bytes) committed = refl

tail_buffer-resume :
    (room : ℕ) (pending run : Bytes) (consumed : ℕ) (buffer rest : Bytes)
    → tail_lines room (pending ++ run) consumed (buffer ++ rest)
      ≡ resume rest (tail_buffer room pending run consumed buffer)
unfolding tail_lines tail_buffer resume take_line
tail_buffer-resume zero pending run consumed buffer rest =
    tail_lines-zero (pending ++ run) (buffer ++ rest) consumed
    ∙ sym (tail_lines-zero pending rest consumed)
    ∙ append_taken-nil (tail_lines 0 pending consumed rest)
tail_buffer-resume (suc room) pending run consumed [] rest =
    append_taken-nil (tail_lines (suc room) (pending ++ run) consumed rest)
tail_buffer-resume (suc room) pending run consumed (c ∷ buffer) rest =
    elim (Bool-cases (c == b'\n')) [
      | inr other ↦
          rw (tail_lines, tail_buffer, other, append_assoc pending run (c ∷ []))
            (tail_buffer-resume (suc room) pending (run ++ c ∷ []) consumed buffer rest)
      | inl end ↦
          let line = pending ++ run in
          let next = consumed + (length pending + length run) + 1 in
          let same : consumed + length line + 1 ≡ next = omega (arith, length-append pending run) in
          let b = tail_buffer room [] [] next buffer in
          rw (tail_lines, tail_buffer, end, same)
            (ap (push_line line) (tail_buffer-resume room [] [] next buffer rest)
              ∙ append_taken-push_line line b.taken
                  (tail_lines b.room b.pending b.consumed_offset rest))
    ]

tail_buffers-tail_lines :
    (buffers : List Bytes) (room : ℕ) (pending : Bytes) (consumed : ℕ)
    → NonEmpty buffers
    → tail_buffers room pending consumed buffers
      ≡ tail_lines room pending consumed (join_chunks buffers)
unfolding tail_buffers tail_lines join_chunks resume
tail_buffers-tail_lines [] zero pending consumed full = refl
tail_buffers-tail_lines [] (suc room) pending consumed full = refl
tail_buffers-tail_lines (buffer ∷ buffers) zero pending consumed full =
    sym (tail_lines-zero pending (buffer ++ join_chunks buffers) consumed)
tail_buffers-tail_lines (buffer ∷ buffers) (suc room) pending consumed full =
    let b = tail_buffer (suc room) pending [] consumed buffer in
    let rest = join_chunks buffers in
    rw full.0 (
      ap (append_taken b.taken)
        (tail_buffers-tail_lines buffers b.room b.pending b.consumed_offset full.1)
      ∙ sym (tail_buffer-resume (suc room) pending [] consumed buffer rest)
      ∙ ap (λ l. tail_lines (suc room) l consumed (buffer ++ rest)) (append-nil pending))

-- Read asynchronously, in whatever buffers that hold the file's bytes from the start offset on, a file
-- gives the same lines, the same next offset and the same flag.
pub tail_file_once_async-tail_file_once :
    (path : Bytes) (inode file_size : ℕ) (previous : Option SourceOffset) (max_lines : ℕ)
    (content : Bytes) (buffers : List Bytes) (full : NonEmpty buffers)
    (same : join_chunks buffers ≡ drop (start_offset path inode file_size previous) content)
    → tail_file_once_async path inode file_size previous max_lines (λ start length. some buffers)
      ≡ tail_file_once path inode file_size previous max_lines (some content)
unfolding tail_file_once_async tail_file_once
tail_file_once_async-tail_file_once path inode file_size previous max_lines content buffers full
      same =
    let start = start_offset path inode file_size previous in
    let changed = rotated path inode file_size previous in
    let read =
      tail_buffers-tail_lines buffers max_lines [] start full
      ∙ ap (tail_lines max_lines [] start) same in
    elim (Bool-cases (max_lines == 0 || leb file_size start)) [
      | inl idle ↦ rw idle refl
      | inr busy ↦ rw busy (ap (λ r. some (tail_batch path inode changed r)) read)
    ]
