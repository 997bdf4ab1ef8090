-- ===== src/Append/Tests.antt =====
-- Runs of the writer of src/append_writer.cc, and its theorems at concrete files.
use seastar_log_engine.Prelude.{
  ℕ, ◌≡◌, refl, true, false, [], ◌∷◌, ◌++◌, arith, codes, take, if◌then◌else◌,
}
use seastar_log_engine.Recovery.Stream.Whole.{join_chunks}
use seastar_log_engine.Codec.Tests.{sample}
use seastar_log_engine.Config.{full}
use seastar_log_engine.Append.{
  AppendWriter, align_up, append_batch, append_pending_batch, batch_bytes, chunk_limit_of,
  chunk_offsets, close, cut_file, flush_chunks_prefix, flush_tail, for_each_chunk_prefix,
  force_flush, is_whole, retry, visit_prefix, write_aligned_buffer, write_attempt, write_chunks,
}
use seastar_log_engine.Append.Disk.{Disk, disk_ops, disk-IsFile}
use seastar_log_engine.Append.Stream.{Holds}
use seastar_log_engine.Append.Stream.Batch.{append_batch-Holds}
use seastar_log_engine.Append.Stream.End.{IsClosed, close-Holds, force_flush-durable}

-- Blocks of four bytes; one of them is written, two bytes wait.
abbrev resting : ℕ → AppendWriter Disk
resting failures = record {
  config = sample full true;
  file = record { bytes = codes "abcd"; failures = failures };
  file_open = true;
  tail_chunks = codes "e" ∷ codes "f" ∷ [];
  tail_bytes = 2;
  write_offset = 4;
  logical_size = 6;
  alignment = 4;
  opened_at = 0;
}

resting-Holds : (failures : ℕ) → Holds (λ d. d.bytes) (codes "abcdef") (resting failures)
unfolding join_chunks
resting-Holds failures = record {
  is_open = refl;
  has_blocks = omega arith;
  buffered = omega arith;
  aligned = refl;
  counted = refl;
  few = omega arith;
  sized = refl;
  reached = omega arith;
  stored = refl;
}

resting_append :
    (append_batch disk_ops (codes "ghi" ∷ codes "jk" ∷ []) false (resting 0)).2.file.bytes
    ≡ codes "abcdefgh"
unfolding append_batch append_pending_batch batch_bytes flush_chunks_prefix align_up
    for_each_chunk_prefix visit_prefix write_aligned_buffer chunk_limit_of retry write_attempt
    write_chunks chunk_offsets is_whole
resting_append = refl

append_batch-Holds_example :
    let result = append_batch disk_ops (codes "ghi" ∷ codes "jk" ∷ []) false (resting 1) in
    Holds
      (λ d. d.bytes)
      (if result.0
        then codes "abcdef" ++ join_chunks (codes "ghi" ∷ codes "jk" ∷ [])
        else codes "abcdef")
      result.2
    × (result.1 ≡ (if result.0 then [] else codes "ghi" ∷ codes "jk" ∷ []))
append_batch-Holds_example =
    append_batch-Holds disk_ops (λ d. d.bytes) disk-IsFile (codes "abcdef")
      (codes "ghi" ∷ codes "jk" ∷ []) false (resting 1) (resting-Holds 1)

close-Holds_example : IsClosed (λ d. d.bytes) (codes "abcdef") (close disk_ops (resting 0)).1
unfolding close cut_file flush_tail flush_chunks_prefix align_up for_each_chunk_prefix visit_prefix
    write_aligned_buffer chunk_limit_of retry write_attempt write_chunks chunk_offsets is_whole
close-Holds_example =
    close-Holds disk_ops (λ d. d.bytes) disk-IsFile (codes "abcdef") (resting 0) (resting-Holds 0)
      refl

force_flush-durable_example :
    take 6 (force_flush disk_ops true (resting 1)).1.file.bytes ≡ codes "abcdef"
unfolding force_flush align_up for_each_chunk_prefix visit_prefix write_aligned_buffer
    chunk_limit_of retry write_attempt write_chunks chunk_offsets is_whole
force_flush-durable_example =
    force_flush-durable disk_ops (λ d. d.bytes) disk-IsFile (codes "abcdef") true (resting 1)
      (resting-Holds 1) refl
