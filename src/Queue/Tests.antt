-- ===== src/Queue/Tests.antt =====
-- Runs of the queue of src/async_writer.cc on a file in memory, and its theorems at concrete states.
use seastar_log_engine.Recovery.Recover.Full.{recover_active_file-full}
use seastar_log_engine.Prelude.{
  ℕ, bytes_eq, if◌then◌else◌, ◌≡◌, refl, Bool, true, false, Option, none, some, [], ◌∷◌, ◌++◌,
  arith, codes,
}
use seastar_log_engine.Config.{EngineConfig, LogMessage, info, full, rotation_enabled}
use seastar_log_engine.Codec.Tests.{sample}
use seastar_log_engine.Recovery.Recover.{recover_active_file}
use seastar_log_engine.Recovery.Stream.Whole.{join_chunks}
use seastar_log_engine.Append.{
  AppendWriter, batch_bytes, align_up, visit_prefix, for_each_chunk_prefix, chunk_offsets, is_whole,
  write_chunks, write_attempt, retry, chunk_limit_of, write_aligned_buffer, flush_chunks_prefix,
  force_flush, cut_file, flush_tail, close, append_batch, append_pending_batch, consume,
  collect_remaining_chunks, start, truncate_to,
}
use seastar_log_engine.Append.Disk.{Disk, disk_ops, disk-IsFile}
use seastar_log_engine.Append.Stream.{Holds}
use seastar_log_engine.Append.Stream.End.{IsClosed}
use seastar_log_engine.Queue.{
  Services, AsyncWriter, settle, stop, recover_from_checkpoint, flush_once, submit_record,
  format_record, drain, finish, flush_batch, maybe_rotate, size_ready, time_ready, take_batch,
  flush_succeeded, pending_entries, persist_if_enabled, persist_checkpoint, apply_recovery,
}
use seastar_log_engine.Queue.Invariant.{Accounts, record_of}
use seastar_log_engine.Queue.Steps.{
  Run, submitted, flush_began, flush_ended, here, next, RunAccounts, Reach-RunAccounts,
}
use seastar_log_engine.Queue.Stop.{stop-ends, stop-stores}
use seastar_log_engine.Queue.Resume.{verified_part, CutBefore, recover_from_checkpoint-Accounts}

abbrev disk_services : Services Disk
disk_services = record {
  file_ops = disk_ops;
  rotate_active_file = λ index d. (true, record d { bytes = [] });
  store_checkpoint = λ checkpoint d. (true, d);
  recover_active_file = λ alignment d. (recover_active_file (some d.bytes) none alignment, d);
}

abbrev limits : EngineConfig
limits = record (sample full true) {
  max_pending_bytes = 10;
  pending_bytes_low_watermark = 10;
  rotate_size_bytes = 0;
  rotate_interval_seconds = 0;
}

-- Blocks of four bytes: one is in the file, two bytes are in memory, two records wait.
abbrev file_writer : AppendWriter Disk
file_writer = record {
  config = limits;
  file = record { bytes = codes "abcd"; failures = 1 };
  file_open = true;
  tail_chunks = codes "ef" ∷ [];
  tail_bytes = 2;
  write_offset = 4;
  logical_size = 6;
  alignment = 4;
  opened_at = 0;
}

abbrev busy : AsyncWriter Disk
busy = record {
  config = limits;
  pending = codes "ghijk" ∷ codes "lmnop" ∷ [];
  pending_bytes = 10;
  sequence = 3;
  rotation_index = 0;
  append_writer = file_writer;
  submitted_messages = 3;
  submitted_bytes = 16;
  flushed_batches = 1;
  flushed_bytes = 6;
  flush_errors = 0;
  backpressure_waits = 0;
  waiting_submitters = 0;
  started = true;
  stopping = false;
  flush_in_progress = false;
}

file_writer-Holds : Holds (λ d. d.bytes) (codes "abcdef") file_writer
unfolding join_chunks
file_writer-Holds = record {
  is_open = refl;
  has_blocks = omega arith;
  buffered = omega arith;
  aligned = refl;
  counted = refl;
  few = omega arith;
  sized = refl;
  reached = omega arith;
  stored = refl;
}

busy-Accounts : Accounts (λ d. d.bytes) (codes "abcdefghijklmnop") busy
unfolding join_chunks batch_bytes
busy-Accounts = record {
  stream = codes "abcdef";
  holds = file_writer-Holds;
  whole = refl;
  counted = refl;
}

stop-ends_example : (r : Bool × AsyncWriter Disk) × (stop disk_services 2 5 busy ≡ some r)
unfolding rotation_enabled
stop-ends_example =
    stop-ends disk_services (λ d. d.bytes) disk-IsFile (codes "abcdefghijklmnop") 5 busy
      busy-Accounts refl refl refl

abbrev message : LogMessage
message = record { level = info; payload = codes "hello"; route_key = codes "k" }

abbrev at_rest : Run Disk
at_rest = record { writer = busy; in_flight = [] }

abbrev flushing : Run Disk
flushing = record { writer = (take_batch busy).1; in_flight = (take_batch busy).0 }

abbrev submitting : Run Disk
submitting = record flushing { writer = submit_record 0 (codes "t") message flushing.writer }

-- The file fails once, so the batch goes back in front of the record that came meanwhile.
abbrev settled : Run Disk
settled = record {
  writer =
      (settle (flush_batch disk_services 5 true true submitting.in_flight submitting.writer)).1;
  in_flight = [];
}

-- A flush begins, a message is submitted, and the flush ends.
Reach-RunAccounts_example :
    RunAccounts
      (λ d. d.bytes)
      (codes "abcdefghijklmnop"
        ++ ((([] ++ []) ++ record_of 0 (codes "t") message flushing.writer) ++ []))
      settled
unfolding rotation_enabled join_chunks batch_bytes take_batch submit_record format_record
Reach-RunAccounts_example =
    Reach-RunAccounts disk_services (λ d. d.bytes) disk-IsFile {start = at_rest}
      (codes "abcdefghijklmnop")
      (record {
        stream = codes "abcdef";
        holds = file_writer-Holds;
        whole = refl;
        counted = refl;
        idle = λ e. refl;
        unrotated = refl;
      })
      (next (next (next here (flush_began refl)) (submitted 0 (codes "t") message refl))
        (flush_ended 5 true true refl))

-- The same writer after its device has recovered.
abbrev mended : AsyncWriter Disk
mended = record busy {
  append_writer = record file_writer { file = record { bytes = codes "abcd"; failures = 0 } };
}

mended-Holds : Holds (λ d. d.bytes) (codes "abcdef") mended.append_writer
unfolding join_chunks
mended-Holds = record {
  is_open = refl;
  has_blocks = omega arith;
  buffered = omega arith;
  aligned = refl;
  counted = refl;
  few = omega arith;
  sized = refl;
  reached = omega arith;
  stored = refl;
}

mended-Accounts : Accounts (λ d. d.bytes) (codes "abcdefghijklmnop") mended
unfolding join_chunks batch_bytes
mended-Accounts = record {
  stream = codes "abcdef";
  holds = mended-Holds;
  whole = refl;
  counted = refl;
}

abbrev after_stop : Option (Bool × AsyncWriter Disk) → AsyncWriter Disk
after_stop none = mended
after_stop (some r) = r.1

stop-stores_example :
    IsClosed
      (λ d. d.bytes)
      (codes "abcdefghijklmnop")
      (after_stop (stop disk_services 2 5 mended)).append_writer
unfolding rotation_enabled stop drain finish flush_once flush_batch maybe_rotate size_ready
    time_ready take_batch settle flush_succeeded pending_entries persist_if_enabled
    persist_checkpoint align_up visit_prefix for_each_chunk_prefix chunk_offsets is_whole
    write_chunks write_attempt retry chunk_limit_of write_aligned_buffer flush_chunks_prefix
    force_flush cut_file flush_tail close append_batch append_pending_batch consume
    collect_remaining_chunks batch_bytes
stop-stores_example =
    stop-stores disk_services (λ d. d.bytes) disk-IsFile (codes "abcdefghijklmnop") 5 mended
      mended-Accounts refl refl refl (λ c file. refl)
      {after = (after_stop (stop disk_services 2 5 mended))} refl

-- Moves the file as the other does when it holds these bytes, and fails otherwise.
abbrev strict_move : ℕ → Disk → Bool × Disk
strict_move index d =
    if bytes_eq d.bytes (codes "abcdef") then (true, record d { bytes = [] }) else (false, d)

abbrev idle : AsyncWriter Disk
idle = record mended {
  config = record limits { checkpoint_enabled = false };
  pending = [];
  pending_bytes = 0;
}

recover_from_checkpoint-Accounts_example :
    Accounts
      (λ d. d.bytes)
      (verified_part (codes "abcd"))
      (recover_from_checkpoint disk_services idle).1
    × CutBefore disk_services
        (λ d. d.bytes)
        disk-IsFile
        (verified_part (codes "abcd"))
        (recover_from_checkpoint disk_services idle)
unfolding recover_from_checkpoint apply_recovery truncate_to persist_if_enabled
recover_from_checkpoint-Accounts_example =
    recover_from_checkpoint-Accounts disk_services (λ d. d.bytes) disk-IsFile (λ c file. refl) none
      idle refl (omega arith) (omega arith) refl refl (λ c e. absurd (cc e)) refl
      (rw (recover_active_file-full (codes "abcd") none 4 (λ c e. absurd (cc e))) refl)
