-- ===== src/Queue.antt =====
-- src/async_writer.cc: the queue in front of the writer of a file. Each operation is modelled as it
-- runs with no other one in between; `Queue.Steps` has the interleavings. A call gives back whether it
-- returned (`false` is an exception) with the state that it left. The timer and the gate of the server
-- library are left out, and the clock is an argument.
pub mod Invariant
pub mod Flush
pub mod Steps
pub mod Stop
pub mod Resume
pub mod Rotate
pub mod Backpressure
pub mod Timestamp
mod Tests
use seastar_log_engine.Prelude.{
  ℕ, zero, suc, ◌+◌, ◌-◌, ◌/◌, ◌%◌, u64_modulus, Bool, true, false, not, ◌&&◌, ◌||◌, Option, none,
  some, List, [], ◌∷◌, ◌++◌, Bytes, length, ltb, leb, ◌==◌, if◌then◌else◌,
}
use seastar_log_engine.Config.{EngineConfig, LogMessage, AckMode, write_ack, sync_ack}
use seastar_log_engine.Codec.Encode.{encode_record_buffer}
use seastar_log_engine.Recovery.{CheckpointState, RecoveryState}
use seastar_log_engine.Append
use seastar_log_engine.Append.{FileOps, AppendWriter}

-- The file, and the calls of the log manager, which work on files too.
pub record Services (D : Type 0) : Type 0 where
  pub file_ops : FileOps D
  pub rotate_active_file : ℕ → D → Bool × D
  pub store_checkpoint : CheckpointState → D → Bool × D
  pub recover_active_file : ℕ → D → Option RecoveryState × D

pub record AsyncWriter (D : Type 0) : Type 0 where
  pub config : EngineConfig
  pub pending : List Bytes
  pub pending_bytes : ℕ
  pub sequence : ℕ
  pub rotation_index : ℕ
  pub append_writer : AppendWriter D
  pub submitted_messages : ℕ
  pub submitted_bytes : ℕ
  pub flushed_batches : ℕ
  pub flushed_bytes : ℕ
  pub flush_errors : ℕ
  pub backpressure_waits : ℕ
  pub waiting_submitters : ℕ
  pub started : Bool
  pub stopping : Bool
  pub flush_in_progress : Bool

pub pending_entries : {D : Type 0} → AsyncWriter D → ℕ
pending_entries w = length w.pending

pub backpressure_enabled : {D : Type 0} → AsyncWriter D → Bool
backpressure_enabled w = ltb 0 w.config.max_pending_bytes

pub above_backpressure_limit : {D : Type 0} → AsyncWriter D → Bool
above_backpressure_limit w =
    backpressure_enabled w && leb w.config.max_pending_bytes w.pending_bytes

pub backpressure_resume_threshold : {D : Type 0} → AsyncWriter D → ℕ
backpressure_resume_threshold w =
    if not (backpressure_enabled w)
    then 0
    else if ltb 0 w.config.pending_bytes_low_watermark
    then w.config.pending_bytes_low_watermark
    else w.config.max_pending_bytes / 2

pub below_backpressure_resume_threshold : {D : Type 0} → AsyncWriter D → Bool
below_backpressure_resume_threshold w =
    not (backpressure_enabled w) || leb w.pending_bytes (backpressure_resume_threshold w)

-- The submitter waits when this holds.
pub must_wait : {D : Type 0} → AsyncWriter D → Bool
must_wait w = not (not (backpressure_enabled w) || not (above_backpressure_limit w) || w.stopping)

-- The condition that a waiting submitter is woken by.
pub may_resume : {D : Type 0} → AsyncWriter D → Bool
may_resume w = w.stopping || below_backpressure_resume_threshold w

-- `encode_record_buffer` with the next sequence number. The time is the text of `format_timestamp`.
pub format_record : {D : Type 0} → ℕ → Bytes → LogMessage → AsyncWriter D → Bytes × AsyncWriter D
format_record shard_id timestamp message w = (
  encode_record_buffer w.config shard_id w.sequence message.level
      (if w.config.record_timestamp_enabled then timestamp else []) message.payload,
  record w { sequence = (w.sequence + 1) % u64_modulus },
)

pub submit_record : {D : Type 0} → ℕ → Bytes → LogMessage → AsyncWriter D → AsyncWriter D
submit_record shard_id timestamp message w =
    let (encoded, w') = format_record shard_id timestamp message w in
    record w' {
      submitted_messages = (w'.submitted_messages + 1) % u64_modulus;
      submitted_bytes = (w'.submitted_bytes + length encoded) % u64_modulus;
      pending_bytes = w'.pending_bytes + length encoded;
      pending = w'.pending ++ encoded ∷ [];
    }

pub submit_records : {D : Type 0} → ℕ → Bytes → List LogMessage → AsyncWriter D → AsyncWriter D
submit_records shard_id timestamp [] w = w
submit_records shard_id timestamp (message ∷ messages) w =
    submit_records shard_id timestamp messages (submit_record shard_id timestamp message w)

-- The loop of the handler of `flush_once`: the last entry of the batch goes back first.
pub put_back : {D : Type 0} → List Bytes → AsyncWriter D → AsyncWriter D
put_back [] w = w
put_back (entry ∷ batch) w =
    let w' = put_back batch w in
    record w' { pending_bytes = w'.pending_bytes + length entry; pending = entry ∷ w'.pending }

-- What `flush_once` does before it waits for the first time: the batch, and the state.
pub take_batch : {D : Type 0} → AsyncWriter D → List Bytes × AsyncWriter D
take_batch w = (w.pending, record w { flush_in_progress = true; pending = []; pending_bytes = 0 })

pub flush_succeeded : {D : Type 0} → ℕ → AsyncWriter D → AsyncWriter D
flush_succeeded bytes w = record w {
  flushed_batches = (w.flushed_batches + 1) % u64_modulus;
  flushed_bytes = (w.flushed_bytes + bytes) % u64_modulus;
}

pub flush_failed : {D : Type 0} → List Bytes → AsyncWriter D → AsyncWriter D
flush_failed batch w =
    record (put_back batch (record w { flush_errors = (w.flush_errors + 1) % u64_modulus })) {
      flush_in_progress = false;
    }

-- The end of `flush_once`, on both ways out of its `try` block.
pub settle : {D : Type 0} → Bool × List Bytes × AsyncWriter D → Bool × AsyncWriter D
settle (done, left, w) =
    if done then (true, record w { flush_in_progress = false }) else (false, flush_failed left w)

pub size_ready : {D : Type 0} → AsyncWriter D → Bool
size_ready w =
    ltb 0 w.config.rotate_size_bytes && leb w.config.rotate_size_bytes w.append_writer.logical_size

-- The clock counts seconds.
pub time_ready : {D : Type 0} → ℕ → AsyncWriter D → Bool
time_ready now w =
    ltb 0 w.config.rotate_interval_seconds
    && leb w.config.rotate_interval_seconds (now - w.append_writer.opened_at)

pub sync_of : AckMode → Bool
sync_of write_ack = false
sync_of sync_ack = true

pub count_wait : {D : Type 0} → AsyncWriter D → AsyncWriter D
count_wait w =
    if must_wait w
    then record w {
      backpressure_waits = (w.backpressure_waits + 1) % u64_modulus;
      waiting_submitters = w.waiting_submitters + 1;
    }
    else w

module _ {D : Type 0} (services : Services D) where
  pub persist_checkpoint : AsyncWriter D → Bool × AsyncWriter D
  persist_checkpoint w =
      let (flushed, aw) = Append.force_flush services.file_ops true w.append_writer in
      let checkpoint : CheckpointState = record {
        logical_size = aw.logical_size;
        sequence = w.sequence;
        rotation_index = w.rotation_index;
      } in
      let (stored, file') = services.store_checkpoint checkpoint aw.file in
      if flushed
      then (stored, record w { append_writer = record aw { file = file' } })
      else (false, record w { append_writer = aw })

  -- `if (_config.checkpoint_enabled) co_await persist_checkpoint();`
  pub persist_if_enabled : AsyncWriter D → Bool × AsyncWriter D
  persist_if_enabled w = if w.config.checkpoint_enabled then persist_checkpoint w else (true, w)

  -- The steps of a rotation, in their order.
  pub rotate : ℕ → AsyncWriter D → Bool × AsyncWriter D
  rotate now w =
      let (flushed, aw1) = Append.flush_tail services.file_ops true w.append_writer in
      let (closed, aw2) = Append.close services.file_ops aw1 in
      let index = (w.rotation_index + 1) % u64_modulus in
      let (rotated, file') = services.rotate_active_file index aw2.file in
      let aw3 = record aw2 { file = file' } in
      let (started, aw4) =
        Append.start services.file_ops w.config now (Append.reset_after_rotation aw3) in
      let w' = record w { rotation_index = index; append_writer = aw4 } in
      if not flushed
      then (false, record w { append_writer = aw1 })
      else if not closed
      then (false, record w { append_writer = aw2 })
      else if not rotated
      then (false, record w { rotation_index = index; append_writer = aw3 })
      else if not started
      then (false, w')
      else persist_if_enabled w'

  pub maybe_rotate : ℕ → AsyncWriter D → Bool × AsyncWriter D
  maybe_rotate now w =
      if not (size_ready w) && not (time_ready now w) then (true, w) else rotate now w

  -- The `try` block of `flush_once`, with the batch that the handler finds.
  pub flush_batch : ℕ → Bool → Bool → List Bytes → AsyncWriter D → Bool × List Bytes × AsyncWriter D
  flush_batch now sync_after_write flush_partial_tail batch w =
      let (appended, left, aw1) =
        Append.append_batch services.file_ops batch sync_after_write w.append_writer in
      let (forced, aw2) =
        if flush_partial_tail
        then Append.force_flush services.file_ops sync_after_write aw1
        else (true, aw1) in
      let counted = flush_succeeded (Append.batch_bytes batch) (record w { append_writer = aw2 }) in
      let (rotated, w') = maybe_rotate now counted in
      if not appended
      then (false, left, record w { append_writer = aw1 })
      else if not forced
      then (false, left, record w { append_writer = aw2 })
      else (rotated, left, w')

  pub flush_once : ℕ → Bool → Bool → AsyncWriter D → Bool × AsyncWriter D
  flush_once now sync_after_write flush_partial_tail w =
      let (batch, taken) = take_batch w in
      let result = flush_batch now sync_after_write flush_partial_tail batch taken in
      if w.flush_in_progress || pending_entries w == 0 then (true, w) else settle result

  pub flush_background : ℕ → Bool → Bool → AsyncWriter D → Bool × AsyncWriter D
  flush_background now sync_after_write flush_partial_tail w =
      if w.stopping || w.flush_in_progress || pending_entries w == 0
      then (true, w)
      else flush_once now sync_after_write flush_partial_tail w

  -- The end of `submit` and `submit_many`; the wait for the queue to drain comes after it.
  pub flush_if_full : ℕ → AsyncWriter D → Bool × AsyncWriter D
  flush_if_full now w =
      if leb w.config.batch_size (pending_entries w) || above_backpressure_limit w
      then flush_background now (sync_of w.config.ack_mode) true w
      else (true, w)

  pub submit : ℕ → ℕ → Bytes → LogMessage → AsyncWriter D → Bool × AsyncWriter D
  submit now shard_id timestamp message w =
      let (done, w') = flush_if_full now (submit_record shard_id timestamp message w) in
      if w.stopping then (true, w) else if done then (true, count_wait w') else (false, w')

  pub submit_many : ℕ → ℕ → Bytes → List LogMessage → AsyncWriter D → Bool × AsyncWriter D
  submit_many now shard_id timestamp messages w =
      let (done, w') = flush_if_full now (submit_records shard_id timestamp messages w) in
      if w.stopping || length messages == 0
      then (true, w)
      else if done
      then (true, count_wait w')
      else (false, w')

  -- What `recover_from_checkpoint` does with the recovery.
  pub apply_recovery : Option RecoveryState × D → AsyncWriter D → Bool × AsyncWriter D
  apply_recovery (none, file) w =
      (false, record w { append_writer = record w.append_writer { file = file } })
  apply_recovery (some recovery, file) w =
      let (cut, aw) =
        Append.truncate_to services.file_ops recovery.logical_size recovery.tail_buffer
          (record w.append_writer { file = file }) in
      let w' = record w {
        sequence = recovery.sequence;
        rotation_index = recovery.rotation_index;
        append_writer = aw;
      } in
      if not cut then (false, w') else persist_if_enabled w'

  pub recover_from_checkpoint : AsyncWriter D → Bool × AsyncWriter D
  recover_from_checkpoint w =
      apply_recovery (services.recover_active_file w.append_writer.alignment w.append_writer.file) w

  -- `start` after the configuration is checked and the directories are there.
  pub start : EngineConfig → ℕ → AsyncWriter D → Bool × AsyncWriter D
  start config now w =
      let (opened, aw) = Append.start services.file_ops config now w.append_writer in
      let w' = record w {
        config = config;
        pending = [];
        pending_bytes = 0;
        sequence = 0;
        rotation_index = 0;
        append_writer = aw;
        submitted_messages = 0;
        submitted_bytes = 0;
        flushed_batches = 0;
        flushed_bytes = 0;
        flush_errors = 0;
        backpressure_waits = 0;
        started = true;
        stopping = false;
        flush_in_progress = false;
      } in
      if not opened
      then (false, w')
      else if not config.truncate_on_start
      then recover_from_checkpoint w'
      else persist_if_enabled w'

  -- The loop of `stop`, on fuel: `none` means that the fuel ran out.
  pub drain : ℕ → ℕ → AsyncWriter D → Option (Bool × AsyncWriter D)
  drain zero now w = none
  drain (suc fuel) now w =
      let (done, w') = flush_once now true true w in
      let rest = drain fuel now w' in
      if pending_entries w == 0 then some (true, w) else if done then rest else some (false, w')

  -- The end of `stop`, once the queue is empty.
  pub finish : AsyncWriter D → Bool × AsyncWriter D
  finish w =
      let (flushed, aw) = Append.flush_tail services.file_ops true w.append_writer in
      let w' = record w { append_writer = aw } in
      let (persisted, w'') = persist_if_enabled w' in
      let (closed, aw') = Append.close services.file_ops w''.append_writer in
      if not flushed
      then (false, w')
      else if not persisted
      then (false, w'')
      else if not closed
      then (false, record w'' { append_writer = aw' })
      else (true, record w'' { append_writer = aw'; started = false })

  pub stop : ℕ → ℕ → AsyncWriter D → Option (Bool × AsyncWriter D)
  stop fuel now w =
      if not w.started
      then some (true, w)
      else elim (drain fuel now (record w { stopping = true })) [
        | none ↦ none
        | some (done, w') ↦ some (if done then finish w' else (false, w'))
      ]
