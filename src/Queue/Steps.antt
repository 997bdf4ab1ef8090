-- ===== src/Queue/Steps.antt =====
-- The interleavings of src/async_writer.cc: a flush waits for the disk between the moment it takes the
-- batch and the moment it ends, and messages are submitted meanwhile.
use mathlib.Core.Path.{subst}
use seastar_log_engine.Prelude.{
  ℕ, ◌≡◌, refl, sym, ap, ◌∙◌, Bool, true, false, List, [], ◌∷◌, ◌++◌, append-nil, append_assoc,
  arith, Bytes,
}
use seastar_log_engine.Config.{LogMessage, rotation_enabled}
use seastar_log_engine.Recovery.Stream.Whole.{join_chunks}
use seastar_log_engine.Append.{batch_bytes}
use seastar_log_engine.Append.Device.{IsFile}
use seastar_log_engine.Append.Stream.{Holds}
use seastar_log_engine.Queue.{
  Services, AsyncWriter, submit_record, take_batch, settle, flush_batch, format_record,
}
use seastar_log_engine.Queue.Invariant.{
  flush_batch-Flushed, record_of, join_chunks-snoc, batch_bytes-append,
}
use seastar_log_engine.Queue.Flush.{settle-Accounts, settle-config}

-- The writer and the batch of the flush that is under way.
pub record Run (D : Type 0) : Type 0 where
  pub writer : AsyncWriter D
  pub in_flight : List Bytes

module _ {D : Type 0} (services : Services D) where
  -- A step from one state to another, with the bytes that it accepts.
  pub data Step (r : Run D) : Bytes → Run D → Type 0 where
    submitted :
        (shard_id : ℕ) (timestamp : Bytes) (message : LogMessage)
        → r.writer.stopping ≡ false
        → Step r
            (record_of shard_id timestamp message r.writer)
            (record r { writer = submit_record shard_id timestamp message r.writer })
    flush_began :
        r.writer.flush_in_progress ≡ false
        → Step r []
            (record { writer = (take_batch r.writer).1; in_flight = (take_batch r.writer).0 })
    flush_ended :
        (now : ℕ) (sync partial : Bool)
        → r.writer.flush_in_progress ≡ true
        → Step r [] (record {
          writer = (settle (flush_batch services now sync partial r.in_flight r.writer)).1;
          in_flight = [];
        })

  pub data Reach (start : Run D) : Bytes → Run D → Type 0 where
    here : Reach start [] start
    next :
        {before added : Bytes} {r s : Run D}
        → Reach start before r
        → Step r added s
        → Reach start (before ++ added) s

-- The bytes that were accepted are in the writer's stream, in the batch under way, or wait, in this order.
pub record RunAccounts {D : Type 0} (content : D → Bytes) (accepted : Bytes) (r : Run D)
    : Type 0 where
  pub stream : Bytes
  pub holds : Holds content stream r.writer.append_writer
  pub whole : stream ++ join_chunks r.in_flight ++ join_chunks r.writer.pending ≡ accepted
  pub counted : r.writer.pending_bytes ≡ batch_bytes r.writer.pending
  pub idle : r.writer.flush_in_progress ≡ false → r.in_flight ≡ []
  pub unrotated : rotation_enabled r.writer.config ≡ false

module _ {D : Type 0} (services : Services D) (content : D → Bytes)
    (law : IsFile services.file_ops content) where
  Step-RunAccounts :
      {accepted : Bytes} {r : Run D} {added : Bytes} {s : Run D}
      → RunAccounts content accepted r
      → Step services r added s
      → RunAccounts content (accepted ++ added) s
  unfolding submit_record format_record record_of take_batch join_chunks batch_bytes
  Step-RunAccounts {accepted} {r} h (submitted shard_id timestamp message running) =
      let encoded = record_of shard_id timestamp message r.writer in
      record {
        stream = h.stream;
        holds = h.holds;
        whole =
            join_chunks-snoc (h.stream ++ join_chunks r.in_flight) r.writer.pending encoded
            ∙ ap (λ s. s ++ encoded) h.whole;
        counted = omega (arith, h.counted, batch_bytes-append r.writer.pending (encoded ∷ []));
        idle = h.idle;
        unrotated = h.unrotated;
      }
  Step-RunAccounts {accepted} {r} h (flush_began free) = record {
    stream = h.stream;
    holds = h.holds;
    whole =
        append-nil (h.stream ++ join_chunks r.writer.pending)
        ∙ ap (λ s. s ++ join_chunks r.writer.pending) (sym (append-nil h.stream))
        ∙ ap (λ b. (h.stream ++ join_chunks b) ++ join_chunks r.writer.pending) (sym (h.idle free))
        ∙ h.whole
        ∙ sym (append-nil accepted);
    counted = refl;
    idle = λ e. absurd (cc e);
    unrotated = h.unrotated;
  }
  Step-RunAccounts {accepted} {r} h (flush_ended now sync partial busy) =
      let result = flush_batch services now sync partial r.in_flight r.writer in
      let total = h.stream ++ join_chunks r.in_flight in
      let flushed =
        flush_batch-Flushed services content law now sync partial r.in_flight r.writer h.stream
          h.holds h.unrotated in
      let a = settle-Accounts services content law total r.writer result flushed h.counted in
      record {
        stream = a.stream;
        holds = a.holds;
        whole =
            ap (λ s. s ++ join_chunks (settle result).1.pending) (append-nil a.stream)
            ∙ a.whole
            ∙ h.whole
            ∙ sym (append-nil accepted);
        counted = a.counted;
        idle = λ _. refl;
        unrotated =
            ap rotation_enabled (settle-config services content law total r.writer result flushed)
            ∙ h.unrotated;
      }

  -- While no rotation is configured: whatever is submitted while flushes run, succeed or fail, every
  -- byte that was accepted is in the stream of the file, in the batch under way or in the queue, once
  -- and in the order of the submissions. It holds at the start, and that no rotation is configured is
  -- one of the things that hold.
  pub Reach-RunAccounts :
      {start s : Run D} {accepted : Bytes} (before : Bytes)
      → RunAccounts content before start
      → Reach services start accepted s
      → RunAccounts content (before ++ accepted) s
  Reach-RunAccounts {start} before h here =
      subst (λ b. RunAccounts content b start) (sym (append-nil before)) h
  Reach-RunAccounts before h (next {before = so_far} {added} {s = s} reach step) =
      subst (λ b. RunAccounts content b s) (append_assoc before so_far added)
        (Step-RunAccounts (Reach-RunAccounts before h reach) step)
