-- ===== src/Queue/Invariant.antt =====
-- What the queue of src/async_writer.cc accounts for: every byte that was submitted is in the writer's
-- stream or waits, in the order of the submissions.
use seastar_log_engine.Recovery.{CheckpointState}
use mathlib.Core.Path.{subst}
use seastar_log_engine.Prelude.{
  ℕ, ◌+◌, ◌≡◌, refl, sym, ap, ◌∙◌, inl, inr, Bool, true, false, Bool-cases, not, List, [], ◌∷◌,
  ◌++◌, append-nil, append_assoc, arith, Bytes, length, if◌then◌else◌,
}
use seastar_log_engine.Config.{LogMessage, rotation_enabled}
use seastar_log_engine.Recovery.Stream.Whole.{join_chunks}
use seastar_log_engine.Append
use seastar_log_engine.Append.{AppendWriter, batch_bytes}
use seastar_log_engine.Append.Chunks.{join_chunks-append}
use seastar_log_engine.Append.Device.{IsFile}
use seastar_log_engine.Append.Stream.{Holds}
use seastar_log_engine.Append.Stream.Batch.{append_batch-Holds}
use seastar_log_engine.Append.Stream.End.{force_flush-Holds}
use seastar_log_engine.Queue.{
  Services, AsyncWriter, format_record, submit_record, put_back, flush_succeeded, size_ready,
  time_ready, maybe_rotate, flush_batch,
}

pub record Accounts {D : Type 0} (content : D → Bytes) (accepted : Bytes) (w : AsyncWriter D)
    : Type 0 where
  pub stream : Bytes
  pub holds : Holds content stream w.append_writer
  pub whole : stream ++ join_chunks w.pending ≡ accepted
  pub counted : w.pending_bytes ≡ batch_bytes w.pending

-- `store_checkpoint` writes to another file.
abbrev pub KeepsFile : {D : Type 0} → Services D → (D → Bytes) → Type 0
KeepsFile {D} services content =
    (c : CheckpointState) (file : D) → content (services.store_checkpoint c file).1 ≡ content file

pub batch_bytes-append : (a b : List Bytes) → batch_bytes (a ++ b) ≡ batch_bytes a + batch_bytes b
unfolding batch_bytes
batch_bytes-append [] b = omega arith
batch_bytes-append (s ∷ a) b = omega (arith, batch_bytes-append a b)

-- The text of the record that a message becomes.
unfoldable pub record_of : {D : Type 0} → ℕ → Bytes → LogMessage → AsyncWriter D → Bytes
record_of shard_id timestamp message w = (format_record shard_id timestamp message w).0

pub join_chunks-snoc :
    (front : Bytes) (pending : List Bytes) (entry : Bytes)
    → front ++ join_chunks (pending ++ entry ∷ []) ≡ (front ++ join_chunks pending) ++ entry
unfolding join_chunks
join_chunks-snoc front pending entry =
    ap (λ s. front ++ s)
      (join_chunks-append pending (entry ∷ [])
        ∙ ap (λ s. join_chunks pending ++ s) (append-nil entry))
    ∙ sym (append_assoc front (join_chunks pending) entry)

-- A submission puts its record behind all others, whatever else is going on.
pub submit_record-Accounts :
    {D : Type 0} (content : D → Bytes) (accepted : Bytes) (shard_id : ℕ) (timestamp : Bytes)
    (message : LogMessage) (w : AsyncWriter D)
    → Accounts content accepted w
    → Accounts content
        (accepted ++ record_of shard_id timestamp message w)
        (submit_record shard_id timestamp message w)
unfolding submit_record record_of format_record join_chunks batch_bytes
submit_record-Accounts content accepted shard_id timestamp message w h =
    let encoded = record_of shard_id timestamp message w in
    record {
      stream = h.stream;
      holds = h.holds;
      whole = join_chunks-snoc h.stream w.pending encoded ∙ ap (λ s. s ++ encoded) h.whole;
      counted = omega (arith, h.counted, batch_bytes-append w.pending (encoded ∷ []));
    }

-- What the handler of a failed flush restores.
pub put_back_lem :
    {D : Type 0} (batch : List Bytes) (w : AsyncWriter D)
    → put_back batch w ≡ record w {
      pending = batch ++ w.pending;
      pending_bytes = w.pending_bytes + batch_bytes batch;
    }
unfolding put_back batch_bytes
put_back_lem {D} [] w =
    let after : ℕ → AsyncWriter D = λ n. record w { pending_bytes = n } in
    ap after {x = w.pending_bytes} (omega arith)
put_back_lem {D} (s ∷ batch) w =
    let push : AsyncWriter D → AsyncWriter D =
      λ v. record v { pending_bytes = v.pending_bytes + length s; pending = s ∷ v.pending } in
    let after : ℕ → AsyncWriter D =
      λ n. record w { pending = s ∷ (batch ++ w.pending); pending_bytes = n } in
    ap push (put_back_lem batch w)
    ∙ ap after {x = w.pending_bytes + batch_bytes batch + length s} (omega arith)

module _ {D : Type 0} (services : Services D) (content : D → Bytes)
    (law : IsFile services.file_ops content) where
  -- Without rotation the file is the same from start to stop.
  maybe_rotate-off :
      (now : ℕ) (w : AsyncWriter D)
      → rotation_enabled w.config ≡ false
      → maybe_rotate services now w ≡ (true, w)
  unfolding maybe_rotate size_ready time_ready rotation_enabled
  maybe_rotate-off now w off = ground arith

  -- The `try` block leaves a stream that has grown by what it took out of the batch.
  pub record Flushed (total : Bytes) (w : AsyncWriter D)
      (result : Bool × List Bytes × AsyncWriter D) : Type 0 where
    pub stream : Bytes
    pub holds : Holds content stream result.2.append_writer
    pub whole : stream ++ join_chunks result.1 ≡ total
    pub emptied : result.0 ≡ true → result.1 ≡ []
    pub same_config : result.2.config ≡ w.config
    pub same_pending : result.2.pending ≡ w.pending
    pub same_bytes : result.2.pending_bytes ≡ w.pending_bytes

  -- Appending alone.
  record Appended (total : Bytes) (result : Bool × List Bytes × AppendWriter D) : Type 0 where
    stream : Bytes
    holds : Holds content stream result.2
    whole : stream ++ join_chunks result.1 ≡ total
    emptied : result.0 ≡ true → result.1 ≡ []

  append_batch-Appended :
      (stream : Bytes) (batch : List Bytes) (sync : Bool) (aw : AppendWriter D)
      → Holds content stream aw
      → Appended (stream ++ join_chunks batch) (Append.append_batch services.file_ops batch sync aw)
  unfolding join_chunks
  append_batch-Appended stream batch sync aw h =
      let result = Append.append_batch services.file_ops batch sync aw in
      let appends = append_batch-Holds services.file_ops content law stream batch sync aw h in
      elim (Bool-cases result.0) [
        | inl done ↦ record {
          stream = stream ++ join_chunks batch;
          holds = rw done at appends.0;
          whole =
              ap (λ b. (stream ++ join_chunks batch) ++ join_chunks b) (rw done at appends.1)
              ∙ append-nil (stream ++ join_chunks batch);
          emptied = λ _. rw done at appends.1;
        }
        | inr failed ↦ record {
          stream = stream;
          holds = rw failed at appends.0;
          whole = ap (λ b. stream ++ join_chunks b) (rw failed at appends.1);
          emptied = λ e. absurd (cc (e, failed));
        }
      ]

  module _ (now : ℕ) (sync partial : Bool) (batch : List Bytes) (w : AsyncWriter D) where
    appended : Bool × List Bytes × AppendWriter D
    appended = Append.append_batch services.file_ops batch sync w.append_writer

    forced : Bool × AppendWriter D
    unfolding appended
    forced =
        if partial then Append.force_flush services.file_ops sync appended.2 else (true, appended.2)

    flush_batch-off :
        rotation_enabled w.config ≡ false
        → flush_batch services now sync partial batch w ≡ (
            if not appended.0
            then (false, appended.1, record w { append_writer = appended.2 })
            else if not forced.0
            then (false, appended.1, record w { append_writer = forced.1 })
            else (
              true,
              appended.1,
              flush_succeeded (batch_bytes batch) (record w { append_writer = forced.1 }),
            ))
    unfolding flush_batch forced flush_succeeded
    flush_batch-off off =
        let counted = flush_succeeded (batch_bytes batch) (record w { append_writer = forced.1 }) in
        rw (maybe_rotate-off now counted off) refl

    forced-Holds :
        (stream : Bytes) → Holds content stream appended.2 → Holds content stream forced.1
    unfolding forced
    forced-Holds stream h = helper partial
      where
        helper :
            (p : Bool)
            → Holds content stream
                (if p
                  then Append.force_flush services.file_ops sync appended.2
                  else (true, appended.2)).1
        helper true = force_flush-Holds services.file_ops content law stream sync appended.2 h
        helper false = h

    pub flush_batch-Flushed :
        (stream : Bytes)
        → Holds content stream w.append_writer
        → rotation_enabled w.config ≡ false
        → Flushed (stream ++ join_chunks batch) w (flush_batch services now sync partial batch w)
    unfolding flush_succeeded appended
    flush_batch-Flushed stream h off =
        let a = append_batch-Appended stream batch sync w.append_writer h in
        subst (Flushed (stream ++ join_chunks batch) w) (sym (flush_batch-off off))
          (elim (Bool-cases appended.0) [
            | inr failed ↦ rw failed (record {
              stream = a.stream;
              holds = a.holds;
              whole = a.whole;
              emptied = λ e. absurd (cc e);
              same_config = refl;
              same_pending = refl;
              same_bytes = refl;
            })
            | inl done ↦ elim (Bool-cases forced.0) [
              | inr failed ↦
                  rw (done, failed)
                    (record {
                      stream = a.stream;
                      holds = forced-Holds a.stream a.holds;
                      whole = a.whole;
                      emptied = λ e. absurd (cc e);
                      same_config = refl;
                      same_pending = refl;
                      same_bytes = refl;
                    })
              | inl flushed ↦
                  rw (done, flushed)
                    (record {
                      stream = a.stream;
                      holds = forced-Holds a.stream a.holds;
                      whole = a.whole;
                      emptied = λ _. a.emptied done;
                      same_config = refl;
                      same_pending = refl;
                      same_bytes = refl;
                    })
            ]
          ])
