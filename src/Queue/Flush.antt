-- ===== src/Queue/Flush.antt =====
-- `flush_once`, `submit` and `stop` of src/async_writer.cc keep account of every byte.
use mathlib.Core.Path.{subst}
use seastar_log_engine.Prelude.{
  ℕ, ◌≡◌, refl, sym, ap, ◌∙◌, inl, inr, Bool, true, false, Bool-cases, ◌||◌, List, ◌++◌, append-nil,
  append_assoc, arith, Bytes, length, leb, ◌==◌, if◌then◌else◌,
}
use seastar_log_engine.Config.{LogMessage, rotation_enabled}
use seastar_log_engine.Recovery.Stream.Whole.{join_chunks}
use seastar_log_engine.Append.{batch_bytes}
use seastar_log_engine.Append.Chunks.{join_chunks-append}
use seastar_log_engine.Append.Device.{IsFile}
use seastar_log_engine.Queue.{
  Services, AsyncWriter, pending_entries, submit_record, take_batch, flush_failed, settle,
  flush_batch, flush_once, flush_background, flush_if_full, submit, count_wait, must_wait,
  above_backpressure_limit, sync_of, format_record,
}
use seastar_log_engine.Queue.Invariant.{
  Accounts, Flushed, flush_batch-Flushed, put_back_lem, batch_bytes-append, record_of,
  submit_record-Accounts,
}

module _ {D : Type 0} (services : Services D) (content : D → Bytes)
    (law : IsFile services.file_ops content) where
  -- The end of a flush: what was not taken goes back in front of what was submitted meanwhile.
  pub settle-Accounts :
      (total : Bytes) (w : AsyncWriter D) (result : Bool × List Bytes × AsyncWriter D)
      → Flushed services content law total w result
      → w.pending_bytes ≡ batch_bytes w.pending
      → Accounts content (total ++ join_chunks w.pending) (settle result).1
  unfolding settle flush_failed join_chunks
  settle-Accounts total w result f counted = elim (Bool-cases result.0) [
    | inl done ↦ rw done (record {
      stream = f.stream;
      holds = f.holds;
      whole =
          ap (λ b. f.stream ++ join_chunks b) f.same_pending
          ∙ ap (λ s. s ++ join_chunks w.pending)
              (sym (append-nil f.stream)
                ∙ ap (λ b. f.stream ++ join_chunks b) (sym (f.emptied done))
                ∙ f.whole);
      counted = f.same_bytes ∙ counted ∙ ap batch_bytes (sym f.same_pending);
    })
    | inr failed ↦
        rw (failed, put_back_lem result.1)
          (record {
            stream = f.stream;
            holds = f.holds;
            whole =
                ap (λ b. f.stream ++ join_chunks (result.1 ++ b)) f.same_pending
                ∙ ap (λ s. f.stream ++ s) (join_chunks-append result.1 w.pending)
                ∙ sym (append_assoc f.stream (join_chunks result.1) (join_chunks w.pending))
                ∙ ap (λ s. s ++ join_chunks w.pending) f.whole;
            counted = omega (
              arith,
              f.same_bytes,
              counted,
              batch_bytes-append result.1 result.2.pending,
              ap batch_bytes f.same_pending,
            );
          })
  ]

  pub settle-config :
      (total : Bytes) (w : AsyncWriter D) (result : Bool × List Bytes × AsyncWriter D)
      → Flushed services content law total w result
      → (settle result).1.config ≡ w.config
  unfolding settle flush_failed
  settle-config total w result f = elim (Bool-cases result.0) [
    | inl done ↦ rw done f.same_config
    | inr failed ↦ rw (failed, put_back_lem result.1) f.same_config
  ]

  -- A flush, whether it returns or throws and wherever it fails, neither loses a byte nor changes the
  -- order of the bytes: what is in the file's stream, followed by what waits, is what it was.
  pub flush_once-Accounts :
      (accepted : Bytes) (now : ℕ) (sync partial : Bool) (w : AsyncWriter D)
      → Accounts content accepted w
      → rotation_enabled w.config ≡ false
      → Accounts content accepted (flush_once services now sync partial w).1
  unfolding flush_once take_batch pending_entries join_chunks batch_bytes
  flush_once-Accounts accepted now sync partial w h off =
      elim (Bool-cases (w.flush_in_progress || length w.pending == 0)) [
        | inl idle ↦ rw idle h
        | inr flushing ↦
            let taken = (take_batch w).1 in
            let batch = w.pending in
            let done =
              flush_batch-Flushed services content law now sync partial batch taken h.stream h.holds
                off in
            rw flushing (
              subst
                (λ s.
                  Accounts content s (settle (flush_batch services now sync partial batch taken)).1)
                (append-nil (h.stream ++ join_chunks batch) ∙ h.whole)
                (settle-Accounts (h.stream ++ join_chunks batch) taken
                  (flush_batch services now sync partial batch taken) done refl))
      ]

  flush_once-config :
      (accepted : Bytes) (now : ℕ) (sync partial : Bool) (w : AsyncWriter D)
      → Accounts content accepted w
      → rotation_enabled w.config ≡ false
      → (flush_once services now sync partial w).1.config ≡ w.config
  unfolding flush_once take_batch
  flush_once-config accepted now sync partial w h off =
      elim (Bool-cases (w.flush_in_progress || pending_entries w == 0)) [
        | inl idle ↦ rw idle refl
        | inr flushing ↦
            let taken = (take_batch w).1 in
            rw flushing (
              settle-config (h.stream ++ join_chunks w.pending) taken
                (flush_batch services now sync partial w.pending taken)
                (flush_batch-Flushed services content law now sync partial w.pending taken h.stream
                  h.holds off))
      ]

  flush_background-Accounts :
      (accepted : Bytes) (now : ℕ) (sync partial : Bool) (w : AsyncWriter D)
      → Accounts content accepted w
      → rotation_enabled w.config ≡ false
      → Accounts content accepted (flush_background services now sync partial w).1
  unfolding flush_background
  flush_background-Accounts accepted now sync partial w h off =
      elim (Bool-cases (w.stopping || w.flush_in_progress || pending_entries w == 0)) [
        | inl idle ↦ rw idle h
        | inr flushing ↦ rw flushing (flush_once-Accounts accepted now sync partial w h off)
      ]

  flush_if_full-Accounts :
      (accepted : Bytes) (now : ℕ) (w : AsyncWriter D)
      → Accounts content accepted w
      → rotation_enabled w.config ≡ false
      → Accounts content accepted (flush_if_full services now w).1
  unfolding flush_if_full
  flush_if_full-Accounts accepted now w h off =
      elim (Bool-cases
        (leb w.config.batch_size (pending_entries w) || above_backpressure_limit w)) [
          | inl full ↦
              rw full
                (flush_background-Accounts accepted now (sync_of w.config.ack_mode) true w h off)
          | inr few ↦ rw few h
        ]

  count_wait-Accounts :
      (accepted : Bytes) (w : AsyncWriter D)
      → Accounts content accepted w
      → Accounts content accepted (count_wait w)
  unfolding count_wait
  count_wait-Accounts accepted w h = elim (Bool-cases (must_wait w)) [
    | inl wait ↦
        rw wait
          (record { stream = h.stream; holds = h.holds; whole = h.whole; counted = h.counted })
    | inr go ↦ rw go h
  ]

  -- A message that is submitted before `stop` is accounted for once, behind all that were accepted
  -- before it, also when the flush that it sets off throws; after `stop` nothing changes.
  pub submit-Accounts :
      (accepted : Bytes) (now shard_id : ℕ) (timestamp : Bytes) (message : LogMessage)
      (w : AsyncWriter D)
      → Accounts content accepted w
      → rotation_enabled w.config ≡ false
      → Accounts content
          (if w.stopping then accepted else accepted ++ record_of shard_id timestamp message w)
          (submit services now shard_id timestamp message w).1
  unfolding submit submit_record format_record
  submit-Accounts accepted now shard_id timestamp message w h off =
      let after = accepted ++ record_of shard_id timestamp message w in
      let flushed = flush_if_full services now (submit_record shard_id timestamp message w) in
      let result : Bool × AsyncWriter D =
        if flushed.0 then (true, count_wait flushed.1) else (false, flushed.1) in
      let kept : Accounts content after flushed.1 =
        flush_if_full-Accounts after now (submit_record shard_id timestamp message w)
          (submit_record-Accounts content accepted shard_id timestamp message w h) off in
      let settled : Accounts content after result.1 = elim (Bool-cases flushed.0) [
        | inl done ↦ rw done (count_wait-Accounts after flushed.1 kept)
        | inr failed ↦ rw failed kept
      ] in
      let P : Bool → Type 0 =
        λ b. Accounts content (if b then accepted else after) (if b then (true, w) else result).1 in
      elim (Bool-cases w.stopping) [
        | inl stopping ↦ subst P (sym stopping) h
        | inr running ↦ subst P (sym running) settled
      ]
