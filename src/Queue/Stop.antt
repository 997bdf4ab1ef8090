-- ===== src/Queue/Stop.antt =====
-- `stop` of src/async_writer.cc: its loop ends, and what it leaves in the file.
use mathlib.Core.Path.{subst}
use seastar_log_engine.Prelude.{
  ℕ, ◌≡◌, refl, sym, ap, ◌∙◌, inl, inr, Bool, true, false, Bool-cases, not, ◌||◌, Option, none,
  some, List, [], ◌∷◌, ◌++◌, append-nil, arith, Bytes, length, ◌==◌, if◌then◌else◌,
}
use seastar_log_engine.Config.{rotation_enabled}
use seastar_log_engine.Recovery.Stream.Whole.{join_chunks}
use seastar_log_engine.Append
use seastar_log_engine.Append.{AppendWriter, batch_bytes}
use seastar_log_engine.Append.Device.{IsFile}
use seastar_log_engine.Append.Stream.{Holds}
use seastar_log_engine.Append.Stream.Close.{IsSealed, flush_tail-IsSealed}
use seastar_log_engine.Append.Stream.End.{IsClosed, close-IsSealed, force_flush-empty}
use seastar_log_engine.Queue.{
  Services, AsyncWriter, pending_entries, take_batch, settle, flush_failed, flush_batch, flush_once,
  persist_checkpoint, drain, finish, stop, persist_if_enabled,
}
use seastar_log_engine.Queue.Invariant.{Accounts, flush_batch-Flushed, KeepsFile}
use seastar_log_engine.Queue.Flush.{flush_once-Accounts}

or-right : (a b : Bool) → a ≡ false → (a || b) ≡ true → b ≡ true
or-right true b e h = absurd (cc e)
or-right false b e h = h

length-zero : (xs : List Bytes) → (length xs == 0) ≡ true → xs ≡ []
length-zero [] h = refl
length-zero (s ∷ xs) h = absurd (ground arith)

settle-done :
    {D : Type 0} (result : Bool × List Bytes × AsyncWriter D)
    → (settle result).0 ≡ true
    → (result.0 ≡ true) × ((settle result).1.pending ≡ result.2.pending)
unfolding settle
settle-done (true, left, w) h = (refl, refl)
settle-done (false, left, w) h = absurd (cc h)

settle-free :
    {D : Type 0} (result : Bool × List Bytes × AsyncWriter D)
    → (settle result).1.flush_in_progress ≡ false
unfolding settle flush_failed
settle-free (true, left, w) = refl
settle-free (false, left, w) = refl

module _ {D : Type 0} (services : Services D) (content : D → Bytes)
    (law : IsFile services.file_ops content) where
  -- A flush that returns has emptied the queue, and is over.
  flush_once-empties :
      (accepted : Bytes) (now : ℕ) (w : AsyncWriter D)
      → Accounts content accepted w
      → rotation_enabled w.config ≡ false
      → w.flush_in_progress ≡ false
      → (flush_once services now true true w).0 ≡ true
      → (flush_once services now true true w).1.pending ≡ []
  unfolding flush_once take_batch settle pending_entries
  flush_once-empties accepted now w h off free done =
      let taken = (take_batch w).1 in
      let result = flush_batch services now true true w.pending taken in
      let f =
        flush_batch-Flushed services content law now true true w.pending taken h.stream h.holds
          off in
      elim (Bool-cases (w.flush_in_progress || length w.pending == 0)) [
        | inl idle ↦
            rw idle (
              length-zero w.pending
                (or-right w.flush_in_progress (length w.pending == 0) free idle))
        | inr flushing ↦
            let over : (settle result).0 ≡ true = rw flushing at done in
            rw flushing ((settle-done result over).1 ∙ f.same_pending)
      ]

  -- Two rounds of the loop are enough: the first empties the queue or throws.
  drain-ends :
      (accepted : Bytes) (now : ℕ) (w : AsyncWriter D)
      → Accounts content accepted w
      → rotation_enabled w.config ≡ false
      → w.flush_in_progress ≡ false
      → (r : Bool × AsyncWriter D) × (drain services 2 now w ≡ some r)
        × Accounts content accepted r.1
        × (r.0 ≡ true → r.1.pending ≡ [])
  unfolding drain pending_entries
  drain-ends accepted now w h off free =
      let flushed = flush_once services now true true w in
      let kept = flush_once-Accounts services content law accepted now true true w h off in
      elim (Bool-cases (length w.pending == 0)) [
        | inl empty ↦ ((true, w), rw empty refl, h, λ _. length-zero w.pending empty)
        | inr waiting ↦ elim (Bool-cases flushed.0) [
          | inr failed ↦ ((false, flushed.1), rw (waiting, failed) refl, kept, λ e. absurd (cc e))
          | inl done ↦
              let gone = flush_once-empties accepted now w h off free done in
              let zeroed : (length flushed.1.pending == 0) ≡ true = ap (λ p. length p == 0) gone in
              ((true, flushed.1), rw (waiting, done, zeroed) refl, kept, λ _. gone)
        ]
      ]

  force_flush-IsSealed :
      (stream : Bytes) (w : AppendWriter D)
      → IsSealed content stream w
      → IsSealed content stream (Append.force_flush services.file_ops true w).1
  force_flush-IsSealed stream w h =
      subst (λ r. IsSealed content stream r.1)
        (sym (force_flush-empty services.file_ops content law true w h.is_open h.no_tail))
        (record {
          is_open = h.is_open;
          has_blocks = h.has_blocks;
          no_chunks = h.no_chunks;
          no_tail = h.no_tail;
          sized = h.sized;
          stored = law.flush-content w.file ∙ h.stored;
        })

  persist_checkpoint-IsSealed :
      (keeps : KeepsFile services content) (stream : Bytes) (w : AsyncWriter D)
      → IsSealed content stream w.append_writer
      → IsSealed content stream (persist_checkpoint services w).1.append_writer
  unfolding persist_checkpoint
  persist_checkpoint-IsSealed keeps stream w h =
      let forced = Append.force_flush services.file_ops true w.append_writer in
      let sealed = force_flush-IsSealed stream w.append_writer h in
      elim (Bool-cases forced.0) [
        | inl done ↦ rw done (record {
          is_open = sealed.is_open;
          has_blocks = sealed.has_blocks;
          no_chunks = sealed.no_chunks;
          no_tail = sealed.no_tail;
          sized = sealed.sized;
          stored = keeps _ forced.1.file ∙ sealed.stored;
        })
        | inr failed ↦ rw failed sealed
      ]

  persist_if_enabled-IsSealed :
      (keeps : KeepsFile services content) (stream : Bytes) (w : AsyncWriter D)
      → IsSealed content stream w.append_writer
      → IsSealed content stream (persist_if_enabled services w).1.append_writer
  unfolding persist_if_enabled
  persist_if_enabled-IsSealed keeps stream w h =
      let P : Bool → Type 0 = λ b.
        IsSealed content stream
          (if b then persist_checkpoint services w else (true, w)).1.append_writer in
      elim (Bool-cases w.config.checkpoint_enabled) [
        | inl on ↦ subst P (sym on) (persist_checkpoint-IsSealed keeps stream w h)
        | inr off ↦ subst P (sym off) h
      ]

  finish-IsClosed :
      (keeps : KeepsFile services content) (stream : Bytes) (w : AsyncWriter D)
      → Holds content stream w.append_writer
      → (finish services w).0 ≡ true
      → IsClosed content stream (finish services w).1.append_writer
  unfolding finish
  finish-IsClosed keeps stream w h done =
      let flushed = Append.flush_tail services.file_ops true w.append_writer in
      let w' = record w { append_writer = flushed.1 } in
      let persisted = persist_if_enabled services w' in
      let closed = Append.close services.file_ops persisted.1.append_writer in
      elim (Bool-cases flushed.0) [
        | inr failed ↦ absurd (ground arith)
        | inl sealed ↦ elim (Bool-cases persisted.0) [
          | inr failed ↦ absurd (ground arith)
          | inl stored ↦ elim (Bool-cases closed.0) [
            | inr failed ↦ absurd (ground arith)
            | inl shut ↦
                rw (sealed, stored, shut)
                  (close-IsSealed services.file_ops content law stream persisted.1.append_writer
                    (persist_if_enabled-IsSealed keeps stream w' (
                      flush_tail-IsSealed services.file_ops content law stream w.append_writer h
                        sealed))
                    shut)
          ]
        ]
      ]

  module _ (accepted : Bytes) (now : ℕ) (w : AsyncWriter D) (h : Accounts content accepted w)
      (off : rotation_enabled w.config ≡ false) (free : w.flush_in_progress ≡ false)
      (running : w.started ≡ true) where
    -- What the loop leaves, and what `stop` does with it.
    stop-drained :
        (r : Bool × AsyncWriter D) × (stop services 2 now w
          ≡ some (if r.0 then finish services r.1 else (false, r.1)))
        × Accounts content accepted r.1
        × (r.0 ≡ true → r.1.pending ≡ [])
    unfolding stop
    stop-drained =
        let stopping = record w { stopping = true } in
        let held : Accounts content accepted stopping = record {
          stream = h.stream;
          holds = h.holds;
          whole = h.whole;
          counted = h.counted;
        } in
        let ended = drain-ends accepted now stopping held off free in
        let P : Bool → Type 0 = λ b.
          (if not b
            then some (true, w)
            else elim (drain services 2 now stopping) as (λ d. Option (Bool × AsyncWriter D)) [
              | none ↦ none
              | some (done, w') ↦ some (if done then finish services w' else (false, w'))
            ])
          ≡ some (if ended.0.0 then finish services ended.0.1 else (false, ended.0.1)) in
        (ended.0, subst P (sym running) (rw ended.1 refl), ended.2, ended.3)

    ended : Bool × AsyncWriter D
    ended = let r = stop-drained.0 in if r.0 then finish services r.1 else (false, r.1)

    ended-IsClosed :
        (keeps : KeepsFile services content)
        → ended.0 ≡ true
        → IsClosed content accepted ended.1.append_writer
    unfolding ended join_chunks
    ended-IsClosed keeps =
        let r = stop-drained.0 in
        let kept = stop-drained.2 in
        elim (Bool-cases r.0) [
          | inr failed ↦ rw failed (λ e. absurd (cc e))
          | inl done ↦
              let whole : kept.stream ≡ accepted =
                sym (append-nil kept.stream)
                ∙ ap (λ p. kept.stream ++ join_chunks p) (sym (stop-drained.3 done))
                ∙ kept.whole in
              rw done (
                finish-IsClosed keeps accepted r.1
                  (subst (λ s. Holds content s r.1.append_writer) whole kept.holds))
        ]

    -- `stop` of a started writer comes to an end: two rounds of its loop are enough, whether the calls
    -- of the file return or fail. Hypotheses: the writer accounts for its bytes over a file that keeps
    -- its laws, no rotation is configured, and no flush is under way.
    pub stop-ends : (r : Bool × AsyncWriter D) × (stop services 2 now w ≡ some r)
    stop-ends = (_, stop-drained.1)

    -- When `stop` returns without an exception, the file holds every byte that was accepted, in the
    -- order of the submissions, and nothing else. Hypotheses: no rotation is configured, no flush is
    -- under way, and storing a checkpoint leaves the log file alone.
    pub stop-stores :
        (keeps : KeepsFile services content) {after : AsyncWriter D}
        → stop services 2 now w ≡ some (true, after)
        → IsClosed content accepted after.append_writer
    unfolding ended
    stop-stores keeps {after} e =
        let same : ended ≡ (true, after) =
          ap (λ o. elim o as (λ p. Bool × AsyncWriter D) [ none ↦ (true, after) | some r ↦ r ])
            {x = some ended} (sym stop-drained.1 ∙ e) in
        subst (λ r. r.0 ≡ true → IsClosed content accepted r.1.append_writer) same
          (ended-IsClosed keeps) refl
