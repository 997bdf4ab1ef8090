-- ===== src/Append/Stream/End.antt =====
-- `close`, `force_flush` and `truncate_to` of src/append_writer.cc on the stream that the writer holds.
use mathlib.Core.Path.{subst}
use native.Mathlib.Nat.{mod-lt, mod-le, mul-mod_left, div-add-mod'}
use seastar_log_engine.Prelude.{
  ℕ, suc, ◌-◌, ◌*◌, ◌/◌, ◌%◌, ◌≤◌, ◌<◌, ◌≡◌, refl, sym, ap, ◌∙◌, inl, inr, Bool, true, false,
  Bool-cases, [], ◌∷◌, ◌++◌, append-nil, arith, Bytes, length, length-take, take, drop, ◌==◌,
  if◌then◌else◌, take-append-drop,
}
use seastar_log_engine.Recovery.Stream.Whole.{join_chunks}
use seastar_log_engine.Append.Chunks.{for_each_chunk_prefix_lem, take-all}
use seastar_log_engine.Append.Device.{IsFile}
use seastar_log_engine.Append.Write.{Starts, Starts-mono}
use seastar_log_engine.Append.{
  FileOps, AppendWriter, write_aligned_buffer, flush_tail, close, force_flush, truncate_to,
}
use seastar_log_engine.Append.Stream.{Holds, in_file, in_file-Starts, Holds-grown, Holds-file}
use seastar_log_engine.Append.Stream.Close.{
  IsSealed, align_up-few, cut_file-IsSealed, flush_tail-empty, flush_tail-IsSealed, padded_tail,
  tail_write, tail_write-Starts,
}

-- What a call of `close` that returns leaves.
pub record IsClosed {D : Type 0} (content : D → Bytes) (stream : Bytes) (w : AppendWriter D)
    : Type 0 where
  pub is_shut : w.file_open ≡ false
  pub sized : w.logical_size ≡ length stream
  pub stored : content w.file ≡ stream

module _ {D : Type 0} (ops : FileOps D) (content : D → Bytes) (law : IsFile ops content) where
  -- A sealed writer may be flushed again: nothing is written, and the file keeps its size.
  pub flush_tail-IsSealed_again :
      (stream : Bytes) (w : AppendWriter D)
      → IsSealed content stream w
      → (flush_tail ops true w).0 ≡ true
      → IsSealed content stream (flush_tail ops true w).1
  flush_tail-IsSealed_again stream w h =
      let again = flush_tail-empty ops content law w h.is_open h.no_tail h.has_blocks in
      let starts : Starts ops content law stream w.file =
        take-all (length stream) (content w.file) (omega (arith, ap length h.stored)) ∙ h.stored in
      subst (λ r. r.0 ≡ true → IsSealed content stream r.1) (sym again)
        (cut_file-IsSealed ops content law stream w h.is_open h.has_blocks h.no_chunks h.no_tail
          h.sized starts)

  close-returned :
      (w : AppendWriter D)
      → w.file_open ≡ true
      → (flush_tail ops true w).0 ≡ true
      → (ops.close (flush_tail ops true w).1.file).0 ≡ true
      → close ops w ≡ (
        true,
        record (flush_tail ops true w).1 {
          file = (ops.close (flush_tail ops true w).1.file).1;
          file_open = false;
        },
      )
  unfolding close
  close-returned w opened flushed closed = ground (arith, opened, flushed, closed)

  close-IsClosed :
      (stream : Bytes) (w : AppendWriter D)
      → w.file_open ≡ true
      → ((flush_tail ops true w).0 ≡ true → IsSealed content stream (flush_tail ops true w).1)
      → (close ops w).0 ≡ true
      → IsClosed content stream (close ops w).1
  unfolding close
  close-IsClosed stream w opened flushed done = elim (Bool-cases (flush_tail ops true w).0) [
    | inr failed ↦ absurd (ground arith)
    | inl returned ↦
        let sealed = flushed returned in
        elim (Bool-cases (ops.close (flush_tail ops true w).1.file).0) [
          | inr failed ↦ absurd (ground arith)
          | inl closed ↦
              subst (λ r. IsClosed content stream r.1)
                (sym (close-returned w opened returned closed))
                (record {
                  is_shut = refl;
                  sized = sealed.sized;
                  stored = law.close-content (flush_tail ops true w).1.file ∙ sealed.stored;
                })
        ]
  ]

  -- A writer that is closed without an exception leaves a file with the bytes that were appended, in
  -- their order, and no others.
  pub close-Holds :
      (stream : Bytes) (w : AppendWriter D)
      → Holds content stream w
      → (close ops w).0 ≡ true
      → IsClosed content stream (close ops w).1
  close-Holds stream w h =
      close-IsClosed stream w h.is_open (flush_tail-IsSealed ops content law stream w h)

  -- The same after a call of `flush_tail`, as `stop` and the rotation do it.
  pub close-IsSealed :
      (stream : Bytes) (w : AppendWriter D)
      → IsSealed content stream w
      → (close ops w).0 ≡ true
      → IsClosed content stream (close ops w).1
  close-IsSealed stream w h =
      close-IsClosed stream w h.is_open (flush_tail-IsSealed_again stream w h)

  force_flush-write :
      (stream : Bytes) (sync : Bool) (w : AppendWriter D) (h : Holds content stream w)
      → 0 < w.tail_bytes
      → force_flush ops sync w ≡ tail_write ops content law stream w h sync
  unfolding force_flush tail_write padded_tail join_chunks
  force_flush-write stream sync w h more =
      rw (for_each_chunk_prefix_lem w.tail_chunks [] w.tail_bytes) (ground (arith, h.is_open, more))

  pub force_flush-empty :
      (sync : Bool) (w : AppendWriter D)
      → w.file_open ≡ true
      → w.tail_bytes ≡ 0
      → force_flush ops sync w ≡ (
          if sync
          then ((ops.flush w.file).0, record w { file = (ops.flush w.file).1 })
          else (true, w))
  unfolding force_flush
  force_flush-empty sync w opened empty = ground (arith, opened, empty)

  flushed-Starts :
      (s : Bytes) (file : D)
      → Starts ops content law s file
      → Starts ops content law s (ops.flush file).1
  flushed-Starts s file starts = ap (take (length s)) (law.flush-content file) ∙ starts

  module _ (stream : Bytes) (w : AppendWriter D) (h : Holds content stream w) where
    -- A forced flush writes over what the file has behind the stream's part of it.
    abbrev Flushes : Bool × AppendWriter D → Type 0
    Flushes result =
        Holds content stream result.1
        × (result.0 ≡ true → Starts ops content law stream result.1.file)

    empty-Starts : w.tail_bytes ≡ 0 → Starts ops content law stream w.file
    unfolding in_file
    empty-Starts empty =
        let none = take-all 0 (join_chunks w.tail_chunks) (omega (arith, h.counted, empty)) in
        let whole : in_file content w ≡ stream =
          sym (append-nil (in_file content w)) ∙ ap (λ s. in_file content w ++ s) none ∙ h.stored in
        subst (λ s. Starts ops content law s w.file) whole
          (in_file-Starts ops content law stream w h)

    empty-Flushes :
        (sync : Bool)
        → w.tail_bytes ≡ 0
        → Flushes (
            if sync
            then ((ops.flush w.file).0, record w { file = (ops.flush w.file).1 })
            else (true, w))
    empty-Flushes true empty = (
      Holds-file ops content law stream w (ops.flush w.file).1 h
          (flushed-Starts (in_file content w) w.file (in_file-Starts ops content law stream w h)),
      λ _. flushed-Starts stream w.file (empty-Starts empty),
    )
    empty-Flushes false empty = (h, λ _. empty-Starts empty)

    tail-Flushes :
        (sync : Bool) → 0 < w.tail_bytes → Flushes (tail_write ops content law stream w h sync)
    unfolding tail_write write_aligned_buffer
    tail-Flushes sync more =
        let one = align_up-few w.tail_bytes w.alignment more h.few in
        let starts =
          tail_write-Starts ops content law stream w h sync (omega (arith, one, h.few)) in
        (Holds-file ops content law stream w _ h starts.0, starts.1)

    force_flush-Flushes : (sync : Bool) → Flushes (force_flush ops sync w)
    force_flush-Flushes sync = elim (Bool-cases (w.tail_bytes == 0)) [
      | inl few ↦
          let empty : w.tail_bytes ≡ 0 = ground arith in
          subst Flushes (sym (force_flush-empty sync w h.is_open empty)) (empty-Flushes sync empty)
      | inr more ↦
          subst Flushes (sym (force_flush-write stream sync w h (ground arith)))
            (tail-Flushes sync (ground arith))
    ]

  -- Whatever becomes of a forced flush, the writer stands for the same stream.
  pub force_flush-Holds :
      (stream : Bytes) (sync : Bool) (w : AppendWriter D)
      → Holds content stream w
      → Holds content stream (force_flush ops sync w).1
  force_flush-Holds stream sync w h = (force_flush-Flushes stream w h sync).0

  -- A forced flush that returns leaves a file that starts with the whole stream.
  pub force_flush-durable :
      (stream : Bytes) (sync : Bool) (w : AppendWriter D)
      → Holds content stream w
      → (force_flush ops sync w).0 ≡ true
      → take (length stream) (content (force_flush ops sync w).1.file) ≡ stream
  force_flush-durable stream sync w h = (force_flush-Flushes stream w h sync).1

  tail_chunk : (tail : Bytes) → join_chunks (if length tail == 0 then [] else tail ∷ []) ≡ tail
  unfolding join_chunks
  tail_chunk [] = refl
  tail_chunk (c ∷ tail) =
      let more : (suc (length tail) == 0) ≡ false = ground arith in rw more (append-nil (c ∷ tail))

  truncated_writer : ℕ → Bytes → AppendWriter D → AppendWriter D
  truncated_writer size tail w = record w {
    logical_size = size;
    tail_chunks = if length tail == 0 then [] else tail ∷ [];
    tail_bytes = length tail;
    write_offset = size - length tail;
    file = (ops.truncate size w.file).1;
  }

  truncate_to-open :
      (size : ℕ) (tail : Bytes) (w : AppendWriter D)
      → w.file_open ≡ true
      → truncate_to ops size tail w ≡ ((ops.truncate size w.file).0, truncated_writer size tail w)
  unfolding truncate_to truncated_writer
  truncate_to-open size tail w opened = ground (arith, opened)

  whole_blocks : (n alignment : ℕ) → (n - n % alignment) % alignment ≡ 0
  whole_blocks n alignment =
      ap (λ k. k % alignment) {y = n / alignment * alignment}
        (omega (arith, div-add-mod' n alignment))
      ∙ mul-mod_left (n / alignment) alignment

  truncated_writer-Holds :
      (stream tail : Bytes) (w : AppendWriter D)
      → w.file_open ≡ true
      → 0 < w.alignment
      → 0 < w.config.stream_buffer_size
      → take (length stream) (content w.file) ≡ stream
      → length tail ≡ length stream % w.alignment
      → drop (length stream - length tail) stream ≡ tail
      → (ops.truncate (length stream) w.file).0 ≡ true
      → Holds content stream (truncated_writer (length stream) tail w)
  unfolding truncated_writer
  truncated_writer-Holds stream tail w opened blocks buffered starts size cut truncated =
      let kept = length stream - length tail in
      let file = (ops.truncate (length stream) w.file).1 in
      let le : length tail ≤ length stream =
        omega (arith, size, mod-le (length stream) w.alignment) in
      let reached : length stream ≤ length (content w.file) =
        omega (arith, length-take (length stream) (content w.file), ap length starts) in
      let stored : content file ≡ stream =
        law.truncate-content (length stream) w.file reached truncated ∙ starts in
      let split = take-append-drop kept stream in
      subst (λ s. Holds content s (truncated_writer (length stream) tail w)) split
        (Holds-grown ops content law (take kept stream) (drop kept stream)
          (truncated_writer (length stream) tail w) opened blocks buffered
          (omega (arith, length-take kept stream))
          (ap (λ n. (length stream - n) % w.alignment) size
            ∙ whole_blocks (length stream) w.alignment)
          (ap length (sym (tail_chunk tail))) (omega (arith, size, mod-lt (length stream) blocks))
          (omega (arith, le)) (tail_chunk tail ∙ sym cut)
          (Starts-mono ops content law (take kept stream) (drop kept stream) file (
            subst (λ s. Starts ops content law s file) (sym split)
              (take-all (length stream) (content file) (omega (arith, ap length stored))
                ∙ stored))))

  -- A writer that is set to a stream in its file, with the bytes of the last, unfilled block as its
  -- tail, stands for that stream when the call returns.
  pub truncate_to-Holds :
      (stream tail : Bytes) (w : AppendWriter D)
      → w.file_open ≡ true
      → 0 < w.alignment
      → 0 < w.config.stream_buffer_size
      → take (length stream) (content w.file) ≡ stream
      → length tail ≡ length stream % w.alignment
      → drop (length stream - length tail) stream ≡ tail
      → (truncate_to ops (length stream) tail w).0 ≡ true
      → Holds content stream (truncate_to ops (length stream) tail w).1
  truncate_to-Holds stream tail w opened blocks buffered starts size cut done =
      let opens = truncate_to-open (length stream) tail w opened in
      subst (λ r. r.0 ≡ true → Holds content stream r.1) (sym opens)
        (truncated_writer-Holds stream tail w opened blocks buffered starts size cut) done
