-- ===== src/Append/Stream/Batch.antt =====
-- `append_batch` of src/append_writer.cc on the stream that the writer holds.
use mathlib.Core.Path.{subst}
use native.Mathlib.Nat.{div-mul-le_self}
use seastar_log_engine.Prelude.{
  ℕ, ◌+◌, ◌-◌, ◌*◌, ◌/◌, ◌<◌, ◌≡◌, refl, sym, ap, ◌∙◌, inl, inr, Bool, true, false, Bool-cases,
  List, [], ◌++◌, append_assoc, arith, Bytes, length, length-append, length-take, length-drop, take,
  drop, ltb, ◌==◌, if◌then◌else◌, take-append-drop,
}
use seastar_log_engine.Recovery.Stream.Whole.{join_chunks}
use seastar_log_engine.Append.Chunks.{
  join_chunks-append, batch_bytes_lem, collect_remaining_chunks_lem,
}
use seastar_log_engine.Append.Device.{IsFile}
use seastar_log_engine.Append.Write.{Starts, write_aligned_buffer-Starts}
use seastar_log_engine.Append.{
  FileOps, AppendWriter, write_aligned_buffer, append_pending_batch, append_batch, batch_bytes,
  collect_remaining_chunks,
}
use seastar_log_engine.Append.Stream.{
  Holds, blocks-aligned, blocks-few, aligned-add, flush_blocks, in_file, length-in_file,
  in_file-Starts, Holds-grown, Holds-file,
}

module _ {D : Type 0} (ops : FileOps D) (batch : List Bytes) (sync : Bool)
    (w : AppendWriter D) where
  -- All the bytes that are not in the file, and those of them that fill blocks.
  pending : Bytes
  pending = join_chunks w.tail_chunks ++ join_chunks batch

  pending_bytes : ℕ
  pending_bytes = w.tail_bytes + batch_bytes batch

  block_bytes : ℕ
  unfolding pending_bytes
  block_bytes = pending_bytes / w.alignment * w.alignment

  grown : AppendWriter D
  grown = record w { logical_size = w.logical_size + batch_bytes batch }

  write_blocks : Bool × AppendWriter D
  unfolding pending block_bytes grown
  write_blocks = write_aligned_buffer ops (take block_bytes pending) block_bytes sync grown

  append_batch-kept :
      block_bytes ≡ 0
      → append_batch ops batch sync w ≡ (
        true,
        [],
        record w {
          logical_size = w.logical_size + batch_bytes batch;
          tail_chunks = w.tail_chunks ++ batch;
          tail_bytes = w.tail_bytes + batch_bytes batch;
        },
      )
  unfolding append_batch append_pending_batch block_bytes
  append_batch-kept e = rw e refl

  append_batch-blocks :
      0 < block_bytes
      → append_batch ops batch sync w ≡ (
          if write_blocks.0
          then (
            true,
            [],
            record write_blocks.1 {
              write_offset = write_blocks.1.write_offset + block_bytes;
              tail_chunks = collect_remaining_chunks write_blocks.1.tail_chunks batch block_bytes;
              tail_bytes = pending_bytes - block_bytes;
            },
          )
          else (
            false,
            batch,
            record write_blocks.1 {
              logical_size = write_blocks.1.logical_size - batch_bytes batch;
            },
          ))
  unfolding append_batch append_pending_batch write_blocks pending_bytes block_bytes grown pending
  append_batch-blocks pos =
      let positive : ltb 0 block_bytes ≡ true = ground arith in
      rw
        (
          flush_blocks ops w.tail_chunks batch block_bytes sync grown pos
              (blocks-aligned pending_bytes w.alignment),
          positive,
        )
        (elim (Bool-cases write_blocks.0) [ inl done ↦ rw done refl | inr failed ↦ rw failed refl ])

module _ {D : Type 0} (ops : FileOps D) (content : D → Bytes) (law : IsFile ops content) where
  -- What a call of `append_batch` leaves.
  abbrev Appends : Bytes → List Bytes → Bool × List Bytes × AppendWriter D → Type 0
  Appends stream batch result =
      Holds content (if result.0 then stream ++ join_chunks batch else stream) result.2
      × (result.1 ≡ (if result.0 then [] else batch))

  module _ (stream : Bytes) (batch : List Bytes) (sync : Bool) (w : AppendWriter D)
      (h : Holds content stream w) where
    length-pending : length (pending ops batch sync w) ≡ pending_bytes ops batch sync w
    unfolding pending pending_bytes
    length-pending = omega (
      arith,
      h.counted,
      batch_bytes_lem batch,
      length-append (join_chunks w.tail_chunks) (join_chunks batch),
    )

    stream-pending : in_file content w ++ pending ops batch sync w ≡ stream ++ join_chunks batch
    unfolding in_file pending
    stream-pending =
        sym (
          append_assoc (take w.write_offset (content w.file)) (join_chunks w.tail_chunks)
            (join_chunks batch))
        ∙ ap (λ s. s ++ join_chunks batch) h.stored

    kept_writer : AppendWriter D
    kept_writer = record w {
      logical_size = w.logical_size + batch_bytes batch;
      tail_chunks = w.tail_chunks ++ batch;
      tail_bytes = w.tail_bytes + batch_bytes batch;
    }

    Appends-kept :
        block_bytes ops batch sync w ≡ 0 → Appends stream batch (append_batch ops batch sync w)
    unfolding block_bytes pending_bytes pending kept_writer
    Appends-kept zeroed =
        let size = length-pending in
        let joined = join_chunks-append w.tail_chunks batch in
        subst (Appends stream batch) (sym (append_batch-kept ops batch sync w zeroed)) (
          (
            subst (λ s. Holds content s kept_writer) stream-pending
                (Holds-grown ops content law (in_file content w) (pending ops batch sync w)
                  kept_writer h.is_open h.has_blocks h.buffered
                  (sym (length-in_file content stream w h)) h.aligned
                  (omega (arith, size, ap length joined))
                  (omega (
                    arith,
                    zeroed,
                    blocks-few (w.tail_bytes + batch_bytes batch) w.alignment h.has_blocks,
                  ))
                  (omega (arith, h.sized)) joined (in_file-Starts ops content law stream w h)),
            refl,
          ))

    blocks_written : Bytes
    unfolding pending block_bytes
    blocks_written = take (block_bytes ops batch sync w) (pending ops batch sync w)

    length-blocks_written : length blocks_written ≡ block_bytes ops batch sync w
    unfolding blocks_written block_bytes
    length-blocks_written = omega (
      arith,
      length-take (block_bytes ops batch sync w) (pending ops batch sync w),
      length-pending,
      div-mul-le_self (pending_bytes ops batch sync w) w.alignment,
    )

    blocks-Starts :
        let result = write_blocks ops batch sync w in
        Starts ops content law (in_file content w) result.1.file
        × (result.0 ≡ true
            → Starts ops content law (in_file content w ++ blocks_written) result.1.file)
    unfolding write_blocks grown blocks_written
    blocks-Starts =
        write_aligned_buffer-Starts ops content law (in_file content w) blocks_written
          (block_bytes ops batch sync w) sync (grown ops batch sync w) h.has_blocks
          (sym (length-in_file content stream w h)) (sym length-blocks_written)
          (in_file-Starts ops content law stream w h)

    written_writer : AppendWriter D
    written_writer = record w {
      file = (write_blocks ops batch sync w).1.file;
      logical_size = w.logical_size + batch_bytes batch;
      write_offset = w.write_offset + block_bytes ops batch sync w;
      tail_chunks = collect_remaining_chunks w.tail_chunks batch (block_bytes ops batch sync w);
      tail_bytes = pending_bytes ops batch sync w - block_bytes ops batch sync w;
    }

    failed_writer : AppendWriter D
    failed_writer = record w { file = (write_blocks ops batch sync w).1.file }

    written_writer-Holds :
        (write_blocks ops batch sync w).0 ≡ true
        → Holds content (stream ++ join_chunks batch) written_writer
    unfolding written_writer pending_bytes block_bytes blocks_written pending
    written_writer-Holds done =
        let size = block_bytes ops batch sync w in
        let left = collect_remaining_chunks_lem w.tail_chunks batch size in
        let le = div-mul-le_self (w.tail_bytes + batch_bytes batch) w.alignment in
        subst (λ s. Holds content s written_writer)
          (append_assoc (in_file content w) blocks_written (drop size (pending ops batch sync w))
            ∙ ap (λ s. in_file content w ++ s) (take-append-drop size (pending ops batch sync w))
            ∙ stream-pending)
          (Holds-grown ops content law (in_file content w ++ blocks_written)
            (drop size (pending ops batch sync w)) written_writer h.is_open h.has_blocks h.buffered
            (omega (
              arith,
              length-append (in_file content w) blocks_written,
              length-in_file content stream w h,
              length-blocks_written,
            ))
            (aligned-add w.write_offset size w.alignment h.aligned
              (blocks-aligned (w.tail_bytes + batch_bytes batch) w.alignment))
            (omega
              (arith, ap length left, length-drop size (pending ops batch sync w), length-pending))
            (blocks-few (w.tail_bytes + batch_bytes batch) w.alignment h.has_blocks)
            (omega (arith, h.sized, le)) left (blocks-Starts.1 done))

    failed_writer-Holds : Holds content stream failed_writer
    unfolding failed_writer
    failed_writer-Holds =
        Holds-file ops content law stream w (write_blocks ops batch sync w).1.file h blocks-Starts.0

    Appends-blocks :
        0 < block_bytes ops batch sync w → Appends stream batch (append_batch ops batch sync w)
    unfolding written_writer failed_writer write_blocks grown write_aligned_buffer
    Appends-blocks pos =
        subst (Appends stream batch) (sym (append_batch-blocks ops batch sync w pos))
          (elim (Bool-cases (write_blocks ops batch sync w).0) [
            | inl done ↦ rw done (written_writer-Holds done, refl)
            | inr failed ↦ rw failed (
              subst (λ n. Holds content stream (record failed_writer { logical_size = n }))
                  {x = w.logical_size} (omega arith) failed_writer-Holds,
              refl,
            )
          ])

  -- A batch is taken whole or not at all: where the call returns, the stream has grown by the batch
  -- and the caller's batch is empty; where it throws, the stream is what it was, and the batch is
  -- still the caller's.
  pub append_batch-Holds :
      (stream : Bytes) (batch : List Bytes) (sync : Bool) (w : AppendWriter D)
      → Holds content stream w
      → let result = append_batch ops batch sync w in
        Holds content (if result.0 then stream ++ join_chunks batch else stream) result.2
        × (result.1 ≡ (if result.0 then [] else batch))
  append_batch-Holds stream batch sync w h = elim (Bool-cases (block_bytes ops batch sync w == 0)) [
    | inl few ↦ Appends-kept stream batch sync w h (ground arith)
    | inr blocks ↦ Appends-blocks stream batch sync w h (ground arith)
  ]
