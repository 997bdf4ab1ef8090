-- ===== src/Append/Stream.antt =====
-- The writer of src/append_writer.cc as a stream of bytes: what it holds, in the file and in memory.
pub mod Batch
pub mod Close
pub mod End
pub mod Start
use mathlib.Core.Path.{subst}
use native.Mathlib.Nat.{mod-lt, div-add-mod', mul-mod_left, mod-add-mod, div-mul-le_self}
use seastar_log_engine.Prelude.{
  ℕ, zero, suc, ◌+◌, ◌-◌, ◌*◌, ◌/◌, ◌%◌, ◌≤◌, ◌<◌, ◌≡◌, refl, sym, ap, ◌∙◌, inl, inr, Bool, true,
  false, Bool-cases, ◌&&◌, Option, none, some, List, [], ◌∷◌, ◌++◌, append-nil, append_assoc, min,
  max, arith, Bytes, length, length-append, length-take, length-drop, take, drop, leb, ltb, ◌==◌,
  if◌then◌else◌, take-length-append, take-append-drop, replicate,
}
use seastar_log_engine.Recovery.Stream.Whole.{join_chunks}
use seastar_log_engine.Append.Chunks.{
  join_chunks-append, batch_bytes_lem, for_each_chunk_prefix_lem, collect_remaining_chunks_lem,
  take-all,
}
use seastar_log_engine.Append.Device.{IsFile}
use seastar_log_engine.Append.Write.{Starts, write_aligned_buffer-Starts}
use seastar_log_engine.Append.{
  FileOps, AppendWriter, align_up, write_aligned_buffer, flush_chunks_prefix, append_pending_batch,
  append_batch, batch_bytes, collect_remaining_chunks,
}

-- The writer stands for a stream of bytes: whole blocks in the file, and fewer bytes than a block in
-- memory.
pub record Holds {D : Type 0} (content : D → Bytes) (stream : Bytes) (w : AppendWriter D)
    : Type 0 where
  pub is_open : w.file_open ≡ true
  pub has_blocks : 0 < w.alignment
  pub buffered : 0 < w.config.stream_buffer_size
  pub aligned : w.write_offset % w.alignment ≡ 0
  pub counted : w.tail_bytes ≡ length (join_chunks w.tail_chunks)
  pub few : w.tail_bytes < w.alignment
  pub sized : w.logical_size ≡ w.write_offset + w.tail_bytes
  pub reached : w.write_offset ≤ length (content w.file)
  pub stored : take w.write_offset (content w.file) ++ join_chunks w.tail_chunks ≡ stream

pub align_up-aligned : (n alignment : ℕ) → n % alignment ≡ 0 → align_up n alignment ≡ n
unfolding align_up
align_up-aligned n alignment h = ground arith

pub blocks-aligned : (n alignment : ℕ) → (n / alignment * alignment) % alignment ≡ 0
blocks-aligned n alignment = mul-mod_left (n / alignment) alignment

pub blocks-few : (n alignment : ℕ) → 0 < alignment → n - n / alignment * alignment < alignment
blocks-few n alignment h = omega (arith, div-add-mod' n alignment, mod-lt n h)

pub aligned-add :
    (a b alignment : ℕ) → a % alignment ≡ 0 → b % alignment ≡ 0 → (a + b) % alignment ≡ 0
aligned-add a b alignment h k =
    sym (mod-add-mod a alignment b)
    ∙ ap (λ n. (n + b) % alignment) h
    ∙ ap (λ n. n % alignment) {y = b} (omega arith)
    ∙ k

module _ {D : Type 0} (ops : FileOps D) where
  -- One write of the bytes, filled up with zeros to whole blocks.
  pub flush_chunks_prefix_lem :
      (first second : List Bytes) (bytes : ℕ) (sync : Bool) (w : AppendWriter D)
      → 0 < align_up bytes w.alignment
      → flush_chunks_prefix ops first second bytes false sync w ≡ (
          let padded = align_up bytes w.alignment in
          let result =
            write_aligned_buffer ops
              (take bytes (join_chunks first ++ join_chunks second) ++ replicate (padded - bytes) 0)
              padded
              sync
              w in
          if result.0
          then (true, record result.1 { write_offset = result.1.write_offset + padded })
          else (false, result.1))
  unfolding flush_chunks_prefix
  flush_chunks_prefix_lem first second bytes sync w pos =
      rw (for_each_chunk_prefix_lem first second bytes) (ground arith)

  -- Whole blocks need no zeros.
  pub flush_blocks :
      (first second : List Bytes) (bytes : ℕ) (sync : Bool) (w : AppendWriter D)
      → 0 < bytes
      → bytes % w.alignment ≡ 0
      → flush_chunks_prefix ops first second bytes false sync w ≡ (
          let result =
            write_aligned_buffer ops
              (take bytes (join_chunks first ++ join_chunks second))
              bytes
              sync
              w in
          if result.0
          then (true, record result.1 { write_offset = result.1.write_offset + bytes })
          else (false, result.1))
  flush_blocks first second bytes sync w pos whole =
      let same = align_up-aligned bytes w.alignment whole in
      let zeros : replicate {A = ℕ} (bytes - bytes) 0 ≡ [] =
        ap (λ n. replicate n 0) {y = 0} (omega arith) in
      flush_chunks_prefix_lem first second bytes sync w (rw same pos)
      ∙ rw (same, zeros, append-nil (take bytes (join_chunks first ++ join_chunks second))) refl

-- The part of the stream that is in the file.
unfoldable pub in_file : {D : Type 0} → (D → Bytes) → AppendWriter D → Bytes
in_file content w = take w.write_offset (content w.file)

pub length-in_file :
    {D : Type 0} (content : D → Bytes) (stream : Bytes) (w : AppendWriter D)
    → Holds content stream w
    → length (in_file content w) ≡ w.write_offset
unfolding in_file
length-in_file content stream w h =
    omega (arith, length-take w.write_offset (content w.file), h.reached)

module _ {D : Type 0} (ops : FileOps D) (content : D → Bytes) (law : IsFile ops content) where
  pub in_file-Starts :
      (stream : Bytes) (w : AppendWriter D)
      → Holds content stream w
      → Starts ops content law (in_file content w) w.file
  unfolding in_file
  in_file-Starts stream w h = ap (λ n. take n (content w.file)) (length-in_file content stream w h)

  -- A block later: the bytes that were written have left the memory.
  pub Holds-grown :
      (front rest : Bytes) (w : AppendWriter D)
      → w.file_open ≡ true
      → 0 < w.alignment
      → 0 < w.config.stream_buffer_size
      → w.write_offset ≡ length front
      → w.write_offset % w.alignment ≡ 0
      → w.tail_bytes ≡ length (join_chunks w.tail_chunks)
      → w.tail_bytes < w.alignment
      → w.logical_size ≡ w.write_offset + w.tail_bytes
      → join_chunks w.tail_chunks ≡ rest
      → Starts ops content law front w.file
      → Holds content (front ++ rest) w
  Holds-grown front rest w opened pos buffered offset whole counted few sized e starts = record {
    is_open = opened;
    has_blocks = pos;
    buffered = buffered;
    aligned = whole;
    counted = counted;
    few = few;
    sized = sized;
    reached = omega (arith, offset, length-take (length front) (content w.file), ap length starts);
    stored =
        ap (λ n. take n (content w.file) ++ join_chunks w.tail_chunks) offset
        ∙ ap (λ r. r ++ join_chunks w.tail_chunks) starts
        ∙ ap (λ r. front ++ r) e;
  }

  -- A write behind the stream's part of the file changes nothing.
  pub Holds-file :
      (stream : Bytes) (w : AppendWriter D) (file : D)
      → Holds content stream w
      → Starts ops content law (in_file content w) file
      → Holds content stream (record w { file = file })
  unfolding in_file
  Holds-file stream w file h starts =
      subst (λ s. Holds content s (record w { file = file })) h.stored
        (Holds-grown (in_file content w) (join_chunks w.tail_chunks) (record w { file = file })
          h.is_open h.has_blocks h.buffered (sym (length-in_file content stream w h)) h.aligned
          h.counted h.few h.sized refl starts)
