-- ===== src/Append/Stream/Close.antt =====
-- `flush_tail`, `close`, `force_flush` and `truncate_to` of src/append_writer.cc on the stream that the
-- writer holds.
use mathlib.Core.Path.{subst}
use native.Mathlib.Nat.{mod-eq_of_lt, mod-le}
use seastar_log_engine.Prelude.{
  ℕ, zero, suc, ◌+◌, ◌-◌, ◌*◌, ◌%◌, ◌≤◌, ◌<◌, ◌≡◌, refl, sym, ap, ◌∙◌, inl, inr, Bool, true, false,
  Bool-cases, [], ◌++◌, append-nil, append_assoc, max, arith, Bytes, length, length-append,
  length-take, take, leb, ltb, ◌==◌, if◌then◌else◌, replicate,
}
use seastar_log_engine.Recovery.Stream.Whole.{join_chunks}
use seastar_log_engine.Append.Chunks.{take-all}
use seastar_log_engine.Append.Device.{IsFile}
use seastar_log_engine.Append.Write.{Starts, write_aligned_buffer-Starts, Starts-mono}
use seastar_log_engine.Append.{
  FileOps, AppendWriter, align_up, write_aligned_buffer, flush_chunks_prefix,
}
use seastar_log_engine.Append.Stream.{
  Holds, align_up-aligned, flush_chunks_prefix_lem, in_file, length-in_file, in_file-Starts,
}
use seastar_log_engine.Append.{cut_file, flush_tail}

-- A writer whose file is the stream, with nothing left in memory.
pub record IsSealed {D : Type 0} (content : D → Bytes) (stream : Bytes) (w : AppendWriter D)
    : Type 0 where
  pub is_open : w.file_open ≡ true
  pub has_blocks : 0 < w.alignment
  pub no_chunks : join_chunks w.tail_chunks ≡ []
  pub no_tail : w.tail_bytes ≡ 0
  pub sized : w.logical_size ≡ length stream
  pub stored : content w.file ≡ stream

length-replicate : (n : ℕ) → length (replicate {A = ℕ} n 0) ≡ n
length-replicate zero = refl
length-replicate (suc n) = omega (arith, length-replicate n)

pub align_up-few : (n alignment : ℕ) → 0 < n → n < alignment → align_up n alignment ≡ alignment
unfolding align_up
align_up-few n alignment pos h =
    let few : n % alignment ≡ n = mod-eq_of_lt h in rw few (ground arith)

align_up-ge : (n alignment : ℕ) → 0 < n → alignment ≤ align_up n alignment
unfolding align_up
align_up-ge n alignment pos = elim (Bool-cases (ltb n alignment)) [
  | inl few ↦ let lt : n < alignment = ground arith in rw (mod-eq_of_lt lt) (ground arith)
  | inr many ↦ let le : alignment ≤ n = ground arith in ground (arith, mod-le n alignment)
]

-- The pieces of a long tail are never written one by one: a tail is shorter than a block.
pub pieces-blocks :
    (tail stream_buffer_size alignment : ℕ)
    → tail < alignment
    → 0 < stream_buffer_size
    → leb (max (align_up stream_buffer_size alignment * 2) alignment) (align_up tail alignment)
      ≡ false
unfolding align_up
pieces-blocks tail stream_buffer_size alignment few pos =
    let wide = align_up-ge stream_buffer_size alignment pos in
    elim (Bool-cases (tail == 0)) [
      | inl empty ↦
          let zeroed : tail ≡ 0 = ground arith in
          let blank : align_up tail alignment ≡ 0 =
            align_up-aligned tail alignment (mod-eq_of_lt few ∙ zeroed) ∙ zeroed in
          rw blank (ground (arith, wide))
      | inr more ↦
          let one = align_up-few tail alignment (ground arith) few in rw one (ground (arith, wide))
    ]

module _ {D : Type 0} (ops : FileOps D) (content : D → Bytes) (law : IsFile ops content) where
  pub cut_file-IsSealed :
      (stream : Bytes) (w : AppendWriter D)
      → w.file_open ≡ true
      → 0 < w.alignment
      → join_chunks w.tail_chunks ≡ []
      → w.tail_bytes ≡ 0
      → w.logical_size ≡ length stream
      → Starts ops content law stream w.file
      → (cut_file ops w).0 ≡ true
      → IsSealed content stream (cut_file ops w).1
  unfolding cut_file
  cut_file-IsSealed stream w opened blocks no_chunks no_tail size h done =
      elim (Bool-cases (ops.truncate w.logical_size w.file).0) [
        | inl returned ↦
            let reached : w.logical_size ≤ length (content w.file) =
              omega (arith, size, length-take (length stream) (content w.file), ap length h) in
            rw (cut_file, returned)
              (record {
                is_open = opened;
                has_blocks = blocks;
                no_chunks = no_chunks;
                no_tail = no_tail;
                sized = size;
                stored =
                    law.flush-content (ops.truncate w.logical_size w.file).1
                    ∙ law.truncate-content w.logical_size w.file reached returned
                    ∙ ap (λ n. take n (content w.file)) size
                    ∙ h;
              })
        | inr failed ↦ absurd (ground arith)
      ]

  cleared : AppendWriter D → AppendWriter D
  cleared w = record w { tail_chunks = []; tail_bytes = 0 }

  pub flush_tail-empty :
      (w : AppendWriter D)
      → w.file_open ≡ true
      → w.tail_bytes ≡ 0
      → 0 < w.alignment
      → flush_tail ops true w ≡ cut_file ops w
  unfolding flush_tail
  flush_tail-empty w opened empty blocks =
      let blank : align_up w.tail_bytes w.alignment ≡ 0 =
        ap (λ n. align_up n w.alignment) empty
        ∙ align_up-aligned 0 w.alignment (mod-eq_of_lt blocks) in
      ground (arith, opened, blank)

  flush_tail-tail :
      (w : AppendWriter D)
      → w.file_open ≡ true
      → 0 < w.tail_bytes
      → w.tail_bytes < w.alignment
      → 0 < w.config.stream_buffer_size
      → let out = flush_chunks_prefix ops w.tail_chunks [] w.tail_bytes false true w in
        flush_tail ops true w ≡ (if out.0 then cut_file ops (cleared out.1) else (false, out.1))
  unfolding flush_tail cleared
  flush_tail-tail w opened more few pos =
      let whole = pieces-blocks w.tail_bytes w.config.stream_buffer_size w.alignment few pos in
      let one = align_up-few w.tail_bytes w.alignment more few in
      rw whole (ground (arith, opened, one))

  -- What is written out of the memory: the tail, and zeros up to the end of the block.
  module _ (stream : Bytes) (w : AppendWriter D) (h : Holds content stream w) where
    unfoldable pub padded_tail : Bytes
    padded_tail =
        take w.tail_bytes (join_chunks w.tail_chunks ++ [])
        ++ replicate (align_up w.tail_bytes w.alignment - w.tail_bytes) 0

    tail_whole : take w.tail_bytes (join_chunks w.tail_chunks ++ []) ≡ join_chunks w.tail_chunks
    tail_whole =
        ap (take w.tail_bytes) (append-nil (join_chunks w.tail_chunks))
        ∙ take-all w.tail_bytes (join_chunks w.tail_chunks) (omega (arith, h.counted))

    length-padded_tail :
        w.tail_bytes ≤ align_up w.tail_bytes w.alignment
        → align_up w.tail_bytes w.alignment ≡ length padded_tail
    unfolding padded_tail
    length-padded_tail le =
        let zeros = align_up w.tail_bytes w.alignment - w.tail_bytes in
        omega (
          arith,
          le,
          h.counted,
          ap length tail_whole,
          length-append (take w.tail_bytes (join_chunks w.tail_chunks ++ [])) (replicate zeros 0),
          length-replicate zeros,
        )

    -- The tail follows what is in the file, so the file starts with the stream.
    padded_tail-Starts :
        (file : D)
        → Starts ops content law (in_file content w ++ padded_tail) file
        → Starts ops content law stream file
    unfolding padded_tail in_file
    padded_tail-Starts file starts =
        let zeros = replicate {A = ℕ} (align_up w.tail_bytes w.alignment - w.tail_bytes) 0 in
        let whole : in_file content w ++ padded_tail ≡ stream ++ zeros =
          ap (λ s. in_file content w ++ (s ++ zeros)) tail_whole
          ∙ sym (append_assoc (in_file content w) (join_chunks w.tail_chunks) zeros)
          ∙ ap (λ s. s ++ zeros) h.stored in
        Starts-mono ops content law stream zeros file
          (subst (λ s. Starts ops content law s file) whole starts)

    in_file-stream : in_file content w ++ join_chunks w.tail_chunks ≡ stream
    unfolding in_file
    in_file-stream = h.stored

    pub stream-size : w.logical_size ≡ length stream
    unfolding in_file
    stream-size = omega (
      arith,
      h.sized,
      h.counted,
      length-in_file content stream w h,
      length-append (in_file content w) (join_chunks w.tail_chunks),
      ap length h.stored,
    )

    unfoldable pub tail_write : Bool → Bool × AppendWriter D
    tail_write sync =
        write_aligned_buffer ops padded_tail (align_up w.tail_bytes w.alignment) sync w

    pub tail_write-Starts :
        (sync : Bool)
        → w.tail_bytes ≤ align_up w.tail_bytes w.alignment
        → Starts ops content law (in_file content w) (tail_write sync).1.file
          × ((tail_write sync).0 ≡ true → Starts ops content law stream (tail_write sync).1.file)
    unfolding tail_write
    tail_write-Starts sync le =
        let written =
          write_aligned_buffer-Starts ops content law (in_file content w) padded_tail
            (align_up w.tail_bytes w.alignment) sync w h.has_blocks
            (sym (length-in_file content stream w h)) (length-padded_tail le)
            (in_file-Starts ops content law stream w h) in
        (written.0, λ done. padded_tail-Starts (tail_write sync).1.file (written.1 done))

    flush_tail-write :
        0 < w.tail_bytes
        → 0 < w.config.stream_buffer_size
        → flush_tail ops true w ≡ (
            if (tail_write true).0
            then cut_file ops (record (tail_write true).1 {
              write_offset = (tail_write true).1.write_offset + align_up w.tail_bytes w.alignment;
              tail_chunks = [];
              tail_bytes = 0;
            })
            else (false, (tail_write true).1))
    unfolding tail_write padded_tail cleared join_chunks
    flush_tail-write more pos =
        let one = align_up-few w.tail_bytes w.alignment more h.few in
        flush_tail-tail w h.is_open more h.few pos
        ∙ rw
            (flush_chunks_prefix_lem ops w.tail_chunks [] w.tail_bytes true w
              (omega (arith, one, h.few)))
            (elim (Bool-cases (tail_write true).0) [
              | inl done ↦ rw done refl
              | inr failed ↦ rw failed refl
            ])

    abbrev Seals : Bool × AppendWriter D → Type 0
    Seals result = result.0 ≡ true → IsSealed content stream result.1

    empty-Seals : w.tail_bytes ≡ 0 → Seals (cut_file ops w)
    unfolding join_chunks
    empty-Seals empty done =
        let none = take-all 0 (join_chunks w.tail_chunks) (omega (arith, h.counted, empty)) in
        let whole : in_file content w ≡ stream =
          sym (append-nil (in_file content w))
          ∙ ap (λ s. in_file content w ++ s) none
          ∙ in_file-stream in
        cut_file-IsSealed stream w h.is_open h.has_blocks (sym none) empty stream-size
          (subst (λ s. Starts ops content law s w.file) whole
            (in_file-Starts ops content law stream w h))
          done

    tail-Seals : 0 < w.tail_bytes → 0 < w.config.stream_buffer_size → Seals (flush_tail ops true w)
    unfolding tail_write write_aligned_buffer join_chunks
    tail-Seals more pos =
        let one = align_up-few w.tail_bytes w.alignment more h.few in
        let starts = tail_write-Starts true (omega (arith, one, h.few)) in
        subst Seals (sym (flush_tail-write more pos)) (elim (Bool-cases (tail_write true).0) [
          | inl done ↦ rw done (λ cut.
              cut_file-IsSealed stream
                (record (tail_write true).1 {
                  write_offset =
                      (tail_write true).1.write_offset + align_up w.tail_bytes w.alignment;
                  tail_chunks = [];
                  tail_bytes = 0;
                })
                h.is_open h.has_blocks refl refl stream-size (starts.1 done) cut)
          | inr failed ↦ rw failed (λ e. absurd (cc e))
        ])

    -- The tail is written, and the file cut to the stream: a call with `closing` that returns leaves
    -- the stream in the file, to the byte, and nothing in memory.
    pub flush_tail-IsSealed :
        (flush_tail ops true w).0 ≡ true → IsSealed content stream (flush_tail ops true w).1
    flush_tail-IsSealed done = elim (Bool-cases (w.tail_bytes == 0)) [
      | inl few ↦
          let empty : w.tail_bytes ≡ 0 = ground arith in
          subst Seals (sym (flush_tail-empty w h.is_open empty h.has_blocks)) (empty-Seals empty)
            done
      | inr more ↦ tail-Seals (ground arith) h.buffered done
    ]
