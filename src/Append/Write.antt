-- ===== src/Append/Write.antt =====
-- `write_aligned_buffer` of src/append_writer.cc: its pieces, its retries and what it leaves in the file.
use mathlib.Core.Path.{subst}
use seastar_log_engine.Prelude.{
  ℕ, zero, suc, ◌+◌, ◌-◌, ◌≤◌, ◌<◌, ◌≡◌, refl, sym, ap, ◌∙◌, inl, inr, Bool, true, false,
  Bool-cases, ◌&&◌, Option, none, some, [], ◌∷◌, ◌++◌, append-nil, append_assoc, min, arith, Bytes,
  length, length-append, length-take, length-drop, take, drop, ltb, if◌then◌else◌,
  take-length-append,
}
use seastar_log_engine.Append.Chunks.{take-min, take-all}
use seastar_log_engine.Append.Device.{IsFile}
use seastar_log_engine.Append.{
  FileOps, AppendWriter, chunk_offsets, chunk_limit_of, is_whole, write_chunks, write_attempt,
  retry, write_aligned_buffer,
}

-- What a step keeps and what it gives when it returns `true` holds of the loop over the attempts.
retry_lem :
    {D : Type 0} (P Q : D → Type 0) (attempt : D → Bool × D)
    → ((d : D) → P d → P (attempt d).1)
    → ((d : D) → P d → (attempt d).0 ≡ true → Q (attempt d).1)
    → (n : ℕ) (d : D) → P d
    → P (retry attempt n d).1 × ((retry attempt n d).0 ≡ true → Q (retry attempt n d).1)
unfolding retry
retry_lem P Q attempt keep give zero d p = (p, λ e. absurd (cc e))
retry_lem P Q attempt keep give (suc n) d p = elim (Bool-cases (attempt d).0) [
  | inl done ↦ rw (retry, done) (keep d p, λ e. give d p done)
  | inr failed ↦ rw (retry, failed) (retry_lem P Q attempt keep give n (attempt d).1 (keep d p))
]

-- A split of a text at two places.
take-take-drop : (m n : ℕ) (s : Bytes) → take m s ++ take n (drop m s) ≡ take (m + n) s
take-take-drop zero n s = ap (λ k. take k s) (omega arith)
take-take-drop (suc m) n [] =
    take-all n [] (omega arith) ∙ sym (take-all (suc m + n) [] (omega arith))
take-take-drop (suc m) n (c ∷ s) =
    ap (λ r. c ∷ r) (take-take-drop m n s)
    ∙ ap (λ k. take k (c ∷ s)) {x = suc (m + n)} (omega arith)

take-take : (m n : ℕ) (s : Bytes) → m ≤ n → take m (take n s) ≡ take m s
take-take zero n s h = refl
take-take (suc m) zero s h = absurd (omega (arith, h))
take-take (suc m) (suc n) [] h = refl
take-take (suc m) (suc n) (c ∷ s) h = ap (λ r. c ∷ r) (take-take m n s (omega (arith, h)))

module _ {D : Type 0} (ops : FileOps D) (content : D → Bytes) (law : IsFile ops content) where
  -- The file starts with these bytes.
  abbrev pub Starts : Bytes → D → Type 0
  Starts front file = take (length front) (content file) ≡ front

  Starts-le : (front : Bytes) (file : D) → Starts front file → length front ≤ length (content file)
  Starts-le front file h = omega (arith, length-take (length front) (content file), ap length h)

  pub Starts-mono : (a b : Bytes) (file : D) → Starts (a ++ b) file → Starts a file
  Starts-mono a b file h =
      sym (take-take (length a) (length (a ++ b)) (content file) (omega (arith, length-append a b)))
      ∙ ap (take (length a)) h
      ∙ take-length-append a b

  write-Starts_front :
      (front buffer : Bytes) (offset : ℕ) (file : D)
      → offset ≡ length front
      → Starts front file
      → Starts front (ops.dma_write offset buffer file).1
  write-Starts_front front buffer offset file e h =
      ap (λ n. take n (content (ops.dma_write offset buffer file).1)) (sym e)
      ∙ law.dma_write-front offset buffer file (omega (arith, e, Starts-le front file h))
      ∙ ap (λ n. take n (content file)) e
      ∙ h

  write-Starts_whole :
      (front buffer : Bytes) (offset : ℕ) (file : D)
      → offset ≡ length front
      → Starts front file
      → (ops.dma_write offset buffer file).0 ≡ some (length buffer)
      → Starts (front ++ buffer) (ops.dma_write offset buffer file).1
  write-Starts_whole front buffer offset file e h w =
      ap (λ n. take n (content (ops.dma_write offset buffer file).1))
        (omega (arith, e, length-append front buffer))
      ∙ law.dma_write-whole offset buffer file (omega (arith, e, Starts-le front file h)) w
      ∙ ap (λ n. take n (content file) ++ buffer) e
      ∙ ap (λ r. r ++ buffer) h

  module _ (front buffer : Bytes) (limit : ℕ) (pos : 0 < limit) where
    written_upto : ℕ → Bytes
    written_upto offset = front ++ take offset buffer

    chunk_at : ℕ → Bytes
    chunk_at offset = take (min limit (length buffer - offset)) (drop offset buffer)

    length-chunk_at : (offset : ℕ) → length (chunk_at offset) ≡ min limit (length buffer - offset)
    unfolding chunk_at
    length-chunk_at offset = omega (
      arith,
      length-take (min limit (length buffer - offset)) (drop offset buffer),
      length-drop offset buffer,
    )

    -- One piece further.
    written_upto-next :
        (offset : ℕ)
        → offset < length buffer
        → written_upto offset ++ chunk_at offset ≡ written_upto (offset + limit)
    unfolding written_upto chunk_at
    written_upto-next offset h =
        append_assoc front (take offset buffer)
          (take (min limit (length buffer - offset)) (drop offset buffer))
        ∙ ap (λ r. front ++ r)
            (take-take-drop offset (min limit (length buffer - offset)) buffer
              ∙ ap (λ n. take n buffer) {y = min (offset + limit) (length buffer)}
                  (omega (arith, h))
              ∙ take-min (offset + limit) buffer)

    written_upto-all :
        (offset : ℕ) (file : D)
        → length buffer ≤ offset
        → Starts (written_upto offset) file
        → Starts (front ++ buffer) file
    unfolding written_upto
    written_upto-all offset file h starts =
        subst (λ s. Starts (front ++ s) file) (take-all offset buffer h) starts

    length-written_upto :
        (offset : ℕ) → offset < length buffer → length (written_upto offset) ≡ length front + offset
    unfolding written_upto
    length-written_upto offset h =
        omega (arith, h, length-append front (take offset buffer), length-take offset buffer)

    is_whole-eq :
        (written : Option ℕ) (size : ℕ) → is_whole written size ≡ true → written ≡ some size
    unfolding is_whole
    is_whole-eq none size h = absurd (cc h)
    is_whole-eq (some n) size h = ap some (ground arith)

    -- A whole piece takes the file to the next offset.
    written_upto-write :
        (offset : ℕ) (file : D)
        → offset < length buffer
        → Starts (written_upto offset) file
        → let write = ops.dma_write (length front + offset) (chunk_at offset) file in
          is_whole write.0 (min limit (length buffer - offset)) ≡ true
          → Starts (written_upto (offset + limit)) write.1
    written_upto-write offset file h starts whole =
        subst (λ s. Starts s (ops.dma_write (length front + offset) (chunk_at offset) file).1)
          (written_upto-next offset h)
          (write-Starts_whole (written_upto offset) (chunk_at offset) (length front + offset) file
            (sym (length-written_upto offset h)) starts
            (is_whole-eq (ops.dma_write (length front + offset) (chunk_at offset) file).0
                (min limit (length buffer - offset)) whole
              ∙ ap some (sym (length-chunk_at offset))))

    written_upto-front :
        (offset : ℕ) (file : D)
        → offset < length buffer
        → Starts (written_upto offset) file
        → Starts front (ops.dma_write (length front + offset) (chunk_at offset) file).1
    unfolding written_upto
    written_upto-front offset file h starts =
        Starts-mono front (take offset buffer)
          (ops.dma_write (length front + offset) (chunk_at offset) file).1
          (write-Starts_front (written_upto offset) (chunk_at offset) (length front + offset) file
            (sym (length-written_upto offset h)) starts)

    -- The pieces from an offset on are the rest of the buffer.
    write_chunks-Starts :
        (fuel offset : ℕ) (file : D)
        → length buffer ≤ fuel + offset
        → Starts (written_upto offset) file
        → let result =
            write_chunks ops
              (length front)
              limit
              (length buffer)
              buffer
              (chunk_offsets fuel limit (length buffer) offset)
              file in
          Starts front result.1 × (result.0 ≡ true → Starts (front ++ buffer) result.1)
    unfolding write_chunks chunk_offsets written_upto chunk_at
    write_chunks-Starts zero offset file enough h = (
      Starts-mono front (take offset buffer) file h,
      λ _. written_upto-all offset file (omega (arith, enough)) h,
    )
    write_chunks-Starts (suc fuel) offset file enough h =
        elim (Bool-cases (ltb offset (length buffer))) [
          | inr past ↦
              let le : length buffer ≤ offset = ground arith in
              rw past (
                Starts-mono front (take offset buffer) file h,
                λ _. written_upto-all offset file le h,
              )
          | inl more ↦
              let lt : offset < length buffer = ground arith in
              let write = ops.dma_write (length front + offset) (chunk_at offset) file in
              elim (Bool-cases (is_whole write.0 (min limit (length buffer - offset)))) [
                | inl whole ↦
                    rw (more, write_chunks, whole)
                      (write_chunks-Starts fuel (offset + limit) write.1
                        (omega (arith, enough, pos)) (written_upto-write offset file lt h whole))
                | inr failed ↦
                    rw (more, write_chunks, failed)
                      (written_upto-front offset file lt h, λ e. absurd (cc e))
              ]
        ]

    flush-Starts : (s : Bytes) (file : D) → Starts s file → Starts s (ops.flush file).1
    flush-Starts s file h = ap (take (length s)) (law.flush-content file) ∙ h

    attempt-chunks :
        (file : D)
        → Starts front file
        → let result =
            write_chunks ops
              (length front)
              limit
              (length buffer)
              buffer
              (chunk_offsets (length buffer) limit (length buffer) 0)
              file in
          Starts front result.1 × (result.0 ≡ true → Starts (front ++ buffer) result.1)
    unfolding written_upto
    attempt-chunks file h =
        write_chunks-Starts (length buffer) 0 file (omega arith)
          (subst (λ s. Starts s file) (sym (append-nil front)) h)

    write_attempt-Starts :
        (sync : Bool) (file : D)
        → Starts front file
        → let result = write_attempt ops (length front) limit (length buffer) buffer sync file in
          Starts front result.1 × (result.0 ≡ true → Starts (front ++ buffer) result.1)
    unfolding write_attempt
    write_attempt-Starts sync file h =
        let offsets = chunk_offsets (length buffer) limit (length buffer) 0 in
        let written = write_chunks ops (length front) limit (length buffer) buffer offsets file in
        let chunks = attempt-chunks file h in
        elim (Bool-cases written.0) [
          | inr failed ↦ rw failed (chunks.0, λ e. absurd (cc e))
          | inl done ↦ rw done (flushed sync written.1 chunks.0 (chunks.1 done))
        ]
      where
        flushed :
            (sync : Bool) (file : D)
            → Starts front file
            → Starts (front ++ buffer) file
            → let result = if true && sync then ops.flush file else (true, file) in
              Starts front result.1 × (result.0 ≡ true → Starts (front ++ buffer) result.1)
        flushed true file a b =
            (flush-Starts front file a, λ _. flush-Starts (front ++ buffer) file b)
        flushed false file a b = (a, λ _. b)

    retry-Starts :
        (sync : Bool) (attempts : ℕ) (file : D)
        → Starts front file
        → let result =
            retry
              (write_attempt ops (length front) limit (length buffer) buffer sync)
              attempts
              file in
          Starts front result.1 × (result.0 ≡ true → Starts (front ++ buffer) result.1)
    retry-Starts sync attempts file h =
        retry_lem (Starts front) (Starts (front ++ buffer))
          (write_attempt ops (length front) limit (length buffer) buffer sync)
          (λ d p. (write_attempt-Starts sync d p).0) (λ d p. (write_attempt-Starts sync d p).1)
          attempts file h

  chunk_limit_of-pos : (w : AppendWriter D) → 0 < w.alignment → 0 < chunk_limit_of w
  unfolding chunk_limit_of
  chunk_limit_of-pos w h = omega (arith, h)

  -- The bytes in front of the writer's offset stay; where the call returns, the buffer follows them.
  pub write_aligned_buffer-Starts :
      (front buffer : Bytes) (expected : ℕ) (sync : Bool) (w : AppendWriter D)
      → 0 < w.alignment
      → w.write_offset ≡ length front
      → expected ≡ length buffer
      → Starts front w.file
      → let result = write_aligned_buffer ops buffer expected sync w in
        Starts front result.1.file × (result.0 ≡ true → Starts (front ++ buffer) result.1.file)
  unfolding write_aligned_buffer
  write_aligned_buffer-Starts front buffer expected sync w pos e size h =
      let P = λ (base : ℕ) (bytes : ℕ).
        let result =
          retry (write_attempt ops base (chunk_limit_of w) bytes buffer sync)
            w.config.write_retry_count w.file in
        Starts front result.1 × (result.0 ≡ true → Starts (front ++ buffer) result.1) in
      subst (λ bytes. P w.write_offset bytes) (sym size)
        (subst (λ base. P base (length buffer)) (sym e)
          (retry-Starts front buffer (chunk_limit_of w) (chunk_limit_of-pos w pos) sync
            w.config.write_retry_count w.file h))
