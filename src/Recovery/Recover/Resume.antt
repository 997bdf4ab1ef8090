-- ===== src/Recovery/Recover/Resume.antt =====
-- Recovery by a checkpoint.
use seastar_log_engine.Prelude.{
  ℕ, zero, suc, ◌+◌, ◌-◌, ◌≤◌, ◌<◌, ◌≡◌, refl, sym, ap, ◌∙◌, inl, inr, true, false, Bool-cases,
  some, [], ◌∷◌, ◌++◌, arith, Bytes, length, length-append, length-drop, length-take, take, drop,
  drop-length-append, ltb, leb, ◌==◌,
}
use seastar_log_engine.Codec.Scan.{VerifiedLogState, scan_loop, scan_start, scan_log_content}
use seastar_log_engine.Codec.Scan.Cut.{scan_log_content-size, scan_loop-size, take-append}
use seastar_log_engine.Codec.Scan.Resume.{scan_loop-append, scan_loop-SamePlace, SamePlace}
use seastar_log_engine.Recovery.{CheckpointState}
use seastar_log_engine.Recovery.Stream.{StreamedVerifiedLogState}
use seastar_log_engine.Recovery.Stream.Whole.{begun, join_chunks, scan_log_file_streaming-from}
use seastar_log_engine.Recovery.Stream.Trailing.{scan_log_file_streaming-trailing_from}
use seastar_log_engine.Recovery.Stream.LastBytes.{last_bytes, last_bytes-zero, drop-past}
use seastar_log_engine.Recovery.Recover.{
  buffer_size, read_pieces, scan_file, tail_size_of, tail_of, with_tail, read_tail_before_offset,
  recover_from_checkpoint, recover_active_file,
}
use seastar_log_engine.Recovery.Recover.Full.{
  join_chunks-read_pieces, recovered, last_bytes-last_bytes, tail_size-le,
}

-- A checkpoint that was true of a first part of the file.
abbrev pub IsCheckpointOf : CheckpointState → Bytes → Type 0
IsCheckpointOf checkpoint first =
    (checkpoint.logical_size ≡ length first)
    × ((scan_log_content first).valid_size ≡ length first)
    × (checkpoint.sequence ≡ (scan_log_content first).next_sequence)

-- Bytes in front change nothing, if there are enough.
last_bytes-behind :
    (few : ℕ) (front s : Bytes) → few ≤ length s → last_bytes few s ≡ last_bytes few (front ++ s)
unfolding last_bytes
last_bytes-behind few front s h =
    sym (drop-past (length s - few) front s)
    ∙ ap (λ n. drop n (front ++ s)) (omega (arith, h, length-append front s))

last_bytes-le : (few : ℕ) (s : Bytes) → length (last_bytes few s) ≤ length s
unfolding last_bytes
last_bytes-le few s = omega (arith, length-drop (length s - few) s)

take-nil : (n : ℕ) → take {A = ℕ} n [] ≡ []
take-nil zero = refl
take-nil (suc n) = refl

drop-take : (k m : ℕ) (s : Bytes) → drop k (take (k + m) s) ≡ take m (drop k s)
drop-take zero m s = ap (λ n. take n s) (omega arith)
drop-take (suc k) m [] =
    ap (λ n. drop (suc k) (take {A = ℕ} n [])) {y = suc (k + m)} (omega arith) ∙ sym (take-nil m)
drop-take (suc k) m (c ∷ s) =
    ap (λ n. drop (suc k) (take n (c ∷ s))) {y = suc (k + m)} (omega arith) ∙ drop-take k m s

read_tail_before_offset_lem :
    (content : Bytes) (offset tail_size : ℕ)
    → 0 < tail_size
    → tail_size ≤ offset
    → offset ≤ length content
    → read_tail_before_offset content offset tail_size
      ≡ some (last_bytes tail_size (take offset content))
unfolding read_tail_before_offset last_bytes
read_tail_before_offset_lem content offset tail_size pos le within =
    let tail = take tail_size (drop (offset - tail_size) content) in
    let whole : length tail ≡ tail_size = omega (
      arith,
      pos,
      le,
      within,
      length-take tail_size (drop (offset - tail_size) content),
      length-drop (offset - tail_size) content,
    ) in
    let same : drop (length (take offset content) - tail_size) (take offset content) ≡ tail =
      ap (λ n. drop n (take offset content)) {y = offset - tail_size}
        (omega (arith, within, length-take offset content))
      ∙ ap (λ n. drop (offset - tail_size) (take n content)) {y = offset - tail_size + tail_size}
          (omega (arith, le))
      ∙ drop-take (offset - tail_size) tail_size content in
    let full : (length tail == tail_size) ≡ true = ground (arith, whole) in
    let some_left : (tail_size == 0) ≡ false = ground (arith, pos) in
    let inside : ltb offset tail_size ≡ false = ground (arith, le) in
    rw (some_left, inside, full) (ap some (sym same))

module _ (first rest : Bytes) (checkpoint : CheckpointState) (alignment : ℕ)
    (h : IsCheckpointOf checkpoint first) where
  start : VerifiedLogState
  start = begun checkpoint.logical_size checkpoint.sequence

  streamed : StreamedVerifiedLogState
  streamed = scan_file (first ++ rest) checkpoint.logical_size checkpoint.sequence alignment

  pieces-join :
      join_chunks (
        read_pieces buffer_size
          (length (drop checkpoint.logical_size (first ++ rest)))
          (drop checkpoint.logical_size (first ++ rest)))
      ≡ rest
  pieces-join =
      join_chunks-read_pieces buffer_size _ (drop checkpoint.logical_size (first ++ rest))
        (omega arith) (omega arith)
      ∙ ap (λ n. drop n (first ++ rest)) h.0
      ∙ drop-length-append first rest

  streamed-verified : streamed.verified ≡ scan_loop start [] rest
  unfolding streamed scan_file start
  streamed-verified =
      scan_log_file_streaming-from _ checkpoint.logical_size checkpoint.sequence alignment
      ∙ ap (scan_loop (begun checkpoint.logical_size checkpoint.sequence) []) pieces-join

  streamed-trailing :
      streamed.trailing_bytes
      ≡ last_bytes alignment
          (take ((scan_loop start [] rest).valid_size - checkpoint.logical_size) rest)
  unfolding streamed scan_file start
  streamed-trailing =
      scan_log_file_streaming-trailing_from _ checkpoint.logical_size checkpoint.sequence alignment
      ∙ ap
          (λ s. last_bytes alignment (
            take
              ((scan_loop (begun checkpoint.logical_size checkpoint.sequence) [] s).valid_size
                - checkpoint.logical_size)
              s))
          pieces-join

  -- The scan from the checkpoint ends where that of the whole file ends.
  start-SamePlace : SamePlace (scan_loop start [] rest) (scan_log_content (first ++ rest))
  unfolding scan_log_content start
  start-SamePlace = rw (scan_loop-append scan_start [] first rest (h.1 ∙ omega arith)) (
      scan_loop-SamePlace (begun checkpoint.logical_size checkpoint.sequence)
        (scan_loop scan_start [] first) [] rest (h.0 ∙ sym h.1, h.2))

  later : Bytes
  later = take ((scan_loop start [] rest).valid_size - checkpoint.logical_size) rest

  valid-later : take (scan_log_content (first ++ rest)).valid_size (first ++ rest) ≡ first ++ later
  unfolding later
  valid-later =
      let grown = scan_loop-size start [] rest in
      let size : (scan_log_content (first ++ rest)).valid_size
          ≡ length first + ((scan_loop start [] rest).valid_size - checkpoint.logical_size) =
        unfold start in omega (arith, grown, h.0, start-SamePlace.0) in
      ap (λ n. take n (first ++ rest)) size ∙ take-append _ first rest

  -- The kept bytes are the last of the valid ones, if they are enough.
  tail_of-kept :
      (tail_size : ℕ)
      → tail_size ≤ alignment
      → tail_size ≤ (scan_log_content (first ++ rest)).valid_size
      → tail_of streamed.trailing_bytes tail_size (
          read_tail_before_offset
            (first ++ rest)
            (scan_log_content (first ++ rest)).valid_size
            tail_size)
        ≡ some (
            last_bytes tail_size
              (take (scan_log_content (first ++ rest)).valid_size (first ++ rest)))
  unfolding tail_of
  tail_of-kept tail_size small within =
      let size = (scan_log_content (first ++ rest)).valid_size in
      let kept = last_bytes alignment later in
      let trailing : streamed.trailing_bytes ≡ kept = unfold later in streamed-trailing in
      elim (Bool-cases (tail_size == 0)) [
        | inl zeroed ↦
            let none_left : tail_size ≡ 0 = ground (arith, zeroed) in
            rw zeroed (
              ap some (
                sym (
                  ap (λ n. last_bytes n (take size (first ++ rest))) none_left
                  ∙ last_bytes-zero _)))
        | inr other ↦ elim (Bool-cases (leb tail_size (length kept))) [
          | inl enough ↦
              let within_later : tail_size ≤ length later =
                (let le : tail_size ≤ length kept = ground (arith, enough) in
                  omega (arith, le, last_bytes-le alignment later)) in
              rw (other, trailing, enough)
                (ap some (
                  (last_bytes-last_bytes tail_size alignment later small within_later).1
                  ∙ last_bytes-behind tail_size first later within_later
                  ∙ ap (last_bytes tail_size) (sym valid-later)))
          | inr short ↦
              let positive : 0 < tail_size = ground (arith, other) in
              rw (other, trailing, short)
                (read_tail_before_offset_lem (first ++ rest) size tail_size positive within
                  (scan_log_content-size (first ++ rest)))
        ]
      ]

  -- With a checkpoint that was true of a first part of the file, the recovery gives what a scan of the
  -- whole file gives, with the rotation index of the checkpoint.
  pub recover_active_file-checkpoint :
      recover_active_file (some (first ++ rest)) (some checkpoint) alignment
      ≡ some (record (recovered (first ++ rest) alignment) {
        rotation_index = checkpoint.rotation_index;
      })
  unfolding recover_active_file recover_from_checkpoint with_tail recovered streamed
  recover_active_file-checkpoint =
      let size = (scan_log_content (first ++ rest)).valid_size in
      let ahead : leb checkpoint.logical_size (length (first ++ rest)) ≡ true =
        (let total = length-append first rest in let at = h.0 in ground arith) in
      let size_eq : streamed.verified.valid_size ≡ size =
        ap (λ (s : VerifiedLogState). s.valid_size) streamed-verified ∙ start-SamePlace.0 in
      let next_eq : streamed.verified.next_sequence
          ≡ (scan_log_content (first ++ rest)).next_sequence =
        ap (λ (s : VerifiedLogState). s.next_sequence) streamed-verified ∙ start-SamePlace.1 in
      let bound = tail_size-le alignment size in
      rw (ahead, size_eq, next_eq, tail_of-kept (tail_size_of alignment size) bound.0 bound.1)
