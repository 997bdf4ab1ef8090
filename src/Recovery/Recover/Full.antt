-- ===== src/Recovery/Recover/Full.antt =====
-- Recovery by a scan of the whole file.
use native.Mathlib.Nat.{mod-lt, mod-le}
use seastar_log_engine.Prelude.{
  ℕ, zero, suc, ◌-◌, ◌%◌, ◌≤◌, ◌<◌, ◌≡◌, ◌≢◌, refl, sym, ap, ◌∙◌, inl, inr, true, false, Bool-cases,
  Option, none, some, [], ◌∷◌, ◌++◌, arith, Bytes, length, length-drop, length-take, take, drop,
  take-append-drop, leb, ◌==◌, if◌then◌else◌,
}
use seastar_log_engine.Codec.Scan.{scan_log_content}
use seastar_log_engine.Codec.Scan.Cut.{scan_log_content-size}
use seastar_log_engine.Recovery.{CheckpointState, RecoveryState}
use seastar_log_engine.Recovery.Stream.Whole.{join_chunks, scan_log_file_streaming-verified}
use seastar_log_engine.Recovery.Stream.Trailing.{scan_log_file_streaming-trailing}
use seastar_log_engine.Recovery.Stream.LastBytes.{last_bytes, drop-drop, last_bytes-zero}
use seastar_log_engine.Recovery.Recover.{
  buffer_size, read_pieces, scan_file, tail_size_of, tail_of, with_tail, recover_by_scan,
  recover_active_file,
}

-- The pieces are the whole.
pub join_chunks-read_pieces :
    (size rounds : ℕ) (content : Bytes)
    → 0 < size
    → length content ≤ rounds
    → join_chunks (read_pieces size rounds content) ≡ content
unfolding join_chunks read_pieces
join_chunks-read_pieces size zero [] pos h = refl
join_chunks-read_pieces size zero (c ∷ content) pos h = absurd (omega (arith, h))
join_chunks-read_pieces size (suc rounds) [] pos h = refl
join_chunks-read_pieces size (suc rounds) (c ∷ content) pos h =
    ap (λ s. take size (c ∷ content) ++ s)
      (join_chunks-read_pieces size rounds (drop size (c ∷ content)) pos
        (omega (arith, h, pos, length-drop size (c ∷ content))))
    ∙ take-append-drop size (c ∷ content)

module _ (content : Bytes) (capacity : ℕ) where
  scan_file-verified : (scan_file content 0 0 capacity).verified ≡ scan_log_content content
  unfolding scan_file
  scan_file-verified =
      scan_log_file_streaming-verified (read_pieces buffer_size (length content) content) capacity
      ∙ ap scan_log_content
          (join_chunks-read_pieces buffer_size (length content) content (omega arith) (omega arith))

  scan_file-trailing :
      (scan_file content 0 0 capacity).trailing_bytes
      ≡ last_bytes capacity (take (scan_log_content content).valid_size content)
  unfolding scan_file
  scan_file-trailing =
      scan_log_file_streaming-trailing (read_pieces buffer_size (length content) content) capacity
      ∙ ap (λ s. last_bytes capacity (take (scan_log_content s).valid_size s))
          (join_chunks-read_pieces buffer_size (length content) content (omega arith) (omega arith))

-- Fewer last bytes of the last bytes.
pub last_bytes-last_bytes :
    (few many : ℕ) (s : Bytes)
    → few ≤ many
    → few ≤ length s
    → (few ≤ length (last_bytes many s))
      × (drop (length (last_bytes many s) - few) (last_bytes many s) ≡ last_bytes few s)
unfolding last_bytes
last_bytes-last_bytes few many s h k =
    let size = length-drop (length s - many) s in
    (
      omega (arith, size, h, k),
      drop-drop (length (drop (length s - many) s) - few) (length s - many) s
          ∙ ap (λ n. drop n s) (omega (arith, size, h, k)),
    )

if-zero : (a tail : ℕ) (P : ℕ → Type 0) → P 0 → (a ≢ 0 → P tail) → P (if a == 0 then 0 else tail)
if-zero a tail P h k = elim (Bool-cases (a == 0)) [
  | inl zeroed ↦ rw zeroed h
  | inr other ↦ rw other (k (ground (arith, other)))
]

pub tail_size-le :
    (alignment n : ℕ) → (tail_size_of alignment n ≤ alignment) × (tail_size_of alignment n ≤ n)
unfolding tail_size_of
tail_size-le alignment n =
    if-zero alignment (n % alignment) (λ t. (t ≤ alignment) × (t ≤ n)) (omega arith)
      (λ h.
        let below : n % alignment < alignment = mod-lt n (omega (arith, h)) in
        (omega (arith, below), mod-le n alignment))

-- What a recovery by a scan gives.
unfoldable pub recovered : Bytes → ℕ → RecoveryState
recovered content alignment =
    let verified = scan_log_content content in
    record {
      logical_size = verified.valid_size;
      sequence = verified.next_sequence;
      rotation_index = 0;
      tail_buffer =
          last_bytes (tail_size_of alignment verified.valid_size)
            (take verified.valid_size content);
    }

tail_of-last_bytes :
    (content : Bytes) (alignment tail_size : ℕ) (otherwise : Option Bytes)
    → tail_size ≤ alignment
    → tail_size ≤ (scan_log_content content).valid_size
    → tail_of
        (last_bytes alignment (take (scan_log_content content).valid_size content))
        tail_size
        otherwise
      ≡ some (last_bytes tail_size (take (scan_log_content content).valid_size content))
unfolding tail_of
tail_of-last_bytes content alignment tail_size otherwise h k =
    let valid = take (scan_log_content content).valid_size content in
    let size : length valid ≡ (scan_log_content content).valid_size = omega (
      arith,
      length-take (scan_log_content content).valid_size content,
      scan_log_content-size content,
    ) in
    let kept = last_bytes-last_bytes tail_size alignment valid h (omega (arith, k, size)) in
    let enough : leb tail_size (length (last_bytes alignment valid)) ≡ true =
      ground (arith, kept.0) in
    elim (Bool-cases (tail_size == 0)) [
      | inl zeroed ↦
          let none_left : tail_size ≡ 0 = ground (arith, zeroed) in
          rw zeroed (ap some (sym (ap (λ n. last_bytes n valid) none_left ∙ last_bytes-zero valid)))
      | inr other ↦ rw (other, enough) (ap some kept.1)
    ]

recover_by_scan_lem :
    (content : Bytes) (alignment : ℕ)
    → recover_by_scan content alignment ≡ some (recovered content alignment)
unfolding recover_by_scan recovered with_tail
recover_by_scan_lem content alignment =
    let size = (scan_log_content content).valid_size in
    let tail_size = tail_size_of alignment size in
    let bound = tail_size-le alignment size in
    elim (Bool-cases (size == 0)) [
      | inl empty ↦
          let zeroed : size ≡ 0 = ground (arith, empty) in
          let none_left : tail_size ≡ 0 = omega (arith, bound.1, zeroed) in
          let valid = take size content in
          rw (scan_file-verified content alignment, empty)
            (ap
              (λ tail. some (record {
                logical_size = size;
                sequence = (scan_log_content content).next_sequence;
                rotation_index = 0;
                tail_buffer = tail;
              }))
              (sym (ap (λ n. last_bytes n valid) none_left ∙ last_bytes-zero valid)))
      | inr other ↦ rw (
        scan_file-verified content alignment,
        scan_file-trailing content alignment,
        other,
        tail_of-last_bytes content alignment tail_size none bound.0 bound.1,
      )
    ]

-- Without a checkpoint, or with one that is ahead of the file, the recovery of a file succeeds, and
-- gives the size of its whole, tested records, the sequence number that follows them, and the bytes of
-- them that do not fill an aligned block.
pub recover_active_file-full :
    (content : Bytes) (checkpoint : Option CheckpointState) (alignment : ℕ)
    → ((c : CheckpointState) → checkpoint ≡ some c → length content < c.logical_size)
    → recover_active_file (some content) checkpoint alignment ≡ some (recovered content alignment)
unfolding recover_active_file
recover_active_file-full content none alignment behind = recover_by_scan_lem content alignment
recover_active_file-full content (some checkpoint) alignment behind =
    let ahead : leb checkpoint.logical_size (length content) ≡ false =
      (let h = behind checkpoint refl in ground (arith, h)) in
    rw ahead (recover_by_scan_lem content alignment)
