-- ===== src/Recovery/Stream/Whole.antt =====
-- The scan in pieces against `scan_log_content` on the whole: the same records, and the last bytes.
use seastar_log_engine.Prelude.{
  true, ℕ, ◌≡◌, ◌≢◌, refl, sym, ap, ◌∙◌, ◌⊎◌, inl, inr, Bool-cases, Option-cases, List, [], ◌∷◌,
  ◌++◌, append-nil, append_assoc, arith, Bytes, ◌==◌,
}
use seastar_log_engine.Codec.Scan.{VerifiedLogState, accept_line, scan_loop, scan_log_content}
use seastar_log_engine.Codec.Scan.Cut.{scan_loop-byte, scan_loop-accepted, scan_loop-rejected}
use seastar_log_engine.Recovery.Stream.{
  StreamedVerifiedLogState, append_line, ChunkResult, returned, going_on, scan_chunk, scan_chunks,
  scan_log_file_streaming,
}

-- The pieces joined.
unfoldable pub join_chunks : List Bytes → Bytes
join_chunks [] = []
join_chunks (chunk ∷ chunks) = chunk ++ join_chunks chunks

-- What is left to scan after a piece, done on the whole rest.
after : ChunkResult → Bytes → VerifiedLogState
after (returned state) rest = state.verified
after (going_on state line) rest = scan_loop state.verified line rest

scan_chunk-after :
    (capacity : ℕ) (state : StreamedVerifiedLogState) (pending_line run chunk rest : Bytes)
    → scan_loop state.verified (pending_line ++ run) (chunk ++ rest)
      ≡ after (scan_chunk capacity state pending_line run chunk) rest
unfolding scan_chunk after
scan_chunk-after capacity state pending_line run [] rest = refl
scan_chunk-after capacity state pending_line run (c ∷ chunk) rest = elim (Bool-cases (c == b'\n')) [
  | inr other ↦
      let differs : c ≢ b'\n' = ground (arith, other) in
      scan_loop-byte state.verified (pending_line ++ run) (chunk ++ rest) c differs
      ∙ ap (λ s. scan_loop state.verified s (chunk ++ rest))
          (append_assoc pending_line run (c ∷ []))
      ∙ scan_chunk-after capacity state pending_line (run ++ c ∷ []) chunk rest
      ∙ rw (scan_chunk, other) refl
  | inl end ↦
      let is_end : c ≡ b'\n' = ground (arith, end) in
      rw is_end (elim (Option-cases (accept_line state.verified (pending_line ++ run))) [
        | inl rejected ↦
            scan_loop-rejected state.verified (pending_line ++ run) (chunk ++ rest) rejected
            ∙ rw (scan_chunk, rejected) refl
        | inr (next, accepted) ↦
            scan_loop-accepted state.verified next (pending_line ++ run) (chunk ++ rest) accepted
            ∙ scan_chunk-after capacity
                (record {
                  verified = next;
                  trailing_bytes = append_line capacity state.trailing_bytes pending_line run;
                })
                [] [] chunk rest
            ∙ rw (scan_chunk, accepted) refl
      ])
]

pub ChunkResult-cases :
    (r : ChunkResult)
    → ((state : StreamedVerifiedLogState) × (r ≡ returned state))
      ⊎ ((state : StreamedVerifiedLogState) × (line : Bytes) × (r ≡ going_on state line))
ChunkResult-cases (returned state) = inl (state, refl)
ChunkResult-cases (going_on state line) = inr (state, line, refl)

pub scan_chunks-verified :
    (capacity : ℕ) (state : StreamedVerifiedLogState) (line : Bytes) (chunks : List Bytes)
    → (scan_chunks capacity state line chunks).verified
      ≡ scan_loop state.verified line (join_chunks chunks)
unfolding scan_chunks join_chunks after
scan_chunks-verified capacity state [] [] = unfold scan_loop in refl
scan_chunks-verified capacity state (d ∷ line) [] = unfold scan_loop in refl
scan_chunks-verified capacity state line (chunk ∷ chunks) =
    let rest = join_chunks chunks in
    let whole : scan_loop state.verified line (chunk ++ rest)
        ≡ after (scan_chunk capacity state line [] chunk) rest =
      ap (λ s. scan_loop state.verified s (chunk ++ rest)) (sym (append-nil line))
      ∙ scan_chunk-after capacity state line [] chunk rest in
    elim (ChunkResult-cases (scan_chunk capacity state line [] chunk)) [
      | inl (done, e) ↦ rw (whole, scan_chunks, e) refl
      | inr (next, begun, e) ↦
          rw (whole, scan_chunks, e) (scan_chunks-verified capacity next begun chunks)
    ]

-- The state in which the scan begins.
abbrev pub begun : ℕ → ℕ → VerifiedLogState
begun start_offset next_sequence = record {
  valid_size = start_offset;
  next_sequence = next_sequence;
  valid_records = 0;
  clean_end = true;
}

pub scan_log_file_streaming-from :
    (chunks : List Bytes) (start_offset next_sequence trailing_capacity : ℕ)
    → (scan_log_file_streaming chunks start_offset next_sequence trailing_capacity).verified
      ≡ scan_loop (begun start_offset next_sequence) [] (join_chunks chunks)
unfolding scan_log_file_streaming
scan_log_file_streaming-from chunks start_offset next_sequence trailing_capacity =
    scan_chunks-verified trailing_capacity _ [] chunks

-- However a file is split into pieces, the scan in pieces finds what the scan of the whole finds.
pub scan_log_file_streaming-verified :
    (chunks : List Bytes) (trailing_capacity : ℕ)
    → (scan_log_file_streaming chunks 0 0 trailing_capacity).verified
      ≡ scan_log_content (join_chunks chunks)
unfolding scan_log_file_streaming scan_log_content
scan_log_file_streaming-verified chunks trailing_capacity =
    scan_chunks-verified trailing_capacity _ [] chunks
