-- ===== src/Recovery/Stream/Trailing.antt =====
-- The trailing bytes that the scan in pieces keeps: the last bytes of the valid content.
use seastar_log_engine.Prelude.{
  ℕ, ◌+◌, ◌-◌, ◌≡◌, sym, ap, ◌∙◌, inl, inr, true, false, Bool-cases, none, some, Option-cases, List,
  [], ◌∷◌, ◌++◌, append-nil, append_assoc, arith, Bytes, length, take, ◌==◌,
}
use seastar_log_engine.Codec.Scan.{
  VerifiedLogState, accept_line, scan_loop, scan_start, scan_log_content,
}
use seastar_log_engine.Codec.Scan.Cut.{
  scan_loop-byte, scan_loop-accepted, scan_loop-rejected, scan_loop-size, accept_line-size,
  take-line,
}
use seastar_log_engine.Recovery.Stream.{
  StreamedVerifiedLogState, append_line, ChunkResult, returned, going_on, scan_chunk, scan_chunks,
  scan_log_file_streaming,
}
use seastar_log_engine.Recovery.Stream.Whole.{begun, join_chunks, ChunkResult-cases}
use seastar_log_engine.Recovery.Stream.LastBytes.{
  last_bytes, append_line-seen, last_bytes-nil, take-zero,
}

-- The bytes of the lines that are accepted.
valid_prefix : VerifiedLogState → Bytes → Bytes → Bytes
valid_prefix state line [] = []
valid_prefix state line (c ∷ content) = elim (c == b'\n') [
  | true ↦ elim (accept_line state line) [
    | none ↦ []
    | some next ↦ line ++ b'\n' ∷ valid_prefix next [] content
  ]
  | false ↦ valid_prefix state (line ++ c ∷ []) content
]

-- What the function returns after a piece.
continue : ℕ → ChunkResult → List Bytes → StreamedVerifiedLogState
continue capacity (returned state) chunks = state
continue capacity (going_on state line) chunks = scan_chunks capacity state line chunks

-- The trailing bytes are the last of all the bytes seen.
abbrev Keeps : ℕ → Bytes → Bytes → StreamedVerifiedLogState → Type 0
Keeps capacity seen valid state = state.trailing_bytes ≡ last_bytes capacity (seen ++ valid)

module _ (capacity : ℕ) (chunks : List Bytes) where
  -- The theorem for the pieces that follow.
  abbrev KeepsLater : Type 0
  KeepsLater =
      (state : StreamedVerifiedLogState) (line seen : Bytes)
      → state.trailing_bytes ≡ last_bytes capacity seen
      → Keeps capacity seen (valid_prefix state.verified line (join_chunks chunks))
          (scan_chunks capacity state line chunks)

  scan_chunk-Keeps :
      KeepsLater
      → (state : StreamedVerifiedLogState) (pending_line run chunk seen : Bytes)
      → state.trailing_bytes ≡ last_bytes capacity seen
      → Keeps capacity seen
          (valid_prefix state.verified (pending_line ++ run) (chunk ++ join_chunks chunks))
          (continue capacity (scan_chunk capacity state pending_line run chunk) chunks)
  unfolding continue scan_chunk valid_prefix
  scan_chunk-Keeps later state pending_line run [] seen h = later state (pending_line ++ run) seen h
  scan_chunk-Keeps later state pending_line run (c ∷ chunk) seen h =
      elim (Bool-cases (c == b'\n')) [
        | inr other ↦
            rw (scan_chunk, valid_prefix, other, append_assoc pending_line run (c ∷ []))
              (scan_chunk-Keeps later state pending_line (run ++ c ∷ []) chunk seen h)
        | inl end ↦ elim (Option-cases (accept_line state.verified (pending_line ++ run))) [
          | inl rejected ↦ rw (scan_chunk, valid_prefix, end, rejected, append-nil seen) h
          | inr (next, accepted) ↦
              let line = pending_line ++ run in
              let seen' = seen ++ (line ++ b'\n' ∷ []) in
              let valid = valid_prefix next [] (chunk ++ join_chunks chunks) in
              let state' : StreamedVerifiedLogState = record {
                verified = next;
                trailing_bytes = append_line capacity state.trailing_bytes pending_line run;
              } in
              rw (scan_chunk, valid_prefix, end, accepted)
                (scan_chunk-Keeps later state' [] [] chunk seen'
                    (append_line-seen capacity state.trailing_bytes pending_line run seen h)
                  ∙ ap (last_bytes capacity) (append_assoc seen (line ++ b'\n' ∷ []) valid)
                  ∙ ap (λ s. last_bytes capacity (seen ++ s))
                      (append_assoc line (b'\n' ∷ []) valid))
        ]
      ]

scan_chunks-continue :
    (capacity : ℕ) (chunks : List Bytes) (state : StreamedVerifiedLogState) (line chunk : Bytes)
    → scan_chunks capacity state line (chunk ∷ chunks)
      ≡ continue capacity (scan_chunk capacity state line [] chunk) chunks
unfolding scan_chunks continue
scan_chunks-continue capacity chunks state line chunk =
    elim (ChunkResult-cases (scan_chunk capacity state line [] chunk)) [
      | inl (done, e) ↦ rw (scan_chunks, e)
      | inr (next, begun, e) ↦ rw (scan_chunks, e)
    ]

scan_chunks-Keeps : (capacity : ℕ) (chunks : List Bytes) → KeepsLater capacity chunks
unfolding scan_chunks join_chunks valid_prefix continue
scan_chunks-Keeps capacity [] state [] seen h = rw (append-nil seen) h
scan_chunks-Keeps capacity [] state (d ∷ line) seen h = rw (append-nil seen) h
scan_chunks-Keeps capacity (chunk ∷ chunks) state line seen h =
    ap (λ (r : StreamedVerifiedLogState). r.trailing_bytes)
      (scan_chunks-continue capacity chunks state line chunk)
    ∙ scan_chunk-Keeps capacity chunks (scan_chunks-Keeps capacity chunks) state line [] chunk seen
        h
    ∙ ap
        (λ s.
          last_bytes capacity (seen ++ valid_prefix state.verified s (chunk ++ join_chunks chunks)))
        (append-nil line)

valid_prefix-take :
    (state : VerifiedLogState) (line content : Bytes)
    → valid_prefix state line content
      ≡ take ((scan_loop state line content).valid_size - state.valid_size) (line ++ content)
unfolding valid_prefix
valid_prefix-take state [] [] = unfold scan_loop in sym (take-zero _ [] (omega arith))
valid_prefix-take state (d ∷ line) [] =
    unfold scan_loop in sym (take-zero _ (d ∷ (line ++ [])) (omega arith))
valid_prefix-take state line (c ∷ content) = elim (Bool-cases (c == b'\n')) [
  | inr other ↦
      rw
        (
          valid_prefix,
          other,
          scan_loop-byte state line content c (ground (arith, other)),
          ← append_assoc line (c ∷ []) content,
        )
        (valid_prefix-take state (line ++ c ∷ []) content)
  | inl end ↦
      let is_end : c ≡ b'\n' = ground (arith, end) in
      rw is_end (elim (Option-cases (accept_line state line)) [
        | inl rejected ↦
            rw (valid_prefix, rejected, scan_loop-rejected state line content rejected)
              (sym (take-zero _ (line ++ b'\n' ∷ content) (omega arith)))
        | inr (next, accepted) ↦
            let whole = scan_loop next [] content in
            let left = whole.valid_size - next.valid_size in
            let size : whole.valid_size - state.valid_size ≡ length line + 1 + left = omega (
              arith,
              (accept_line-size state next line accepted).0,
              scan_loop-size next [] content,
            ) in
            rw
              (
                valid_prefix,
                accepted,
                scan_loop-accepted state next line content accepted,
                size,
                take-line left line content,
              )
              (ap (λ s. line ++ b'\n' ∷ s) (valid_prefix-take next [] content))
      ])
]

pub scan_log_file_streaming-trailing_from :
    (chunks : List Bytes) (start_offset next_sequence trailing_capacity : ℕ)
    → (scan_log_file_streaming chunks start_offset next_sequence trailing_capacity).trailing_bytes
      ≡ last_bytes trailing_capacity (
          take
            ((scan_loop (begun start_offset next_sequence) [] (join_chunks chunks)).valid_size
              - start_offset)
            (join_chunks chunks))
unfolding scan_log_file_streaming
scan_log_file_streaming-trailing_from chunks start_offset next_sequence trailing_capacity =
    scan_chunks-Keeps trailing_capacity chunks _ [] [] (sym (last_bytes-nil trailing_capacity))
    ∙ ap (last_bytes trailing_capacity)
        (valid_prefix-take (begun start_offset next_sequence) [] (join_chunks chunks))

-- However a file is split into pieces, the scan in pieces keeps the last bytes of the valid content,
-- as many as it is asked for.
pub scan_log_file_streaming-trailing :
    (chunks : List Bytes) (trailing_capacity : ℕ)
    → (scan_log_file_streaming chunks 0 0 trailing_capacity).trailing_bytes
      ≡ last_bytes trailing_capacity
          (take (scan_log_content (join_chunks chunks)).valid_size (join_chunks chunks))
unfolding scan_log_file_streaming scan_log_content
scan_log_file_streaming-trailing chunks trailing_capacity =
    scan_chunks-Keeps trailing_capacity chunks _ [] [] (sym (last_bytes-nil trailing_capacity))
    ∙ ap (last_bytes trailing_capacity) (
        valid_prefix-take scan_start [] (join_chunks chunks)
        ∙ ap (λ n. take n (join_chunks chunks)) (omega arith))
