-- ===== src/Codec/Scan/Cut.antt =====
-- Cutting a content at its valid size, as the recovery does.
use seastar_log_engine.Prelude.{
  ℕ, suc, ◌+◌, ◌-◌, ◌≤◌, ◌≡◌, ◌≢◌, refl, sym, ap, ◌∙◌, inl, inr, true, false, Bool-cases, none,
  some, Option-cases, [], ◌∷◌, ◌++◌, append-nil, append_assoc, arith, Bytes, length, length-append,
  take, All-append, ◌==◌,
}
use seastar_log_engine.Codec.Record.Find.{Lacks}
use seastar_log_engine.Codec.Scan.{
  VerifiedLogState, accept_line, scan_loop, scan_start, scan_log_content,
}

pub scan_loop-byte :
    (state : VerifiedLogState) (line content : Bytes) (c : ℕ)
    → c ≢ b'\n'
    → scan_loop state line (c ∷ content) ≡ scan_loop state (line ++ c ∷ []) content
unfolding scan_loop
scan_loop-byte state line content c h = ground arith

pub scan_loop-accepted :
    (state next : VerifiedLogState) (line content : Bytes)
    → accept_line state line ≡ some next
    → scan_loop state line (b'\n' ∷ content) ≡ scan_loop next [] content
unfolding scan_loop
scan_loop-accepted state next line content h = rw (scan_loop, h)

pub scan_loop-rejected :
    (state : VerifiedLogState) (line content : Bytes)
    → accept_line state line ≡ none
    → scan_loop state line (b'\n' ∷ content) ≡ record state { clean_end = false }
unfolding scan_loop
scan_loop-rejected state line content h = rw (scan_loop, h)

-- Bytes without a line end are gathered.
pub scan_loop-gather :
    (state : VerifiedLogState) (seen line content : Bytes)
    → Lacks b'\n' line
    → scan_loop state seen (line ++ content) ≡ scan_loop state (seen ++ line) content
scan_loop-gather state seen [] content h =
    ap (λ s. scan_loop state s content) (sym (append-nil seen))
scan_loop-gather state seen (c ∷ line) content h =
    scan_loop-byte state seen (line ++ content) c h.0
    ∙ scan_loop-gather state (seen ++ c ∷ []) line content h.1
    ∙ ap (λ s. scan_loop state s content) (append_assoc seen (c ∷ []) line)

pub accept_line-size :
    (state next : VerifiedLogState) (line : Bytes)
    → accept_line state line ≡ some next
    → (next.valid_size ≡ state.valid_size + length line + 1) × (next.clean_end ≡ state.clean_end)
unfolding accept_line
accept_line-size state next line h = (ground (arith, h), ground (arith, h))

pub scan_loop-size :
    (state : VerifiedLogState) (line content : Bytes)
    → state.valid_size ≤ (scan_loop state line content).valid_size
scan_loop-size state line [] = unfold scan_loop in ground arith
scan_loop-size state line (c ∷ content) = elim (Bool-cases (c == b'\n')) [
  | inr other ↦
      rw (scan_loop-byte state line content c (ground (arith, other)))
        (scan_loop-size state (line ++ c ∷ []) content)
  | inl end ↦
      let is_end : c ≡ b'\n' = ground (arith, end) in
      rw is_end (elim (Option-cases (accept_line state line)) [
        | inl rejected ↦ rw (scan_loop-rejected state line content rejected) (omega arith)
        | inr (next, accepted) ↦ rw (scan_loop-accepted state next line content accepted) (
            omega (
              arith,
              (accept_line-size state next line accepted).0,
              scan_loop-size next [] content,
            ))
      ])
]

pub take-append : (n : ℕ) (s rest : Bytes) → take (length s + n) (s ++ rest) ≡ s ++ take n rest
take-append n [] rest = ap (λ k. take k rest) (omega arith)
take-append n (c ∷ s) rest =
    ap (λ k. take k (c ∷ (s ++ rest))) {y = suc (length s + n)} (omega arith)
    ∙ ap (λ r. c ∷ r) (take-append n s rest)

scan_loop-take_none :
    (state : VerifiedLogState) (n : ℕ) (s : Bytes)
    → n ≡ 0
    → state.clean_end ≡ true
    → scan_loop state [] (take n s) ≡ record state { clean_end = true }
unfolding scan_loop
scan_loop-take_none state n s h clean = rw h (ground (arith, clean))

-- A line and its line end are taken whole.
pub take-line :
    (n : ℕ) (line content : Bytes)
    → take (length line + 1 + n) (line ++ b'\n' ∷ content) ≡ line ++ b'\n' ∷ take n content
take-line n line content =
    ap (λ k. take k (line ++ b'\n' ∷ content)) {y = length line + suc n} (omega arith)
    ∙ take-append (suc n) line (b'\n' ∷ content)

scan_loop-take :
    (state : VerifiedLogState) (line content : Bytes)
    → Lacks b'\n' line
    → state.clean_end ≡ true
    → let after = scan_loop state line content in
      scan_loop state [] (take (after.valid_size - state.valid_size) (line ++ content))
      ≡ record after { clean_end = true }
scan_loop-take state [] [] h clean =
    unfold scan_loop in scan_loop-take_none state _ [] (omega arith) clean
scan_loop-take state (d ∷ line) [] h clean =
    unfold scan_loop in scan_loop-take_none state _ (d ∷ (line ++ [])) (omega arith) clean
scan_loop-take state line (c ∷ content) h clean = elim (Bool-cases (c == b'\n')) [
  | inr other ↦
      let differs : c ≢ b'\n' = ground (arith, other) in
      rw (scan_loop-byte state line content c differs, ← append_assoc line (c ∷ []) content)
        (scan_loop-take state (line ++ c ∷ []) content
          (All-append (λ b. b ≢ b'\n') line (c ∷ []) h (differs, tt)) clean)
  | inl end ↦
      let is_end : c ≡ b'\n' = ground (arith, end) in
      rw is_end (elim (Option-cases (accept_line state line)) [
        | inl rejected ↦
            rw (scan_loop-rejected state line content rejected)
              (scan_loop-take_none state _ (line ++ b'\n' ∷ content) (omega arith) clean)
        | inr (next, accepted) ↦
            let after = scan_loop next [] content in
            let grown = accept_line-size state next line accepted in
            let left = after.valid_size - next.valid_size in
            let size : after.valid_size - state.valid_size ≡ length line + 1 + left =
              omega (arith, grown.0, scan_loop-size next [] content) in
            rw
              (
                scan_loop-accepted state next line content accepted,
                size,
                take-line left line content,
              )
              (scan_loop-gather state [] line (b'\n' ∷ take left content) h
                ∙ scan_loop-accepted state next line (take left content) accepted
                ∙ scan_loop-take next [] content tt (grown.1 ∙ clean))
      ])
]

-- Scanning a content that was cut at its valid size finds the same records, and a clean end.
pub scan_log_content-take :
    (content : Bytes)
    → scan_log_content (take (scan_log_content content).valid_size content)
      ≡ record (scan_log_content content) { clean_end = true }
unfolding scan_log_content
scan_log_content-take content =
    ap (λ n. scan_loop scan_start [] (take n content))
      {y = (scan_loop scan_start [] content).valid_size - scan_start.valid_size} (omega arith)
    ∙ scan_loop-take scan_start [] content tt refl

scan_loop-size_le :
    (state : VerifiedLogState) (line content : Bytes)
    → (scan_loop state line content).valid_size ≤ state.valid_size + length line + length content
scan_loop-size_le state [] [] = unfold scan_loop in omega arith
scan_loop-size_le state (d ∷ line) [] = unfold scan_loop in omega arith
scan_loop-size_le state line (c ∷ content) = elim (Bool-cases (c == b'\n')) [
  | inr other ↦
      rw (scan_loop-byte state line content c (ground (arith, other))) (
        omega
          (arith, scan_loop-size_le state (line ++ c ∷ []) content, length-append line (c ∷ [])))
  | inl end ↦
      let is_end : c ≡ b'\n' = ground (arith, end) in
      rw is_end (elim (Option-cases (accept_line state line)) [
        | inl rejected ↦ rw (scan_loop-rejected state line content rejected) (omega arith)
        | inr (next, accepted) ↦ rw (scan_loop-accepted state next line content accepted) (
            omega (
              arith,
              (accept_line-size state next line accepted).0,
              scan_loop-size_le next [] content,
            ))
      ])
]

-- The valid size is no larger than the content.
pub scan_log_content-size :
    (content : Bytes) → (scan_log_content content).valid_size ≤ length content
unfolding scan_log_content
scan_log_content-size content = omega (arith, scan_loop-size_le scan_start [] content)
