-- ===== src/Codec/Scan/Resume.antt =====
-- A scan that goes on behind a prefix that was scanned before.
use seastar_log_engine.Prelude.{
  ℕ, suc, ◌+◌, ◌≡◌, ◌≢◌, refl, sym, ap, ◌∙◌, inl, inr, Bool-cases, Option, none, some, Option-cases,
  [], ◌∷◌, ◌++◌, arith, Bytes, length, length-append, is_empty, ◌==◌, if◌then◌else◌,
}
use seastar_log_engine.Codec.Scan.{VerifiedLogState, accept_line, sequence_after, scan_loop}
use seastar_log_engine.Codec.Scan.Cut.{
  scan_loop-byte, scan_loop-accepted, scan_loop-rejected, accept_line-size,
}

scan_loop-unread :
    (state : VerifiedLogState) (d : ℕ) (line : Bytes)
    → (scan_loop state (d ∷ line) []).valid_size ≢ state.valid_size + length (d ∷ line) + 0
unfolding scan_loop
scan_loop-unread state d line k = omega (arith, k)

-- A scan of bytes that are all valid can be continued.
pub scan_loop-append :
    (state : VerifiedLogState) (line first rest : Bytes)
    → (scan_loop state line first).valid_size ≡ state.valid_size + length line + length first
    → scan_loop state line (first ++ rest) ≡ scan_loop (scan_loop state line first) [] rest
scan_loop-append state [] [] rest h = unfold scan_loop in refl
scan_loop-append state (d ∷ line) [] rest h = absurd (scan_loop-unread state d line h)
scan_loop-append state line (c ∷ first) rest h = elim (Bool-cases (c == b'\n')) [
  | inr other ↦
      let differs : c ≢ b'\n' = ground (arith, other) in
      let byte = scan_loop-byte state line first c differs in
      scan_loop-byte state line (first ++ rest) c differs
      ∙ scan_loop-append state (line ++ c ∷ []) first rest (
          ap (λ (s : VerifiedLogState). s.valid_size) (sym byte)
          ∙ h
          ∙ omega (arith, length-append line (c ∷ [])))
      ∙ ap (λ s. scan_loop s [] rest) (sym byte)
  | inl end ↦
      let is_end : c ≡ b'\n' = ground (arith, end) in
      let size : (scan_loop state line (b'\n' ∷ first)).valid_size
          ≡ state.valid_size + length line + suc (length first) =
        ap (λ d. (scan_loop state line (d ∷ first)).valid_size) (sym is_end) ∙ h in
      rw is_end (elim (Option-cases (accept_line state line)) [
        | inl rejected ↦
            let stuck =
              ap (λ (s : VerifiedLogState). s.valid_size)
                (scan_loop-rejected state line first rejected) in
            absurd (omega (arith, stuck, size))
        | inr (next, accepted) ↦
            let step = scan_loop-accepted state next line first accepted in
            scan_loop-accepted state next line (first ++ rest) accepted
            ∙ scan_loop-append next [] first rest (
                ap (λ (s : VerifiedLogState). s.valid_size) (sym step)
                ∙ size
                ∙ omega (arith, (accept_line-size state next line accepted).0))
            ∙ ap (λ s. scan_loop s [] rest) (sym step)
      ])
]

-- The place in a file that a state stands for.
abbrev pub SamePlace : VerifiedLogState → VerifiedLogState → Type 0
SamePlace s u = (s.valid_size ≡ u.valid_size) × (s.next_sequence ≡ u.next_sequence)

accept_line-none :
    (s u : VerifiedLogState) (line : Bytes) → accept_line s line ≡ none → accept_line u line ≡ none
unfolding accept_line
accept_line-none s u line e = ground (arith, e)

accept_line-sequence :
    (s next : VerifiedLogState) (line : Bytes)
    → accept_line s line ≡ some next
    → next.next_sequence
      ≡ (if is_empty line then s.next_sequence else sequence_after s.next_sequence line)
unfolding accept_line
accept_line-sequence s next line e = ground (arith, e)

accept_line-SamePlace :
    (s u next : VerifiedLogState) (line : Bytes)
    → SamePlace s u
    → accept_line s line ≡ some next
    → (other : VerifiedLogState) × (accept_line u line ≡ some other) × SamePlace next other
accept_line-SamePlace s u next line h e = elim (Option-cases (accept_line u line)) [
  | inl none_there ↦
      (let never : Option.none ≡ some next = sym (accept_line-none u s line none_there) ∙ e in
        absurd (grind arith))
  | inr (other, f) ↦ (
    other,
    f,
    (
      omega (arith, h.0, (accept_line-size s next line e).0, (accept_line-size u other line f).0),
      accept_line-sequence s next line e
          ∙ ap (λ n. if is_empty line then n else sequence_after n line) h.1
          ∙ sym (accept_line-sequence u other line f),
    ),
  )
]

-- Only the place where a scan begins matters for the place where it ends.
pub scan_loop-SamePlace :
    (s u : VerifiedLogState) (line content : Bytes)
    → SamePlace s u
    → SamePlace (scan_loop s line content) (scan_loop u line content)
scan_loop-SamePlace s u [] [] h = unfold scan_loop in h
scan_loop-SamePlace s u (d ∷ line) [] h = unfold scan_loop in h
scan_loop-SamePlace s u line (c ∷ content) h = elim (Bool-cases (c == b'\n')) [
  | inr other ↦
      let differs : c ≢ b'\n' = ground (arith, other) in
      rw (scan_loop-byte s line content c differs, scan_loop-byte u line content c differs)
        (scan_loop-SamePlace s u (line ++ c ∷ []) content h)
  | inl end ↦
      let is_end : c ≡ b'\n' = ground (arith, end) in
      rw is_end (elim (Option-cases (accept_line s line)) [
        | inl rejected ↦
            rw
              (
                scan_loop-rejected s line content rejected,
                scan_loop-rejected u line content (accept_line-none s u line rejected),
              )
              h
        | inr (next, accepted) ↦
            let (there, accepted_too, same) = accept_line-SamePlace s u next line h accepted in
            rw
              (
                scan_loop-accepted s next line content accepted,
                scan_loop-accepted u there line content accepted_too,
              )
              (scan_loop-SamePlace next there [] content same)
      ])
]
