-- ===== src/Codec/Scan/Lines.antt =====
-- Scanning whole records and a torn one behind them.
use seastar_log_engine.Prelude.{
  ℕ, ◌+◌, ◌%◌, u64_modulus, Option, none, Option-cases, inl, inr, ◌≡◌, refl, sym, ap, ◌∙◌, true,
  false, some, List, [], ◌∷◌, ◌++◌, append-nil, append_assoc, arith, Bytes, length, length-append,
  is_empty, All,
}
use seastar_log_engine.Codec.Record.{verify_record_line, extract_sequence}
use seastar_log_engine.Codec.Record.Find.{Lacks}
use seastar_log_engine.Codec.Scan.{
  VerifiedLogState, accept_line, sequence_after, scan_loop, scan_start, scan_log_content,
}
use seastar_log_engine.Codec.Scan.Cut.{scan_loop-gather, scan_loop-accepted}

-- A line that counts as a record.
abbrev pub IsRecord : Bytes → Type 0
IsRecord line = Lacks b'\n' line × (is_empty line ≡ false) × (verify_record_line line ≡ true)

-- Lines, each with its line end.
unfoldable pub join_lines : List Bytes → Bytes
join_lines [] = []
join_lines (line ∷ lines) = line ++ b'\n' ∷ join_lines lines

-- The number that a record has: the one that stands in its line, or without one the next.
unfoldable pub number_of : ℕ → Option ℕ → ℕ
number_of next none = next
number_of next (some sequence) = sequence

-- The sequence number after some lines: one more than the number of the last, in 64 bits.
unfoldable pub sequence_after_lines : ℕ → List Bytes → ℕ
sequence_after_lines next [] = next
sequence_after_lines next (line ∷ lines) =
    sequence_after_lines ((number_of next (extract_sequence line) + 1) % u64_modulus) lines

sequence_after-number_of :
    (next : ℕ) (line : Bytes)
    → sequence_after next line ≡ (number_of next (extract_sequence line) + 1) % u64_modulus
unfolding sequence_after number_of
sequence_after-number_of next line = elim (Option-cases (extract_sequence line)) [
  | inl unnumbered ↦ rw (sequence_after, unnumbered) refl
  | inr (sequence, numbered) ↦ rw (sequence_after, numbered) refl
]

accept_line-record :
    (state : VerifiedLogState) (line : Bytes)
    → IsRecord line
    → accept_line state line
      ≡ some (record state {
        valid_size = state.valid_size + length line + 1;
        next_sequence = sequence_after state.next_sequence line;
        valid_records = state.valid_records + 1;
      })
unfolding accept_line
accept_line-record state line h = rw (h.1, h.2)

scan_loop-tail :
    (state : VerifiedLogState) (tail : Bytes)
    → Lacks b'\n' tail
    → state.clean_end ≡ true
    → scan_loop state [] tail ≡ record state { clean_end = is_empty tail }
scan_loop-tail state [] h clean = unfold scan_loop in ground (arith, clean)
scan_loop-tail state (c ∷ tail) h clean =
    ap (scan_loop state []) (sym (append-nil (c ∷ tail)))
    ∙ scan_loop-gather state [] (c ∷ tail) [] h
    ∙ unfold scan_loop in refl

scan_loop-lines :
    (state : VerifiedLogState) (lines : List Bytes) (tail : Bytes)
    → All IsRecord lines
    → Lacks b'\n' tail
    → state.clean_end ≡ true
    → scan_loop state [] (join_lines lines ++ tail) ≡ record {
      valid_size = state.valid_size + length (join_lines lines);
      next_sequence = sequence_after_lines state.next_sequence lines;
      valid_records = state.valid_records + length lines;
      clean_end = is_empty tail;
    }
unfolding join_lines sequence_after_lines
scan_loop-lines state [] tail h k clean = scan_loop-tail state tail k clean ∙ ground arith
scan_loop-lines state (line ∷ lines) tail h k clean =
    let next = record state {
      valid_size = state.valid_size + length line + 1;
      next_sequence = sequence_after state.next_sequence line;
      valid_records = state.valid_records + 1;
    } in
    ap (scan_loop state []) (append_assoc line (b'\n' ∷ join_lines lines) tail)
    ∙ scan_loop-gather state [] line (b'\n' ∷ (join_lines lines ++ tail)) h.0.0
    ∙ scan_loop-accepted state next line (join_lines lines ++ tail)
        (accept_line-record state line h.0)
    ∙ scan_loop-lines next lines tail h.1 k clean
    ∙ rw (sequence_after-number_of state.next_sequence line)
        (ground (arith, length-append line (b'\n' ∷ join_lines lines)))

-- Of a content that is whole records and a part of one more, without its line end, the scan finds all
-- the records, their bytes and the sequence number that follows them: one more than the number of the
-- last record, which is the number in its line, or without one the number that was next. The end is
-- clean exactly if the part is empty.
pub scan_log_content-lines :
    (lines : List Bytes) (tail : Bytes)
    → All IsRecord lines
    → Lacks b'\n' tail
    → scan_log_content (join_lines lines ++ tail) ≡ record {
      valid_size = length (join_lines lines);
      next_sequence = sequence_after_lines 0 lines;
      valid_records = length lines;
      clean_end = is_empty tail;
    }
unfolding scan_log_content
scan_log_content-lines lines tail h k =
    scan_loop-lines scan_start lines tail h k refl ∙ ground arith
