-- ===== src/Agent/Tail/Multiline.antt =====
-- `apply_multiline_records` of src/agent_support.cc: lines joined to records.
use seastar_log_engine.Prelude.{
  ℕ, suc, ◌≡◌, refl, ap, ◌∙◌, inl, inr, Bool, true, false, not, ◌&&◌, ◌||◌, Bool-cases, List, [],
  ◌∷◌, ◌++◌, append_assoc, arith, Bytes, All, is_empty, starts_with, length, ltb, leb, ◌==◌,
  if◌then◌else◌,
}
use seastar_log_engine.Codec.Scan.Lines.{join_lines}

pub record MultilineOptions : Type 0 where
  pub enabled : Bool
  pub start_pattern : Bytes
  pub max_lines : ℕ

-- An empty pattern matches every line.
pub matches_multiline_start : Bytes → Bytes → Bool
matches_multiline_start line pattern = starts_with pattern line

-- The record begun is complete, since this line starts one or the record has all its lines.
pub record_ends : MultilineOptions → Bytes → ℕ → Bytes → Bool
record_ends options current current_lines line =
    not (is_empty current)
    && (matches_multiline_start line options.start_pattern
        || ltb 0 options.max_lines && leb options.max_lines current_lines)

pub join_line : Bytes → Bytes → Bytes
join_line current line = if is_empty current then line else current ++ b'\n' ∷ line

-- The loop over the lines; `current` is the record begun.
pub multiline_loop : MultilineOptions → Bytes → ℕ → List Bytes → List Bytes
multiline_loop options current current_lines [] = if is_empty current then [] else current ∷ []
multiline_loop options current current_lines (line ∷ lines) =
    elim (record_ends options current current_lines line) [
      | true ↦ current ∷ multiline_loop options line 1 lines
      | false ↦ multiline_loop options (join_line current line) (suc current_lines) lines
    ]

pub apply_multiline_records : MultilineOptions → List Bytes → List Bytes
apply_multiline_records options lines =
    if not options.enabled || length lines == 0 then lines else multiline_loop options [] 0 lines

abbrev pub HasBytes : Bytes → Type 0
HasBytes s = is_empty s ≡ false

join_line-HasBytes : (current line : Bytes) → HasBytes line → HasBytes (join_line current line)
unfolding join_line
join_line-HasBytes [] line h = h
join_line-HasBytes (c ∷ current) line h = refl

multiline_loop-current :
    (options : MultilineOptions) (current : Bytes) (current_lines : ℕ) (lines : List Bytes)
    → HasBytes current
    → All HasBytes lines
    → join_lines (multiline_loop options current current_lines lines)
      ≡ current ++ b'\n' ∷ join_lines lines
unfolding multiline_loop join_lines join_line
multiline_loop-current options current current_lines [] h k = rw h refl
multiline_loop-current options current current_lines (line ∷ lines) h k =
    elim (Bool-cases (record_ends options current current_lines line)) [
      | inl e ↦
          rw (multiline_loop, e)
            (ap (λ s. current ++ b'\n' ∷ s) (multiline_loop-current options line 1 lines k.0 k.1))
      | inr e ↦
          let joined : join_line current line ≡ current ++ b'\n' ∷ line = rw (join_line, h) refl in
          rw (multiline_loop, e)
            (multiline_loop-current options (join_line current line) (suc current_lines) lines
                (join_line-HasBytes current line k.0) k.1
              ∙ ap (λ s. s ++ b'\n' ∷ join_lines lines) joined
              ∙ append_assoc current (b'\n' ∷ line) (b'\n' ∷ join_lines lines))
    ]

-- Lines that are not empty are joined to records without a loss: the records hold the same lines, in
-- their order.
apply_multiline_records-join_lines :
    (options : MultilineOptions) (lines : List Bytes)
    → All HasBytes lines
    → join_lines (apply_multiline_records options lines) ≡ join_lines lines
unfolding apply_multiline_records multiline_loop record_ends join_line join_lines
apply_multiline_records-join_lines options [] h = elim (Bool-cases options.enabled) [
  | inl e ↦ rw e refl
  | inr e ↦ rw e refl
]
apply_multiline_records-join_lines options (line ∷ lines) h = elim (Bool-cases options.enabled) [
  | inr e ↦ rw e refl
  | inl e ↦
      let several : (suc (length lines) == 0) ≡ false = ground arith in
      rw (e, several) (multiline_loop-current options line 1 lines h.0 h.1)
]
