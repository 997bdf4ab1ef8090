-- ===== src/Agent/Tail/Lines.antt =====
-- What `tail_file_once` of src/agent_support.cc takes of a file.
use mathlib.Core.Path.{subst}
use seastar_log_engine.Prelude.{
  Option, some, ◌||◌, leb, ℕ, zero, suc, ◌+◌, ◌≤◌, ◌≡◌, ◌≢◌, refl, sym, ap, ◌∙◌, inl, inr,
  Bool-cases, List, [], ◌∷◌, ◌++◌, append-nil, append_assoc, arith, Bytes, All, All-append, length,
  length-append, drop, ◌==◌, ◌⊎◌,
}
use seastar_log_engine.Codec.Record.Find.{Lacks}
use seastar_log_engine.Codec.Scan.Lines.{join_lines}
use seastar_log_engine.Agent.{SourceOffset}
use seastar_log_engine.Agent.Tail.{
  TailBatch, start_offset, rotated, push_line, tail_lines, tail_batch, tail_file_once,
}

-- The bytes behind a line begun are these lines, each with its end, and the rest; the offset is behind
-- the last line; and when there is room left, the rest has no whole line.
pub record Takes (room : ℕ) (line bytes : Bytes) (committed : ℕ) (r : List Bytes × ℕ) : Type 0 where
  pub rest : Bytes
  pub splits : line ++ bytes ≡ join_lines r.0 ++ rest
  pub reaches : r.1 ≡ committed + length (join_lines r.0)
  pub whole : All (Lacks b'\n') r.0
  pub fits : length r.0 ≤ room
  pub ends : (length r.0 ≡ room) ⊎ Lacks b'\n' rest

tail_lines-Takes :
    (room : ℕ) (line : Bytes) (committed : ℕ) (bytes : Bytes)
    → Lacks b'\n' line
    → Takes room line bytes committed (tail_lines room line committed bytes)
unfolding tail_lines join_lines push_line
tail_lines-Takes zero line committed bytes h = record {
  rest = line ++ bytes;
  splits = refl;
  reaches = omega arith;
  whole = tt;
  fits = omega arith;
  ends = inl refl;
}
tail_lines-Takes (suc room) line committed [] h = record {
  rest = line;
  splits = append-nil line;
  reaches = omega arith;
  whole = tt;
  fits = omega arith;
  ends = inr h;
}
tail_lines-Takes (suc room) line committed (c ∷ bytes) h = elim (Bool-cases (c == b'\n')) [
  | inr other ↦
      let lacks : Lacks b'\n' (line ++ c ∷ []) =
        All-append (λ b. b ≢ b'\n') line (c ∷ []) h (ground (arith, other), tt) in
      let later = tail_lines-Takes (suc room) (line ++ c ∷ []) committed bytes lacks in
      rw (tail_lines, other)
        (record {
          rest = later.rest;
          splits = sym (append_assoc line (c ∷ []) bytes) ∙ later.splits;
          reaches = later.reaches;
          whole = later.whole;
          fits = later.fits;
          ends = later.ends;
        })
  | inl end ↦
      let next = tail_lines room [] (committed + length line + 1) bytes in
      let later = tail_lines-Takes room [] (committed + length line + 1) bytes tt in
      let joined = join_lines next.0 in
      let newline : c ≡ b'\n' = ground (arith, end) in
      rw (tail_lines, end)
        (record {
          rest = later.rest;
          splits =
              ap (λ b. line ++ b ∷ bytes) newline
              ∙ ap (λ s. line ++ b'\n' ∷ s) later.splits
              ∙ sym (append_assoc line (b'\n' ∷ joined) later.rest);
          reaches = omega (arith, later.reaches, length-append line (b'\n' ∷ joined));
          whole = (h, later.whole);
          fits = omega (arith, later.fits);
          ends = elim later.ends [ inl full ↦ inl (omega (arith, full)) | inr short ↦ inr short ];
        })
]

-- What a batch says of a file with this content.
pub Tails : ℕ → ℕ → Bytes → TailBatch → Type 0
Tails max_lines start content batch =
    Takes max_lines [] (drop start content) start (batch.lines, batch.next_offset.offset)

drop-all : (n : ℕ) (s : Bytes) → length s ≤ n → drop n s ≡ []
drop-all zero [] h = refl
drop-all zero (c ∷ s) h = absurd (omega (arith, h))
drop-all (suc n) [] h = refl
drop-all (suc n) (c ∷ s) h = drop-all n s (omega (arith, h))

nothing-Takes :
    (max_lines start : ℕ) (bytes : Bytes)
    → (max_lines ≡ 0) ⊎ (bytes ≡ [])
    → Takes max_lines [] bytes start ([], start)
unfolding join_lines
nothing-Takes max_lines start bytes none_wanted = record {
  rest = bytes;
  splits = refl;
  reaches = omega arith;
  whole = tt;
  fits = omega arith;
  ends = elim none_wanted [
    | inl zero_lines ↦ inl (sym zero_lines)
    | inr e ↦ inr (subst (Lacks b'\n') (sym e) tt)
  ];
}

-- The new lines of a file are taken whole and in their order, from the start offset on, at most as
-- many as are wanted; the next offset is behind the last of them; and when fewer are taken, no whole
-- line is left behind them.
pub tail_file_once-Tails :
    (path : Bytes) (inode : ℕ) (previous : Option SourceOffset) (max_lines : ℕ) (content : Bytes)
    → (batch : TailBatch) × (tail_file_once path inode
          (length content)
          previous
          max_lines
          (some content)
        ≡ some batch)
      × Tails max_lines (start_offset path inode (length content) previous) content batch
unfolding tail_file_once Tails tail_batch
tail_file_once-Tails path inode previous max_lines content =
    let start = start_offset path inode (length content) previous in
    let read = tail_lines max_lines [] start (drop start content) in
    let changed = rotated path inode (length content) previous in
    elim (Bool-cases (max_lines == 0 || leb (length content) start)) [
      | inl idle ↦ (
        tail_batch path inode changed ([], start),
        rw idle refl,
        nothing-Takes max_lines start (drop start content) (elim (Bool-cases (max_lines == 0)) [
          | inl e ↦ inl (ground (arith, e))
          | inr e ↦ inr (drop-all start content (ground (arith, e, idle)))
        ]),
      )
      | inr busy ↦ (
        tail_batch path inode changed read,
        rw busy refl,
        tail_lines-Takes max_lines [] start (drop start content) tt,
      )
    ]
