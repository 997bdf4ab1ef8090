-- ===== src/Agent/Offsets/Delivery.antt =====
-- The delivery offsets in src/agent_support.cc are read back as they were stored, in the order of the
-- shards.
use native.Mathlib.Nat.{mod-eq_of_lt}
use mathlib.Core.List.{Perm}
use mathlib.Core.List.Perm
use seastar_log_engine.Prelude.{
  ◌<◌, ◌≤◌, ◌≡◌, refl, ap, ◌∙◌, inl, inr, false, Bool-cases, some, List, [], ◌∷◌, ◌++◌, arith,
  false, starts_with, Bytes, codes, to_decimal, u32_modulus, u64_modulus, All, All-mono, ltb, ◌>>=◌,
}
use seastar_log_engine.Codec.Record.Find.{Lacks}
use seastar_log_engine.Agent.{DeliveryOffset}
use seastar_log_engine.Agent.Lines.{
  text_lines, text_lines-line, text_lines-nil, split_pair, split_pair-append, parse_u64-to_decimal,
  to_decimal-Lacks, to_decimal-Lacks_newline, key-Lacks_newline, key-Lacks,
}
use seastar_log_engine.Agent.Offsets.{
  delivery_row, insert_offset, sort_offsets, delivery_rows, render_delivery_offsets,
  delivery_offset_of, parse_delivery_parts, parse_delivery_line, parse_delivery_lines, or_single,
  parse_delivery_offsets_text,
}

-- The numbers fit their types.
pub record Fits (o : DeliveryOffset) : Type 0 where
  pub shard_fits : o.shard < u32_modulus
  pub sequence_fits : o.next_sequence < u64_modulus

-- The shards do not fall.
pub Ascending : List DeliveryOffset → Type 0
Ascending [] = Unit
Ascending (o ∷ offsets) = All (λ p. o.shard ≤ p.shard) offsets × Ascending offsets

insert_offset-All :
    (P : DeliveryOffset → Type 0) (o : DeliveryOffset) (offsets : List DeliveryOffset)
    → P o
    → All P offsets
    → All P (insert_offset o offsets)
unfolding insert_offset
insert_offset-All P o [] p h = (p, tt)
insert_offset-All P o (q ∷ offsets) p h = elim (Bool-cases (ltb q.shard o.shard)) [
  | inl before ↦ rw before (h.0, insert_offset-All P o offsets p h.1)
  | inr after ↦ rw after (p, h)
]

sort_offsets-All :
    (P : DeliveryOffset → Type 0) (offsets : List DeliveryOffset)
    → All P offsets
    → All P (sort_offsets offsets)
unfolding sort_offsets
sort_offsets-All P [] h = tt
sort_offsets-All P (o ∷ offsets) h =
    insert_offset-All P o (sort_offsets offsets) h.0 (sort_offsets-All P offsets h.1)

insert_offset-Ascending :
    (o : DeliveryOffset) (offsets : List DeliveryOffset)
    → Ascending offsets
    → Ascending (insert_offset o offsets)
unfolding insert_offset Ascending
insert_offset-Ascending o [] h = (tt, tt)
insert_offset-Ascending o (q ∷ offsets) h = elim (Bool-cases (ltb q.shard o.shard)) [
  | inl before ↦ rw before (
    insert_offset-All (λ p. q.shard ≤ p.shard) o offsets (ground (arith, before)) h.0,
    insert_offset-Ascending o offsets h.1,
  )
  | inr after ↦
      let first : o.shard ≤ q.shard = ground (arith, after) in
      rw after ((first, All-mono _ _ (λ p k. omega (arith, first, k)) offsets h.0), h)
]

insert_offset-perm :
    (o : DeliveryOffset) (offsets : List DeliveryOffset)
    → Perm (insert_offset o offsets) (o ∷ offsets)
unfolding insert_offset
insert_offset-perm o [] = Perm.refl (o ∷ [])
insert_offset-perm o (q ∷ offsets) = elim (Bool-cases (ltb q.shard o.shard)) [
  | inl before ↦
      rw before (Perm.trans (Perm.cons q (insert_offset-perm o offsets)) (Perm.swap o q offsets))
  | inr after ↦ rw after (Perm.refl (o ∷ q ∷ offsets))
]

sort_offsets-Ascending :
    (offsets : List DeliveryOffset)
    → Ascending (sort_offsets offsets) × Perm (sort_offsets offsets) offsets
unfolding sort_offsets Ascending
sort_offsets-Ascending [] = (tt, Perm.refl [])
sort_offsets-Ascending (o ∷ offsets) =
    let rest = sort_offsets-Ascending offsets in
    (
      insert_offset-Ascending o (sort_offsets offsets) rest.0,
      Perm.trans (insert_offset-perm o (sort_offsets offsets)) (Perm.cons o rest.1),
    )

delivery_row-Lacks : (o : DeliveryOffset) → Lacks b'\n' (delivery_row o)
unfolding delivery_row
delivery_row-Lacks o =
    key-Lacks_newline (codes "shard=" ++ to_decimal o.shard)
      (b',' ∷ (codes "next_sequence=" ++ to_decimal o.next_sequence))
      (key-Lacks_newline (codes "shard=") (to_decimal o.shard) (omega arith)
        (to_decimal-Lacks_newline o.shard))
      (
        omega arith,
        key-Lacks_newline (codes "next_sequence=") (to_decimal o.next_sequence) (omega arith)
            (to_decimal-Lacks_newline o.next_sequence),
      )

parse_delivery_line-row :
    (o : DeliveryOffset) → Fits o → parse_delivery_line (delivery_row o) ≡ some (o ∷ [])
unfolding parse_delivery_line delivery_row parse_delivery_parts delivery_offset_of
parse_delivery_line-row o fits =
    let shard_part = codes "shard=" ++ to_decimal o.shard in
    let seq_part = codes "next_sequence=" ++ to_decimal o.next_sequence in
    let no_comma : Lacks b',' (to_decimal o.shard) =
      to_decimal-Lacks b',' o.shard (λ d h. omega (arith, h)) in
    let not_comment : starts_with (codes "#") (delivery_row o) ≡ false =
      unfold delivery_row in ground arith in
    rw
      (
        parse_delivery_line,
        not_comment,
        split_pair-append b',' shard_part seq_part
            (key-Lacks b',' (codes "shard=") (to_decimal o.shard) (omega arith) no_comma),
      )
      (rw
        (
          parse_delivery_parts,
          split_pair-append b'=' (codes "shard") (to_decimal o.shard) (omega arith),
          split_pair-append b'=' (codes "next_sequence") (to_decimal o.next_sequence) (omega arith),
          parse_u64-to_decimal o.shard (omega (arith, fits.shard_fits)),
          parse_u64-to_decimal o.next_sequence fits.sequence_fits,
          mod-eq_of_lt fits.shard_fits,
        )
        refl)

parse_delivery_lines-rows :
    (offsets : List DeliveryOffset)
    → All Fits offsets
    → parse_delivery_lines (text_lines (delivery_rows offsets)) ≡ some offsets
unfolding parse_delivery_lines delivery_rows
parse_delivery_lines-rows [] fits = ap parse_delivery_lines text_lines-nil
parse_delivery_lines-rows (o ∷ offsets) fits =
    ap parse_delivery_lines
      (text_lines-line (delivery_row o) (delivery_rows offsets) (delivery_row-Lacks o))
    ∙ rw (parse_delivery_line-row o fits.0, parse_delivery_lines-rows offsets fits.1) refl

parse_delivery_lines-render :
    (offsets : List DeliveryOffset)
    → All Fits offsets
    → parse_delivery_lines (text_lines (render_delivery_offsets offsets))
      ≡ some (sort_offsets offsets)
unfolding parse_delivery_lines parse_delivery_line render_delivery_offsets split_pair
parse_delivery_lines-render offsets fits =
    ap parse_delivery_lines (
      text_lines-line (codes "format_version=2") (delivery_rows (sort_offsets offsets))
        (omega arith))
    ∙ rw (parse_delivery_lines-rows (sort_offsets offsets) (sort_offsets-All Fits offsets fits))
        refl

or_single-insert :
    (content : Bytes) (o : DeliveryOffset) (offsets : List DeliveryOffset)
    → or_single content (insert_offset o offsets) ≡ some (insert_offset o offsets)
unfolding or_single insert_offset
or_single-insert content o [] = refl
or_single-insert content o (p ∷ offsets) = elim (Bool-cases (ltb p.shard o.shard)) [
  | inl before ↦ rw before refl
  | inr after ↦ rw after refl
]

or_single-sort :
    (content : Bytes) (first : DeliveryOffset) (others : List DeliveryOffset)
    → or_single content (sort_offsets (first ∷ others)) ≡ some (sort_offsets (first ∷ others))
unfolding or_single sort_offsets
or_single-sort content first others = or_single-insert content first (sort_offsets others)

-- Delivery offsets that were stored are read back: the same offsets, in the order of their shards.
pub parse_delivery_offsets_text-render :
    (first : DeliveryOffset) (others : List DeliveryOffset)
    → All Fits (first ∷ others)
    → (loaded : List DeliveryOffset) × (parse_delivery_offsets_text
          (render_delivery_offsets (first ∷ others))
        ≡ some loaded)
      × Ascending loaded
      × Perm loaded (first ∷ others)
unfolding parse_delivery_offsets_text
parse_delivery_offsets_text-render first others fits =
    let offsets = first ∷ others in
    let content = render_delivery_offsets offsets in
    (
      sort_offsets offsets,
      ap (λ o. o >>= or_single content) (parse_delivery_lines-render offsets fits)
          ∙ or_single-sort content first others,
      (sort_offsets-Ascending offsets).0,
      (sort_offsets-Ascending offsets).1,
    )
