-- ===== src/Layout/Order.antt =====
-- The order of segments in src/log_layout.cc, and the choice between copies of an archive.
use mathlib.Core.List.{Perm}
use mathlib.Core.List.Perm
use seastar_log_engine.Prelude.{
  ◌≡◌, refl, inl, inr, true, false, Bool-cases, List, [], ◌∷◌, arith, Bytes, All, All-mono,
  bytes_lt,
}
use seastar_log_engine.Layout.{
  SegmentDescriptor, bool_eq, segment_lt, insert_segment, sort_segments,
}

-- No segment comes before one that stands in front of it.
pub Sorted : List SegmentDescriptor → Type 0
Sorted [] = Unit
Sorted (s ∷ segments) = All (λ t. segment_lt t s ≡ false) segments × Sorted segments

pub bytes_lt_irrefl : (s : Bytes) → bytes_lt s s ≡ false
bytes_lt_irrefl [] = refl
bytes_lt_irrefl (c ∷ s) = ground (arith, bytes_lt_irrefl s)

pub bytes_lt-asym : (s t : Bytes) → bytes_lt s t ≡ true → bytes_lt t s ≡ false
bytes_lt-asym [] [] h = refl
bytes_lt-asym [] (d ∷ t) h = refl
bytes_lt-asym (c ∷ s) [] h = absurd (cc h)
bytes_lt-asym (c ∷ s) (d ∷ t) h = ground (arith, bytes_lt-asym s t)

pub bytes_lt-cotrans :
    (s t u : Bytes) → bytes_lt s t ≡ false → bytes_lt t u ≡ false → bytes_lt s u ≡ false
bytes_lt-cotrans s t [] h k = refl
bytes_lt-cotrans s [] (d ∷ u) h k = absurd (cc k)
bytes_lt-cotrans [] (c ∷ t) (d ∷ u) h k = absurd (cc h)
bytes_lt-cotrans (b ∷ s) (c ∷ t) (d ∷ u) h k = ground (arith, bytes_lt-cotrans s t u)

segment_lt-asym : (s t : SegmentDescriptor) → segment_lt s t ≡ true → segment_lt t s ≡ false
unfolding segment_lt bool_eq
segment_lt-asym s t h = ground (arith, bytes_lt-asym s.path t.path)

segment_lt-cotrans :
    (s t u : SegmentDescriptor)
    → segment_lt s t ≡ false
    → segment_lt t u ≡ false
    → segment_lt s u ≡ false
unfolding segment_lt bool_eq
segment_lt-cotrans s t u h k = ground (arith, bytes_lt-cotrans s.path t.path u.path)

insert_segment-All :
    (P : SegmentDescriptor → Type 0) (s : SegmentDescriptor) (segments : List SegmentDescriptor)
    → P s
    → All P segments
    → All P (insert_segment s segments)
unfolding insert_segment
insert_segment-All P s [] p h = (p, tt)
insert_segment-All P s (t ∷ segments) p h = elim (Bool-cases (segment_lt t s)) [
  | inl before ↦ rw before (h.0, insert_segment-All P s segments p h.1)
  | inr after ↦ rw after (p, h)
]

insert_segment-Sorted :
    (s : SegmentDescriptor) (segments : List SegmentDescriptor)
    → Sorted segments
    → Sorted (insert_segment s segments)
unfolding insert_segment Sorted
insert_segment-Sorted s [] h = (tt, tt)
insert_segment-Sorted s (t ∷ segments) h = elim (Bool-cases (segment_lt t s)) [
  | inl before ↦ rw before (
    insert_segment-All (λ u. segment_lt u t ≡ false) s segments (segment_lt-asym t s before) h.0,
    insert_segment-Sorted s segments h.1,
  )
  | inr after ↦
      rw after ((after, All-mono _ _ (λ u k. segment_lt-cotrans u t s k after) segments h.0), h)
]

insert_segment-perm :
    (s : SegmentDescriptor) (segments : List SegmentDescriptor)
    → Perm (insert_segment s segments) (s ∷ segments)
unfolding insert_segment
insert_segment-perm s [] = Perm.refl (s ∷ [])
insert_segment-perm s (t ∷ segments) = elim (Bool-cases (segment_lt t s)) [
  | inl before ↦
      rw before (Perm.trans (Perm.cons t (insert_segment-perm s segments)) (Perm.swap s t segments))
  | inr after ↦ rw after (Perm.refl (s ∷ t ∷ segments))
]

-- Sorting gives the same segments in the order of the comparison.
sort_segments-Sorted :
    (segments : List SegmentDescriptor)
    → Sorted (sort_segments segments) × Perm (sort_segments segments) segments
unfolding sort_segments Sorted
sort_segments-Sorted [] = (tt, Perm.refl [])
sort_segments-Sorted (s ∷ segments) =
    let rest = sort_segments-Sorted segments in
    (
      insert_segment-Sorted s (sort_segments segments) rest.0,
      Perm.trans (insert_segment-perm s (sort_segments segments)) (Perm.cons s rest.1),
    )
