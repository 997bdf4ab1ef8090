-- ===== src/Retention/Newest.antt =====
-- The order of the archives in `cleanup_archives` of src/log_manager.cc, and what is kept of them.
use mathlib.Core.List.{Perm}
use mathlib.Core.List.Perm
use mathlib.Core.Path.{subst}
use seastar_log_engine.Prelude.{
  ℕ, zero, suc, ◌<◌, ◌≤◌, ◌⊎◌, ◌∙◌, refl, min, ltb, length, length-take, ◌≡◌, sym, inl, inr, true,
  false, Bool-cases, List, [], ◌∷◌, ◌++◌, arith, All, All-mono, take, drop, take-append-drop,
}
use seastar_log_engine.Layout.{SegmentDescriptor}
use seastar_log_engine.Retention.{newer, insert_newer, newest_first}

Descending : List SegmentDescriptor → Type 0
Descending [] = Unit
Descending (s ∷ segments) = All (λ t. newer t s ≡ false) segments × Descending segments

newer-asym : (s t : SegmentDescriptor) → newer s t ≡ true → newer t s ≡ false
unfolding newer
newer-asym s t h = ground arith

newer-cotrans :
    (s t u : SegmentDescriptor) → newer s t ≡ false → newer t u ≡ false → newer s u ≡ false
unfolding newer
newer-cotrans s t u h k = ground arith

insert_newer-All :
    (P : SegmentDescriptor → Type 0) (s : SegmentDescriptor) (segments : List SegmentDescriptor)
    → P s
    → All P segments
    → All P (insert_newer s segments)
unfolding insert_newer
insert_newer-All P s [] p h = (p, tt)
insert_newer-All P s (t ∷ segments) p h = elim (Bool-cases (newer t s)) [
  | inl before ↦ rw before (h.0, insert_newer-All P s segments p h.1)
  | inr after ↦ rw after (p, h)
]

insert_newer-Descending :
    (s : SegmentDescriptor) (segments : List SegmentDescriptor)
    → Descending segments
    → Descending (insert_newer s segments)
unfolding insert_newer Descending
insert_newer-Descending s [] h = (tt, tt)
insert_newer-Descending s (t ∷ segments) h = elim (Bool-cases (newer t s)) [
  | inl before ↦ rw before (
    insert_newer-All (λ u. newer u t ≡ false) s segments (newer-asym t s before) h.0,
    insert_newer-Descending s segments h.1,
  )
  | inr after ↦
      rw after ((after, All-mono _ _ (λ u k. newer-cotrans u t s k after) segments h.0), h)
]

insert_newer-perm :
    (s : SegmentDescriptor) (segments : List SegmentDescriptor)
    → Perm (insert_newer s segments) (s ∷ segments)
unfolding insert_newer
insert_newer-perm s [] = Perm.refl (s ∷ [])
insert_newer-perm s (t ∷ segments) = elim (Bool-cases (newer t s)) [
  | inl before ↦
      rw before (Perm.trans (Perm.cons t (insert_newer-perm s segments)) (Perm.swap s t segments))
  | inr after ↦ rw after (Perm.refl (s ∷ t ∷ segments))
]

length-insert_newer :
    (s : SegmentDescriptor) (segments : List SegmentDescriptor)
    → length (insert_newer s segments) ≡ suc (length segments)
unfolding insert_newer
length-insert_newer s [] = refl
length-insert_newer s (t ∷ segments) = elim (Bool-cases (newer t s)) [
  | inl before ↦ rw before (omega (arith, length-insert_newer s segments))
  | inr after ↦ rw after refl
]

newest_first-Descending :
    (segments : List SegmentDescriptor)
    → Descending (newest_first segments) × Perm (newest_first segments) segments
unfolding newest_first Descending
newest_first-Descending [] = (tt, Perm.refl [])
newest_first-Descending (s ∷ segments) =
    let rest = newest_first-Descending segments in
    (
      insert_newer-Descending s (newest_first segments) rest.0,
      Perm.trans (insert_newer-perm s (newest_first segments)) (Perm.cons s rest.1),
    )

All-drop :
    (P : SegmentDescriptor → Type 0) (n : ℕ) (segments : List SegmentDescriptor)
    → All P segments
    → All P (drop n segments)
All-drop P zero segments h = h
All-drop P (suc n) [] h = tt
All-drop P (suc n) (s ∷ segments) h = All-drop P n segments h.1

take-NewerThan :
    (n : ℕ) (segments : List SegmentDescriptor)
    → Descending segments
    → All (λ k. All (λ x. newer x k ≡ false) (drop n segments)) (take n segments)
unfolding Descending
take-NewerThan zero segments h = tt
take-NewerThan (suc n) [] h = tt
take-NewerThan (suc n) (s ∷ segments) h =
    (All-drop (λ x. newer x s ≡ false) n segments h.0, take-NewerThan n segments h.1)

-- The first is not newer than the second: by the time in its name, or with the same time by the number
-- of its rotation.
abbrev pub NotNewer : SegmentDescriptor → SegmentDescriptor → Type 0
NotNewer x k =
    (x.timestamp_ms < k.timestamp_ms)
    ⊎ ((x.timestamp_ms ≡ k.timestamp_ms) × (x.rotation_index ≤ k.rotation_index))

newer-NotNewer : (x k : SegmentDescriptor) → newer x k ≡ false → NotNewer x k
unfolding newer
newer-NotNewer x k h = elim (Bool-cases (ltb x.timestamp_ms k.timestamp_ms)) [
  | inl before ↦ inl (ground (arith, before))
  | inr after ↦ inr (ground (arith, h, after), ground (arith, h, after))
]

-- Archives in two parts: together they are these; the first has as many as the count allows; and none of
-- the second is newer than one of the first.
pub record Split (count : ℕ) (archived kept excess : List SegmentDescriptor) : Type 0 where
  pub same : Perm (kept ++ excess) archived
  pub full : length kept ≡ min count (length archived)
  pub newest : All (λ k. All (λ x. NotNewer x k) excess) kept

length-newest_first :
    (segments : List SegmentDescriptor) → length (newest_first segments) ≡ length segments
unfolding newest_first
length-newest_first [] = refl
length-newest_first (s ∷ segments) =
    length-insert_newer s (newest_first segments) ∙ omega (arith, length-newest_first segments)

pub newest_first-Split :
    (count : ℕ) (archived : List SegmentDescriptor)
    → Split count archived (take count (newest_first archived)) (drop count (newest_first archived))
newest_first-Split count archived =
    let order = newest_first-Descending archived in
    let sorted = newest_first archived in
    record {
      same = subst (λ l. Perm l archived) (sym (take-append-drop count sorted)) order.1;
      full = omega (arith, length-take count sorted, length-newest_first archived);
      newest =
          All-mono _ _ (λ k h. All-mono _ _ (λ x old. newer-NotNewer x k old) (drop count sorted) h)
            (take count sorted) (take-NewerThan count sorted order.0);
    }
