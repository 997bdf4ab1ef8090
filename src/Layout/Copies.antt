-- ===== src/Layout/Copies.antt =====
-- The loop of `collect_archive_segments` in src/log_layout.cc over the copies of an archive.
use mathlib.Core.Path.{subst}
use seastar_log_engine.Prelude.{
  ◌≢◌, bytes_lt, ◌≡◌, refl, sym, ◌⊎◌, inl, inr, true, false, Bool-cases, List, [], ◌∷◌, arith,
  if◌then◌else◌, All, All-mono,
}
use seastar_log_engine.Layout.Order.{bytes_lt_irrefl, bytes_lt-asym, bytes_lt-cotrans}
use seastar_log_engine.Layout.{
  SegmentDescriptor, bool_eq, same_archive_identity, prefer_archive_candidate, dedupe_from, dedupe,
}

-- Two segments are copies of one archive: the shard, the time and the number of the rotation agree.
pub record SameArchive (s t : SegmentDescriptor) : Type 0 where
  pub same_shard : s.shard_id ≡ t.shard_id
  pub same_time : s.timestamp_ms ≡ t.timestamp_ms
  pub same_rotation : s.rotation_index ≡ t.rotation_index

abbrev pub Differ : SegmentDescriptor → SegmentDescriptor → Type 0
Differ s t =
    (s.shard_id ≢ t.shard_id)
    ⊎ ((s.timestamp_ms ≢ t.timestamp_ms) ⊎ (s.rotation_index ≢ t.rotation_index))

-- The first copy is as good as the second: it is not compressed and the second is; or both are alike,
-- and its path is not behind that of the second.
abbrev pub AsGood : SegmentDescriptor → SegmentDescriptor → Type 0
AsGood t s =
    ((t.compressed ≡ false) × (s.compressed ≡ true))
    ⊎ ((t.compressed ≡ s.compressed) × (bytes_lt s.path t.path ≡ false))

-- Neighbours are different archives.
pub NoRepeat : List SegmentDescriptor → Type 0
NoRepeat [] = Unit
NoRepeat (s ∷ []) = Unit
NoRepeat (s ∷ t ∷ segments) = Differ s t × NoRepeat (t ∷ segments)

-- One of the segments is a copy of this archive that is as good as this one.
pub Kept : List SegmentDescriptor → SegmentDescriptor → Type 0
Kept [] s = ⊥
Kept (t ∷ segments) s = (SameArchive s t × AsGood t s) ⊎ Kept segments s

-- The segment is one of these.
pub OneOf : List SegmentDescriptor → SegmentDescriptor → Type 0
OneOf [] s = ⊥
OneOf (t ∷ segments) s = (s ≡ t) ⊎ OneOf segments s

abbrev pub IsArchived : SegmentDescriptor → Type 0
IsArchived s = s.archived ≡ true

identity-SameArchive :
    (s t : SegmentDescriptor) → same_archive_identity s t ≡ true → SameArchive s t
unfolding same_archive_identity
identity-SameArchive s t h = record {
  same_shard = ground (arith, h);
  same_time = ground (arith, h);
  same_rotation = ground (arith, h);
}

identity-Differ :
    (s t : SegmentDescriptor)
    → IsArchived s
    → IsArchived t
    → same_archive_identity s t ≡ false
    → Differ s t
unfolding same_archive_identity
identity-Differ s t hs ht h = ground (arith, hs, ht, h)

AsGood-refl : (s : SegmentDescriptor) → AsGood s s
AsGood-refl s = inr (refl, bytes_lt_irrefl s.path)

AsGood-trans : (a b c : SegmentDescriptor) → AsGood a b → AsGood b c → AsGood a c
AsGood-trans a b c h k = ground (arith, h, k, bytes_lt-cotrans c.path b.path a.path)

identity_refl : (s : SegmentDescriptor) → IsArchived s → same_archive_identity s s ≡ true
unfolding same_archive_identity
identity_refl s h = ground arith

identity_trans :
    (s t u : SegmentDescriptor)
    → same_archive_identity s t ≡ true
    → same_archive_identity t u ≡ true
    → same_archive_identity s u ≡ true
unfolding same_archive_identity
identity_trans s t u h k = ground arith

identity-sym :
    (s t : SegmentDescriptor) → same_archive_identity s t ≡ true → same_archive_identity t s ≡ true
unfolding same_archive_identity
identity-sym s t h = ground arith

-- Another archive than one copy is another archive than the other copy.
Differ-copy : (s t u : SegmentDescriptor) → Differ s t → SameArchive t u → Differ s u
Differ-copy s t u h k = ground (arith, h, k.same_shard, k.same_time, k.same_rotation)

-- The copy that is kept of two.
pick : SegmentDescriptor → SegmentDescriptor → SegmentDescriptor
pick current s = if prefer_archive_candidate s current then s else current

dedupe_from-copy :
    (current s : SegmentDescriptor) (segments : List SegmentDescriptor)
    → same_archive_identity current s ≡ true
    → dedupe_from current (s ∷ segments) ≡ dedupe_from (pick current s) segments
unfolding dedupe_from pick
dedupe_from-copy current s segments h = rw h refl

dedupe_from-other :
    (current s : SegmentDescriptor) (segments : List SegmentDescriptor)
    → same_archive_identity current s ≡ false
    → dedupe_from current (s ∷ segments) ≡ current ∷ dedupe_from s segments
unfolding dedupe_from
dedupe_from-other current s segments h = rw h refl

pick-identity :
    (current s : SegmentDescriptor)
    → IsArchived current
    → same_archive_identity current s ≡ true
    → same_archive_identity current (pick current s) ≡ true
unfolding pick
pick-identity current s h same = elim (Bool-cases (prefer_archive_candidate s current)) [
  | inl prefer ↦ rw prefer same
  | inr keep ↦ rw keep (identity_refl current h)
]

pick-IsArchived :
    (current s : SegmentDescriptor)
    → IsArchived current
    → IsArchived s
    → IsArchived (pick current s)
unfolding pick
pick-IsArchived current s h k = elim (Bool-cases (prefer_archive_candidate s current)) [
  | inl prefer ↦ rw prefer k
  | inr keep ↦ rw keep h
]

pick-AsGood :
    (current s : SegmentDescriptor) → AsGood (pick current s) current × AsGood (pick current s) s
unfolding pick prefer_archive_candidate bool_eq
pick-AsGood current s = elim (Bool-cases (prefer_archive_candidate s current)) [
  | inl prefer ↦
      rw prefer (ground (arith, prefer, bytes_lt-asym s.path current.path), AsGood-refl s)
  | inr keep ↦ rw keep (AsGood-refl current, ground (arith, keep))
]

dedupe_from-NoRepeat_behind :
    (x current : SegmentDescriptor) (segments : List SegmentDescriptor)
    → Differ x current
    → IsArchived current
    → All IsArchived segments
    → NoRepeat (x ∷ dedupe_from current segments)
unfolding NoRepeat dedupe_from
dedupe_from-NoRepeat_behind x current [] other h hs = (other, tt)
dedupe_from-NoRepeat_behind x current (s ∷ segments) other h hs =
    elim (Bool-cases (same_archive_identity current s)) [
      | inl same ↦
          subst (λ l. NoRepeat (x ∷ l)) (sym (dedupe_from-copy current s segments same))
            (dedupe_from-NoRepeat_behind x (pick current s) segments
              (Differ-copy x current (pick current s) other
                (identity-SameArchive current (pick current s) (pick-identity current s h same)))
              (pick-IsArchived current s h hs.0) hs.1)
      | inr differs ↦
          subst (λ l. NoRepeat (x ∷ l)) (sym (dedupe_from-other current s segments differs))
            (
              other,
              dedupe_from-NoRepeat_behind current s segments
                  (identity-Differ current s h hs.0 differs) hs.0 hs.1,
            )
    ]

dedupe_from-NoRepeat :
    (current : SegmentDescriptor) (segments : List SegmentDescriptor)
    → IsArchived current
    → All IsArchived segments
    → NoRepeat (dedupe_from current segments)
unfolding NoRepeat dedupe_from
dedupe_from-NoRepeat current [] h hs = tt
dedupe_from-NoRepeat current (s ∷ segments) h hs =
    elim (Bool-cases (same_archive_identity current s)) [
      | inl same ↦
          subst NoRepeat (sym (dedupe_from-copy current s segments same))
            (dedupe_from-NoRepeat (pick current s) segments (pick-IsArchived current s h hs.0) hs.1)
      | inr differs ↦ subst NoRepeat (sym (dedupe_from-other current s segments differs)) (
          dedupe_from-NoRepeat_behind current s segments (identity-Differ current s h hs.0 differs)
            hs.0 hs.1)
    ]

dedupe_from-Kept_current :
    (u current : SegmentDescriptor) (segments : List SegmentDescriptor)
    → same_archive_identity u current ≡ true
    → AsGood current u
    → IsArchived current
    → All IsArchived segments
    → Kept (dedupe_from current segments) u
unfolding Kept dedupe_from
dedupe_from-Kept_current u current [] same good h hs =
    inl (identity-SameArchive u current same, good)
dedupe_from-Kept_current u current (s ∷ segments) same good h hs =
    elim (Bool-cases (same_archive_identity current s)) [
      | inl copy ↦
          subst (λ l. Kept l u) (sym (dedupe_from-copy current s segments copy))
            (dedupe_from-Kept_current u (pick current s) segments
              (identity_trans u current (pick current s) same (pick-identity current s h copy))
              (AsGood-trans (pick current s) current u (pick-AsGood current s).0 good)
              (pick-IsArchived current s h hs.0) hs.1)
      | inr differs ↦
          subst (λ l. Kept l u) (sym (dedupe_from-other current s segments differs))
            (inl (identity-SameArchive u current same, good))
    ]

dedupe_from-Kept :
    (current : SegmentDescriptor) (segments : List SegmentDescriptor)
    → IsArchived current
    → All IsArchived segments
    → All (Kept (dedupe_from current segments)) segments
unfolding Kept dedupe_from
dedupe_from-Kept current [] h hs = tt
dedupe_from-Kept current (s ∷ segments) h hs = elim (Bool-cases (same_archive_identity current s)) [
  | inl copy ↦
      let picked = pick-IsArchived current s h hs.0 in
      let same =
        identity_trans s current (pick current s) (identity-sym current s copy)
          (pick-identity current s h copy) in
      subst (λ l. All (Kept l) (s ∷ segments)) (sym (dedupe_from-copy current s segments copy))
        (
          dedupe_from-Kept_current s (pick current s) segments same (pick-AsGood current s).1 picked
              hs.1,
          dedupe_from-Kept (pick current s) segments picked hs.1,
        )
  | inr differs ↦
      subst (λ l. All (Kept l) (s ∷ segments)) (sym (dedupe_from-other current s segments differs))
        (
          inr (
              dedupe_from-Kept_current s s segments (identity_refl s hs.0) (AsGood-refl s) hs.0
                hs.1),
          All-mono _ _ (λ t k. inr k) segments (dedupe_from-Kept s segments hs.0 hs.1),
        )
]

pick-OneOf :
    (current s t : SegmentDescriptor) (segments : List SegmentDescriptor)
    → OneOf (pick current s ∷ segments) t
    → OneOf (current ∷ s ∷ segments) t
unfolding pick OneOf
pick-OneOf current s t segments h = elim (Bool-cases (prefer_archive_candidate s current)) [
  | inl prefer ↦ elim (rw prefer at h) [ inl e ↦ inr (inl e) | inr k ↦ inr (inr k) ]
  | inr keep ↦ elim (rw keep at h) [ inl e ↦ inl e | inr k ↦ inr (inr k) ]
]

dedupe_from-OneOf :
    (current : SegmentDescriptor) (segments : List SegmentDescriptor)
    → All (OneOf (current ∷ segments)) (dedupe_from current segments)
unfolding OneOf dedupe_from
dedupe_from-OneOf current [] = (inl refl, tt)
dedupe_from-OneOf current (s ∷ segments) = elim (Bool-cases (same_archive_identity current s)) [
  | inl copy ↦
      subst (All (OneOf (current ∷ s ∷ segments))) (sym (dedupe_from-copy current s segments copy))
        (All-mono _ _ (λ t h. pick-OneOf current s t segments h)
          (dedupe_from (pick current s) segments) (dedupe_from-OneOf (pick current s) segments))
  | inr differs ↦
      subst (All (OneOf (current ∷ s ∷ segments)))
        (sym (dedupe_from-other current s segments differs))
        (
          inl refl,
          All-mono _ _ (λ t h. inr h) (dedupe_from s segments) (dedupe_from-OneOf s segments),
        )
]

-- Of archives, copies of one archive that stand together are merged to one, and no archive is lost: for
-- each segment a copy of the same archive is kept, by shard, time and rotation, that is as good, which
-- is one that is not compressed before one that is, and then one with the lesser path. What is kept is
-- one of the segments, and neighbours are different archives.
pub dedupe-Kept :
    (segments : List SegmentDescriptor)
    → All IsArchived segments
    → All (Kept (dedupe segments)) segments
      × NoRepeat (dedupe segments)
      × All (OneOf segments) (dedupe segments)
unfolding dedupe NoRepeat
dedupe-Kept [] hs = (tt, tt, tt)
dedupe-Kept (s ∷ segments) hs = (
  (
    dedupe_from-Kept_current s s segments (identity_refl s hs.0) (AsGood-refl s) hs.0 hs.1,
    dedupe_from-Kept s segments hs.0 hs.1,
  ),
  dedupe_from-NoRepeat s segments hs.0 hs.1,
  dedupe_from-OneOf s segments,
)
