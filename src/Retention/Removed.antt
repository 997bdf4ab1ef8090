-- ===== src/Retention/Removed.antt =====
-- Which archives `cleanup_archives` of src/log_manager.cc removes.
use mathlib.Core.Path.{subst}
use seastar_log_engine.Prelude.{
  ℕ, ◌≡◌, refl, ap, ◌⊎◌, inl, inr, Bool, true, false, not, ◌&&◌, ◌||◌, Bool-cases, Option-cases,
  Option, none, some, List, [], ◌∷◌, ◌++◌, arith, Bytes, bytes_eq, drop, take, ltb, if◌then◌else◌,
}
use seastar_log_engine.Config.{EngineConfig}
use seastar_log_engine.Layout.{SegmentDescriptor, collect_archive_segments}
use seastar_log_engine.Retention.Newest.{Split, newest_first-Split}
use seastar_log_engine.Retention.{
  ArchiveOps, newest_first, remove_all, keep, age_out, remove_aged, remove_excess, cleanup_archives,
}

-- One of the segments has this path.
pub names : Bytes → List SegmentDescriptor → Bool
names p [] = false
names p (s ∷ segments) = bytes_eq s.path p || names p segments

names-append :
    (p : Bytes) (xs ys : List SegmentDescriptor) → names p (xs ++ ys) ≡ (names p xs || names p ys)
unfolding names
names-append p [] ys = refl
names-append p (s ∷ xs) ys = ground (arith, names-append p xs ys)

module _ {D : Type 0} (ops : ArchiveOps D) (present : D → Bytes → Bool) where
  -- A removal that returns takes this file away and no other.
  unfoldable pub Removes : Type 0
  Removes =
      (path : Bytes) (d : D)
      → (ops.remove path d).0 ≡ true
      → (p : Bytes) → present (ops.remove path d).1 p ≡ (present d p && not (bytes_eq path p))

  -- The files of the second state are those of the first but for these.
  pub Without : D → List SegmentDescriptor → D → Type 0
  Without d removed d' = (p : Bytes) → present d' p ≡ (present d p && not (names p removed))

  Without-none : (d : D) → Without d [] d
  unfolding Without names
  Without-none d p = ground arith

  Without-append :
      (d d' d'' : D) (xs ys : List SegmentDescriptor)
      → Without d xs d'
      → Without d' ys d''
      → Without d (xs ++ ys) d''
  unfolding Without
  Without-append d d' d'' xs ys h k p = ground (arith, h p, k p, names-append p xs ys)

  Without-one :
      (law : Removes) (s : SegmentDescriptor) (d : D)
      → (ops.remove s.path d).0 ≡ true
      → Without d (s ∷ []) (ops.remove s.path d).1
  unfolding Without names Removes
  Without-one law s d e p = ground (arith, law s.path d e p)

  remove_all-Without :
      (law : Removes) (segments : List SegmentDescriptor) (d : D)
      → (remove_all ops segments d).0 ≡ true
      → Without d segments (remove_all ops segments d).1
  unfolding remove_all
  remove_all-Without law [] d = λ e. Without-none d
  remove_all-Without law (s ∷ segments) d = elim (Bool-cases (ops.remove s.path d).0) [
    | inr k ↦ rw (remove_all, k) (λ e. absurd (cc e))
    | inl k ↦
        rw (remove_all, k)
          (λ e.
            Without-append d _ _ (s ∷ []) segments (Without-one law s d k)
              (remove_all-Without law segments (ops.remove s.path d).1 e))
  ]

-- An archive that is over the retention.
pub is_aged : {D : Type 0} → ArchiveOps D → EngineConfig → SegmentDescriptor → Bool
is_aged ops config s = ltb 0 config.archive_retention_seconds && elim (ops.age s.path) [
  | none ↦ false
  | some seconds ↦ ltb config.archive_retention_seconds seconds
]

-- The archives that are over the retention, and those within it.
pub aged_of :
    {D : Type 0} → ArchiveOps D → EngineConfig → List SegmentDescriptor → List SegmentDescriptor
aged_of ops config [] = []
aged_of ops config (s ∷ segments) =
    if is_aged ops config s then s ∷ aged_of ops config segments else aged_of ops config segments

pub fresh_of :
    {D : Type 0} → ArchiveOps D → EngineConfig → List SegmentDescriptor → List SegmentDescriptor
fresh_of ops config [] = []
fresh_of ops config (s ∷ segments) =
    if is_aged ops config s then fresh_of ops config segments else s ∷ fresh_of ops config segments

module _ {D : Type 0} (ops : ArchiveOps D) (present : D → Bytes → Bool) (law : Removes ops present)
    (config : EngineConfig) where
  Verdict : SegmentDescriptor → D → Option Bool × D → Type 0
  Verdict s d y =
      (y.0 ≡ none)
      ⊎ ((y.0 ≡ some (is_aged ops config s))
          × Without ops present d (if is_aged ops config s then s ∷ [] else []) y.1)

  age_out-Verdict : (s : SegmentDescriptor) (d : D) → Verdict s d (age_out ops config s d)
  unfolding Verdict age_out is_aged
  age_out-Verdict s d = elim (Bool-cases (ltb 0 config.archive_retention_seconds)) [
    | inr off ↦ rw (age_out, is_aged, off) (inr (refl, Without-none ops present d))
    | inl on ↦ elim (Option-cases (ops.age s.path)) [
      | inl gone ↦ rw (age_out, on, gone) (inl refl)
      | inr (seconds, e) ↦ elim (Bool-cases (ltb config.archive_retention_seconds seconds)) [
        | inr young ↦ rw (age_out, is_aged, on, e, young) (inr (refl, Without-none ops present d))
        | inl old ↦ elim (Bool-cases (ops.remove s.path d).0) [
          | inr stuck ↦ rw (age_out, on, e, old, stuck) (inl refl)
          | inl done ↦
              rw (age_out, is_aged, on, e, old, done)
                (inr (refl, Without-one ops present law s d done))
        ]
      ]
    ]
  ]

  -- A pass over archives: it throws, or leaves those within the retention.
  Pass : List SegmentDescriptor → D → Option (List SegmentDescriptor) × D → Type 0
  Pass segments d y =
      (y.0 ≡ none)
      ⊎ ((y.0 ≡ some (fresh_of ops config segments))
          × Without ops present d (aged_of ops config segments) y.1)

  keep-Pass :
      (s : SegmentDescriptor) (segments : List SegmentDescriptor) (d : D)
      (y : Option (List SegmentDescriptor) × D)
      → is_aged ops config s ≡ false
      → Pass segments d y
      → Pass (s ∷ segments) d (keep s y)
  unfolding Pass fresh_of aged_of keep
  keep-Pass s segments d (none, d') young (inl e) = inl refl
  keep-Pass s segments d (some kept, d') young (inl e) = absurd (cc e)
  keep-Pass s segments d (none, d') young (inr (e, less)) = inl refl
  keep-Pass s segments d (some kept, d') young (inr (e, less)) =
      rw (fresh_of, aged_of, young) (inr (ap (λ o. (keep s (o, d')).0) e, less))

  aged-Pass :
      (s : SegmentDescriptor) (segments : List SegmentDescriptor) (d d' : D)
      (y : Option (List SegmentDescriptor) × D)
      → is_aged ops config s ≡ true
      → Without ops present d (s ∷ []) d'
      → Pass segments d' y
      → Pass (s ∷ segments) d y
  unfolding Pass fresh_of aged_of
  aged-Pass s segments d d' y old first (inl e) = inl e
  aged-Pass s segments d d' y old first (inr (e, less)) =
      rw (fresh_of, aged_of, old)
        (inr (
          e,
          Without-append ops present d d' y.1 (s ∷ []) (aged_of ops config segments) first less,
        ))

  young-Pass :
      (s : SegmentDescriptor) (segments : List SegmentDescriptor) (d d' : D)
      (y : Option (List SegmentDescriptor) × D)
      → is_aged ops config s ≡ false
      → Without ops present d [] d'
      → Pass segments d' y
      → Pass (s ∷ segments) d (keep s y)
  unfolding Pass
  young-Pass s segments d d' y young first (inl e) = keep-Pass s segments d y young (inl e)
  young-Pass s segments d d' y young first (inr (e, less)) =
      keep-Pass s segments d y young
        (inr (e, Without-append ops present d d' y.1 [] (aged_of ops config segments) first less))

  decided-Pass :
      (aged : Bool) (s : SegmentDescriptor) (segments : List SegmentDescriptor) (d d' : D)
      (y : Option (List SegmentDescriptor) × D)
      → is_aged ops config s ≡ aged
      → Without ops present d (if aged then s ∷ [] else []) d'
      → Pass segments d' y
      → Pass (s ∷ segments) d (if aged then y else keep s y)
  decided-Pass true s segments d d' y e less rest = aged-Pass s segments d d' y e less rest
  decided-Pass false s segments d d' y e less rest = young-Pass s segments d d' y e less rest

  remove_aged-Pass :
      (segments : List SegmentDescriptor) (d : D)
      → Pass segments d (remove_aged ops config segments d)
  unfolding remove_aged Pass fresh_of aged_of Verdict
  remove_aged-Pass [] d = inr (refl, Without-none ops present d)
  remove_aged-Pass (s ∷ segments) d =
      let d' = (age_out ops config s d).1 in
      let rest = remove_aged-Pass segments d' in
      elim (age_out-Verdict s d) [
        | inl thrown ↦ rw (remove_aged, thrown) (inl refl)
        | inr (e, less) ↦
            rw (remove_aged, e)
              (decided-Pass (is_aged ops config s) s segments d d'
                (remove_aged ops config segments d') refl less rest)
      ]

  -- The archives that a cleanup removes: those over the retention, and of the rest those beyond the
  -- count, the newest first.
  pub removed_of : List SegmentDescriptor → List SegmentDescriptor
  removed_of archived =
      aged_of ops config archived
      ++ drop config.max_archived_files_per_shard (newest_first (fresh_of ops config archived))

  remove_excess-Without :
      (archived : List SegmentDescriptor) (d : D) (y : Option (List SegmentDescriptor) × D)
      → Pass archived d y
      → (remove_excess ops config y).0 ≡ true
      → Without ops present d (removed_of archived) (remove_excess ops config y).1
  unfolding Pass remove_excess removed_of
  remove_excess-Without archived d (none, d') (inl e) done = absurd (cc done)
  remove_excess-Without archived d (none, d') (inr (e, less)) done = absurd (cc done)
  remove_excess-Without archived d (some kept, d') (inl e) done = absurd (cc e)
  remove_excess-Without archived d (some kept, d') (inr (e, less)) done =
      let count = config.max_archived_files_per_shard in
      let excess = drop count (newest_first kept) in
      let same : kept ≡ fresh_of ops config archived = cc e in
      Without-append ops present d d' (remove_all ops excess d').1 (aged_of ops config archived)
        (drop count (newest_first (fresh_of ops config archived))) less
        (subst
          (λ l. Without ops present d' (drop count (newest_first l)) (remove_all ops excess d').1)
          same (remove_all-Without ops present law excess d' done))

-- When a cleanup returns, the files are those before, without the archives of this shard that are over
-- the retention, and without the excess of the others. Of these others the newest are kept, by the time
-- in the name and then by the number of the rotation: as many as the count allows, and none of the
-- excess is newer than one that is kept. A removal that returns takes one file away and no other.
pub cleanup_archives-removed :
    {D : Type 0} (ops : ArchiveOps D) (present : D → Bytes → Bool) (law : Removes ops present)
    (config : EngineConfig) (shard_id : ℕ) (d : D)
    (done : (cleanup_archives ops config shard_id d).0 ≡ true)
    → let archived = collect_archive_segments config (ops.directory d) (some shard_id) in
      (kept : List SegmentDescriptor) × (excess : List SegmentDescriptor) × Split
        config.max_archived_files_per_shard
        (fresh_of ops config archived)
        kept
        excess
      × Without ops present d
          (aged_of ops config archived ++ excess)
          (cleanup_archives ops config shard_id d).1
unfolding cleanup_archives removed_of
cleanup_archives-removed ops present law config shard_id d done =
    let archived = collect_archive_segments config (ops.directory d) (some shard_id) in
    let fresh = newest_first (fresh_of ops config archived) in
    let count = config.max_archived_files_per_shard in
    (
      take count fresh,
      drop count fresh,
      newest_first-Split count (fresh_of ops config archived),
      remove_excess-Without ops present law config archived d (remove_aged ops config archived d)
          (remove_aged-Pass ops present law config archived d) done,
    )
