-- ===== src/Retention/Returns.antt =====
-- `cleanup_archives` of src/log_manager.cc when no call of the file system throws.
use seastar_log_engine.Prelude.{
  ◌≡◌, refl, inl, inr, Bool, true, false, Bool-cases, Option, none, some, List, [], ◌∷◌, Bytes, ℕ,
  ltb, if◌then◌else◌, drop,
}
use seastar_log_engine.Config.{EngineConfig}
use seastar_log_engine.Layout.{SegmentDescriptor, collect_archive_segments}
use seastar_log_engine.Retention.{
  ArchiveOps, newest_first, remove_all, keep, age_out, remove_aged, remove_excess, cleanup_archives,
}

-- Every file has an age and can be removed.
unfoldable pub Works : {D : Type 0} → ArchiveOps D → Type 0
Works {D} ops =
    ((path : Bytes) → (seconds : ℕ) × (ops.age path ≡ some seconds))
    × ((path : Bytes) (d : D) → (ops.remove path d).0 ≡ true)

module _ {D : Type 0} (ops : ArchiveOps D) (works : Works ops) (config : EngineConfig) where
  remove_all-returns :
      (segments : List SegmentDescriptor) (d : D) → (remove_all ops segments d).0 ≡ true
  unfolding remove_all Works
  remove_all-returns [] d = refl
  remove_all-returns (s ∷ segments) d =
      rw (remove_all, works.1 s.path d) (remove_all-returns segments (ops.remove s.path d).1)

  age_out-returns :
      (s : SegmentDescriptor) (d : D) → (aged : Bool) × ((age_out ops config s d).0 ≡ some aged)
  unfolding age_out Works
  age_out-returns s d =
      let (seconds, e) = works.0 s.path in
      let removed = works.1 s.path d in
      elim (Bool-cases (ltb 0 config.archive_retention_seconds)) [
        | inr off ↦ (false, rw (age_out, off) refl)
        | inl on ↦ elim (Bool-cases (ltb config.archive_retention_seconds seconds)) [
          | inl old ↦ (true, rw (age_out, on, e, old, removed) refl)
          | inr young ↦ (false, rw (age_out, on, e, young) refl)
        ]
      ]

  keep-returns :
      (s : SegmentDescriptor) (y : Option (List SegmentDescriptor) × D)
      → ((kept : List SegmentDescriptor) × (y.0 ≡ some kept))
      → (kept : List SegmentDescriptor) × ((keep s y).0 ≡ some kept)
  unfolding keep
  keep-returns s (none, d) (kept, e) = absurd (cc e)
  keep-returns s (some l, d) (kept, e) = (s ∷ l, refl)

  next-returns :
      (aged : Bool) (s : SegmentDescriptor) (y : Option (List SegmentDescriptor) × D)
      → ((kept : List SegmentDescriptor) × (y.0 ≡ some kept))
      → (kept : List SegmentDescriptor) × ((if aged then y else keep s y).0 ≡ some kept)
  next-returns true s y h = h
  next-returns false s y h = keep-returns s y h

  remove_aged-returns :
      (segments : List SegmentDescriptor) (d : D)
      → (kept : List SegmentDescriptor) × ((remove_aged ops config segments d).0 ≡ some kept)
  unfolding remove_aged
  remove_aged-returns [] d = ([], refl)
  remove_aged-returns (s ∷ segments) d =
      let (aged, e) = age_out-returns s d in
      let rest = remove_aged ops config segments (age_out ops config s d).1 in
      rw (remove_aged, e)
        (next-returns aged s rest (remove_aged-returns segments (age_out ops config s d).1))

  remove_excess-returns :
      (y : Option (List SegmentDescriptor) × D)
      → ((kept : List SegmentDescriptor) × (y.0 ≡ some kept))
      → (remove_excess ops config y).0 ≡ true
  unfolding remove_excess
  remove_excess-returns (none, d) (kept, e) = absurd (cc e)
  remove_excess-returns (some l, d) (kept, e) =
      remove_all-returns (drop config.max_archived_files_per_shard (newest_first l)) d

-- A cleanup returns when every file has an age and can be removed.
pub cleanup_archives-returns :
    {D : Type 0} (ops : ArchiveOps D) (works : Works ops) (config : EngineConfig) (shard_id : ℕ)
    (d : D)
    → (cleanup_archives ops config shard_id d).0 ≡ true
unfolding cleanup_archives
cleanup_archives-returns ops works config shard_id d =
    let archived = collect_archive_segments config (ops.directory d) (some shard_id) in
    remove_excess-returns ops works config (remove_aged ops config archived d)
      (remove_aged-returns ops works config archived d)
