-- ===== src/Retention.antt =====
-- The retention of archives in src/log_manager.cc: `cleanup_archives` and `rotate_active_file`. The
-- calls on directories are parameters.
pub mod Newest
pub mod Removed
pub mod Returns
pub mod Tests
use seastar_log_engine.Prelude.{
  ℕ, ◌+◌, ◌%◌, u64_modulus, Bool, true, false, not, Option, none, some, List, [], ◌∷◌, Bytes, drop,
  ltb, ◌==◌, if◌then◌else◌,
}
use seastar_log_engine.Config.{EngineConfig}
use seastar_log_engine.Layout.{SegmentDescriptor, archive_log_path, collect_archive_segments}

-- What the code calls: `fs::exists`; the age of a file in whole seconds, where a file from the future
-- has age 0; `fs::remove`, `fs::rename` and `gzip_file`; the names in the archive directory. The
-- Boolean says whether the call returns; an age is `none` when `fs::last_write_time` throws.
pub record ArchiveOps (D : Type 0) : Type 0 where
  pub exists : Bytes → D → Bool
  pub age : Bytes → Option ℕ
  pub remove : Bytes → D → Bool × D
  pub rename : Bytes → Bytes → D → Bool × D
  pub gzip_file : Bytes → D → Bool × D
  pub directory : D → List Bytes

-- The counters that a rotation changes, and the calls of `record_gzip_archive_failure`.
pub record RotationStats : Type 0 where
  pub rotate_operations : ℕ
  pub gzip_archive_successes : ℕ
  pub gzip_archive_failures : ℕ
  pub failure_reports : ℕ

-- The comparison of `cleanup_archives`: the newest archive comes first.
pub newer : SegmentDescriptor → SegmentDescriptor → Bool
newer lhs rhs =
    if not (lhs.timestamp_ms == rhs.timestamp_ms)
    then ltb rhs.timestamp_ms lhs.timestamp_ms
    else ltb rhs.rotation_index lhs.rotation_index

pub insert_newer : SegmentDescriptor → List SegmentDescriptor → List SegmentDescriptor
insert_newer s [] = s ∷ []
insert_newer s (t ∷ segments) = if newer t s then t ∷ insert_newer s segments else s ∷ t ∷ segments

pub newest_first : List SegmentDescriptor → List SegmentDescriptor
newest_first [] = []
newest_first (s ∷ segments) = insert_newer s (newest_first segments)

-- The loop over the archives beyond the count; it ends at the first failure.
pub remove_all : {D : Type 0} → ArchiveOps D → List SegmentDescriptor → D → Bool × D
remove_all ops [] d = (true, d)
remove_all ops (s ∷ segments) d = elim (ops.remove s.path d).0 [
  | true ↦ remove_all ops segments (ops.remove s.path d).1
  | false ↦ (false, (ops.remove s.path d).1)
]

pub keep :
    {D : Type 0}
    → SegmentDescriptor
    → Option (List SegmentDescriptor) × D
    → Option (List SegmentDescriptor) × D
keep s (none, d) = (none, d)
keep s (some kept, d) = (some (s ∷ kept), d)

-- The lambda of `remove_if`: whether the archive is removed, `none` when a call has thrown.
pub age_out : {D : Type 0} → ArchiveOps D → EngineConfig → SegmentDescriptor → D → Option Bool × D
age_out ops config s d =
    if ltb 0 config.archive_retention_seconds
    then elim (ops.age s.path) [
      | none ↦ (none, d)
      | some seconds ↦
          if ltb config.archive_retention_seconds seconds
          then ((if (ops.remove s.path d).0 then some true else none), (ops.remove s.path d).1)
          else (some false, d)
    ]
    else (some false, d)

-- The pass of `remove_if`, with the archives that are left.
pub remove_aged :
    {D : Type 0}
    → ArchiveOps D
    → EngineConfig
    → List SegmentDescriptor
    → D
    → Option (List SegmentDescriptor) × D
remove_aged ops config [] d = (some [], d)
remove_aged ops config (s ∷ segments) d = elim (age_out ops config s d).0 [
  | none ↦ (none, (age_out ops config s d).1)
  | some aged ↦
      let rest = remove_aged ops config segments (age_out ops config s d).1 in
      if aged then rest else keep s rest
]

pub remove_excess :
    {D : Type 0} → ArchiveOps D → EngineConfig → Option (List SegmentDescriptor) × D → Bool × D
remove_excess ops config (none, d) = (false, d)
remove_excess ops config (some archived, d) =
    remove_all ops (drop config.max_archived_files_per_shard (newest_first archived)) d

pub cleanup_archives : {D : Type 0} → ArchiveOps D → EngineConfig → ℕ → D → Bool × D
cleanup_archives ops config shard_id d =
    let archived = collect_archive_segments config (ops.directory d) (some shard_id) in
    remove_excess ops config (remove_aged ops config archived d)

-- The end of `rotate_active_file`.
pub finish_rotation :
    {D : Type 0} → ArchiveOps D → EngineConfig → ℕ → RotationStats → D → Bool × RotationStats × D
finish_rotation ops config shard_id stats d =
    let cleaned = cleanup_archives ops config shard_id d in
    if cleaned.0
    then (
      true,
      record stats { rotate_operations = (stats.rotate_operations + 1) % u64_modulus },
      cleaned.1,
    )
    else (false, stats, cleaned.1)

-- After the renaming.
pub compress_archive :
    {D : Type 0}
    → ArchiveOps D
    → EngineConfig
    → ℕ
    → Bytes
    → RotationStats
    → D
    → Bool × RotationStats × D
compress_archive ops config shard_id archive_path stats d =
    let zipped = ops.gzip_file archive_path d in
    if not config.compress_archives
    then finish_rotation ops config shard_id stats d
    else if zipped.0
    then finish_rotation ops config shard_id
        (record stats { gzip_archive_successes = (stats.gzip_archive_successes + 1) % u64_modulus })
        zipped.1
    else (
      false,
      record stats {
        gzip_archive_failures = (stats.gzip_archive_failures + 1) % u64_modulus;
        failure_reports = stats.failure_reports + 1;
      },
      zipped.1,
    )

pub rotate_active_file :
    {D : Type 0}
    → ArchiveOps D
    → EngineConfig
    → SegmentDescriptor
    → ℕ
    → ℕ
    → RotationStats
    → D
    → Bool × RotationStats × D
rotate_active_file ops config active epoch_ms rotation_index stats d =
    let archive_path = archive_log_path config active.shard_id epoch_ms rotation_index false in
    let renamed = ops.rename active.path archive_path d in
    if not (ops.exists active.path d)
    then (true, stats, d)
    else if renamed.0
    then compress_archive ops config active.shard_id archive_path stats renamed.1
    else (false, stats, renamed.1)
