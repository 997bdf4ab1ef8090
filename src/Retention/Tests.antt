-- ===== src/Retention/Tests.antt =====
-- The theorems on the retention of archives in src/log_manager.cc, at concrete directories.
use seastar_log_engine.Prelude.{
  List, refl, Bool, true, false, not, ◌&&◌, some, [], ◌∷◌, ◌++◌, Bytes, bytes_eq,
}
use seastar_log_engine.Config.{EngineConfig, full}
use seastar_log_engine.Codec.Tests.{sample}
use seastar_log_engine.Layout.{archive_log_path, collect_archive_segments}
use seastar_log_engine.Retention.{ArchiveOps, cleanup_archives}
use seastar_log_engine.Layout.{SegmentDescriptor}
use seastar_log_engine.Retention.Newest.{Split}
use seastar_log_engine.Retention.Removed.{
  Without, aged_of, fresh_of, Removes, cleanup_archives-removed,
}
use seastar_log_engine.Retention.Returns.{Works, cleanup_archives-returns}

abbrev one_kept : EngineConfig
one_kept = record (sample full true) {
  archive_retention_seconds = 60;
  max_archived_files_per_shard = 1;
}

abbrev old_name : Bytes
old_name = archive_log_path one_kept 0 100 1 false

abbrev new_name : Bytes
new_name = archive_log_path one_kept 0 200 2 true

-- A directory is the test whether it has a file.
abbrev memory_ops : ArchiveOps (Bytes → Bool)
memory_ops = record {
  exists = λ path d. d path;
  age = λ path. some 30;
  remove = λ path d. (true, λ p. d p && not (bytes_eq path p));
  rename = λ from to d. (true, d);
  gzip_file = λ path d. (true, d);
  directory = λ d. old_name ∷ new_name ∷ [];
}

abbrev every_file : Bytes → Bool
every_file path = true

memory_ops-Works : Works memory_ops
unfolding Works
memory_ops-Works = ((λ path. (30, refl)), λ path d. refl)

cleanup_archives-removed_example :
    let archived = collect_archive_segments one_kept (old_name ∷ new_name ∷ []) (some 0) in
    (kept : List SegmentDescriptor) × (excess : List SegmentDescriptor) × Split 1
      (fresh_of memory_ops one_kept archived)
      kept
      excess
    × Without memory_ops
        (λ d p. d p)
        every_file
        (aged_of memory_ops one_kept archived ++ excess)
        (cleanup_archives memory_ops one_kept 0 every_file).1
cleanup_archives-removed_example =
    cleanup_archives-removed memory_ops (λ d p. d p) (unfold Removes in (λ path d done p. refl))
      one_kept 0 every_file
      (cleanup_archives-returns memory_ops memory_ops-Works one_kept 0 every_file)
