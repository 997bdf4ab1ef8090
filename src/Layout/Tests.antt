-- ===== src/Layout/Tests.antt =====
-- Names and lists of segments of src/log_layout.cc, and the theorems at concrete ones.
use seastar_log_engine.Prelude.{
  ℕ, ◌≡◌, refl, Bool, true, false, some, List, [], ◌∷◌, arith, codes, All,
}
use seastar_log_engine.Config.{full}
use seastar_log_engine.Codec.Tests.{sample}
use seastar_log_engine.Layout.{
  SegmentDescriptor, archive_log_path, describe_path, dedupe, filename, extension, after_last,
}
use seastar_log_engine.Layout.Names.{describe_path-archive_log_path}
use seastar_log_engine.Layout.Copies.{OneOf, Kept, NoRepeat, dedupe-Kept}

extension_gz : extension (filename (codes "a.b/shard-1.7.0.log.gz")) ≡ codes ".gz"
unfolding extension filename after_last
extension_gz = refl

extension_hidden : extension (codes ".log") ≡ []
unfolding extension after_last
extension_hidden = refl

describe_path-archive_log_path_example :
    describe_path (sample full true) (archive_log_path (sample full true) 3 1700 2 true)
    ≡ some (record {
      path = archive_log_path (sample full true) 3 1700 2 true;
      shard_id = 3;
      archived = true;
      compressed = true;
      timestamp_ms = 1700;
      rotation_index = 2;
    })
describe_path-archive_log_path_example =
    describe_path-archive_log_path (sample full true) 3 1700 2 true (omega arith) (omega arith)
      (omega arith) (omega arith)

abbrev archive : ℕ → Bool → SegmentDescriptor
archive index compressed = record {
  path = codes "a";
  shard_id = 0;
  archived = true;
  compressed = compressed;
  timestamp_ms = 5;
  rotation_index = index;
}

abbrev copies : List SegmentDescriptor
copies = archive 1 true ∷ archive 1 false ∷ archive 0 true ∷ []

dedupe-Kept_example :
    All (Kept (dedupe copies)) copies
    × NoRepeat (dedupe copies)
    × All (OneOf copies) (dedupe copies)
dedupe-Kept_example = dedupe-Kept copies (refl, (refl, (refl, tt)))
