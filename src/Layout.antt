-- ===== src/Layout.antt =====
-- src/log_layout.cc: the names of segment files, and the lists of segments of a directory. A directory is
-- the list of the paths of its regular files, in the order of its iterator.
pub mod Names
pub mod Order
pub mod Copies
mod Tests
use seastar_log_engine.Prelude.{
  ℕ, zero, suc, ◌+◌, ◌-◌, ◌%◌, Bool, true, false, not, ◌&&◌, ◌||◌, Option, none, some, List, [],
  ◌∷◌, ◌++◌, Bytes, codes, length, take, drop, ltb, leb, ◌==◌, if◌then◌else◌, bytes_eq, bytes_lt,
  starts_with, find_byte, to_decimal, parse_whole, u32_modulus, ◌>>=◌,
}
use seastar_log_engine.Config.{EngineConfig}
use seastar_log_engine.Recovery.Checkpoint.{parse_u64}

pub record SegmentDescriptor : Type 0 where
  pub path : Bytes
  pub shard_id : ℕ
  pub archived : Bool
  pub compressed : Bool
  pub timestamp_ms : ℕ
  pub rotation_index : ℕ

pub bool_eq : Bool → Bool → Bool
bool_eq true b = b
bool_eq false b = not b

pub shard_prefix : EngineConfig → ℕ → Bytes
shard_prefix config shard_id = config.shard_file_prefix ++ (codes "-" ++ to_decimal shard_id)

pub active_log_path : EngineConfig → ℕ → Bytes
active_log_path config shard_id =
    config.log_dir ++ (codes "/" ++ (shard_prefix config shard_id ++ codes ".log"))

pub active_segment : EngineConfig → ℕ → SegmentDescriptor
active_segment config shard_id = record {
  path = active_log_path config shard_id;
  shard_id = shard_id;
  archived = false;
  compressed = false;
  timestamp_ms = 0;
  rotation_index = 0;
}

pub checkpoint_path : Bytes → Bytes
checkpoint_path active_path = active_path ++ codes ".checkpoint"

pub archive_log_path : EngineConfig → ℕ → ℕ → ℕ → Bool → Bytes
archive_log_path config shard_id timestamp_ms rotation_index compressed =
    config.archive_dir
    ++ (codes "/"
        ++ (shard_prefix config shard_id
            ++ (codes "."
                ++ (to_decimal timestamp_ms
                    ++ (codes "."
                        ++ (to_decimal rotation_index
                            ++ (codes ".log" ++ (if compressed then codes ".gz" else []))))))))

-- What follows the last `c`.
pub after_last : ℕ → Bytes → Option Bytes
after_last c [] = none
after_last c (d ∷ s) = elim (after_last c s) [
  | some rest ↦ some rest
  | none ↦ if d == c then some s else none
]

-- `fs::path::filename` on POSIX.
pub filename : Bytes → Bytes
filename path = elim (after_last b'/' path) [ none ↦ path | some name ↦ name ]

-- `fs::path::extension`, with its dot; a name that only starts with a dot has none.
pub extension : Bytes → Bytes
extension name = elim (after_last b'.' name) [
  | none ↦ []
  | some rest ↦
      if bytes_eq name (codes "..") || length name == length rest + 1 then [] else b'.' ∷ rest
]

-- `s.substr(0, s.size() - n)` and `s.substr(s.size() - n)`.
abbrev pub without_last : ℕ → Bytes → Bytes
without_last n s = take (length s - n) s

abbrev pub last_of : ℕ → Bytes → Bytes
last_of n s = drop (length s - n) s

-- What follows the prefix in the name of a segment: the shard, or shard, time and rotation.
pub describe_archive : Bytes → Bool → Bytes → Bytes → Option SegmentDescriptor
describe_archive path compressed shard rest = elim (find_byte b'.' rest) [
  | none ↦ none
  | some second_dot ↦ parse_u64 shard >>= (λ shard_value.
      parse_u64 (take second_dot rest) >>= (λ timestamp_ms.
        parse_u64 (drop (second_dot + 1) rest) >>= (λ rotation_index. some (record {
          path = path;
          shard_id = shard_value % u32_modulus;
          archived = true;
          compressed = compressed;
          timestamp_ms = timestamp_ms;
          rotation_index = rotation_index;
        }))))
]

pub describe_active : Bytes → Bool → Bytes → Option SegmentDescriptor
describe_active path compressed shard =
    if compressed
    then none
    else parse_u64 shard >>= (λ shard_value. some (record {
      path = path;
      shard_id = shard_value % u32_modulus;
      archived = false;
      compressed = false;
      timestamp_ms = 0;
      rotation_index = 0;
    }))

pub describe_tail : Bytes → Bool → Bytes → Option SegmentDescriptor
describe_tail path compressed tail = elim (find_byte b'.' tail) [
  | none ↦ describe_active path compressed tail
  | some first_dot ↦
      describe_archive path compressed (take first_dot tail) (drop (first_dot + 1) tail)
]

pub describe_base : EngineConfig → Bytes → Bool → Bytes → Option SegmentDescriptor
describe_base config path compressed base =
    let prefix = config.shard_file_prefix ++ codes "-" in
    if not (starts_with prefix base)
    then none
    else describe_tail path compressed (drop (length prefix) base)

pub describe_name : EngineConfig → Bytes → Bool → Bytes → Option SegmentDescriptor
describe_name config path compressed archive_name =
    if leb (length archive_name) 4 || not (bytes_eq (last_of 4 archive_name) (codes ".log"))
    then none
    else describe_base config path compressed (without_last 4 archive_name)

pub describe_path : EngineConfig → Bytes → Option SegmentDescriptor
describe_path config path =
    let name = filename path in
    let compressed = bytes_eq (extension name) (codes ".gz") in
    describe_name config path compressed (if compressed then without_last 3 name else name)

pub matches_query_shard : SegmentDescriptor → Option ℕ → Bool
matches_query_shard segment none = true
matches_query_shard segment (some shard) = segment.shard_id == shard

-- The comparison of `sort_segments`.
pub segment_lt : SegmentDescriptor → SegmentDescriptor → Bool
segment_lt lhs rhs =
    if not (lhs.shard_id == rhs.shard_id)
    then ltb lhs.shard_id rhs.shard_id
    else if not (bool_eq lhs.archived rhs.archived)
    then lhs.archived && not rhs.archived
    else if lhs.archived && rhs.archived && not (lhs.timestamp_ms == rhs.timestamp_ms)
    then ltb lhs.timestamp_ms rhs.timestamp_ms
    else if lhs.archived && rhs.archived && not (lhs.rotation_index == rhs.rotation_index)
    then ltb lhs.rotation_index rhs.rotation_index
    else bytes_lt lhs.path rhs.path

-- `std::sort`, by insertion; segments that the comparison does not tell apart keep their order.
pub insert_segment : SegmentDescriptor → List SegmentDescriptor → List SegmentDescriptor
insert_segment s [] = s ∷ []
insert_segment s (t ∷ segments) =
    if segment_lt t s then t ∷ insert_segment s segments else s ∷ t ∷ segments

pub sort_segments : List SegmentDescriptor → List SegmentDescriptor
sort_segments [] = []
sort_segments (s ∷ segments) = insert_segment s (sort_segments segments)

pub same_archive_identity : SegmentDescriptor → SegmentDescriptor → Bool
same_archive_identity lhs rhs =
    lhs.archived
    && rhs.archived
    && lhs.shard_id == rhs.shard_id
    && lhs.timestamp_ms == rhs.timestamp_ms
    && lhs.rotation_index == rhs.rotation_index

pub prefer_archive_candidate : SegmentDescriptor → SegmentDescriptor → Bool
prefer_archive_candidate candidate current =
    if not (bool_eq candidate.compressed current.compressed)
    then not candidate.compressed
    else bytes_lt candidate.path current.path

-- The loop over the sorted segments; `current` is the last of those that are kept.
pub dedupe_from : SegmentDescriptor → List SegmentDescriptor → List SegmentDescriptor
dedupe_from current [] = current ∷ []
dedupe_from current (s ∷ segments) =
    let same = same_archive_identity current s in
    let rest =
      dedupe_from (if same then if prefer_archive_candidate s current then s else current else s)
        segments in
    if same then rest else current ∷ rest

pub dedupe : List SegmentDescriptor → List SegmentDescriptor
dedupe [] = []
dedupe (s ∷ segments) = dedupe_from s segments

-- The segments of a directory that pass a test.
pub segments_of : (SegmentDescriptor → Bool) → EngineConfig → List Bytes → List SegmentDescriptor
segments_of keep config [] = []
segments_of keep config (path ∷ paths) =
    let rest = segments_of keep config paths in
    elim (describe_path config path) [
      | none ↦ rest
      | some segment ↦ if keep segment then segment ∷ rest else rest
    ]

pub log_paths : List Bytes → List Bytes
log_paths [] = []
log_paths (path ∷ paths) =
    if bytes_eq (extension (filename path)) (codes ".log")
    then path ∷ log_paths paths
    else log_paths paths

-- A directory that is missing has no paths.
pub collect_active_segments : EngineConfig → List Bytes → Option ℕ → List SegmentDescriptor
collect_active_segments config directory shard =
    sort_segments (
      segments_of (λ s. not s.archived && matches_query_shard s shard) config (log_paths directory))

pub collect_archive_segments : EngineConfig → List Bytes → Option ℕ → List SegmentDescriptor
collect_archive_segments config directory shard =
    dedupe (
      sort_segments (segments_of (λ s. s.archived && matches_query_shard s shard) config directory))

pub collect_query_segments :
    EngineConfig → List Bytes → List Bytes → Option ℕ → Bool → List SegmentDescriptor
collect_query_segments config log_directory archive_directory shard include_archive =
    sort_segments (
      (if include_archive then collect_archive_segments config archive_directory shard else [])
      ++ collect_active_segments config log_directory shard)
