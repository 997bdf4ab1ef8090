-- ===== src/Agent/Offsets.antt =====
-- The files of offsets in src/agent_support.cc: `store_source_offset`, `load_source_offset`,
-- `render_delivery_offsets`, `parse_delivery_offsets_text` and `load_delivery_offsets`. The outer `none`
-- of a loader is an exception, the inner one `std::nullopt`.
pub mod Source
pub mod Delivery
use seastar_log_engine.Prelude.{
  parse_whole, u64_modulus, not, drop, length, ◌==◌, ◌-◌, ℕ, ◌%◌, Bool, true, false, Option, none,
  some, List, [], ◌∷◌, ◌++◌, Bytes, codes, is_empty, starts_with, ltb, if◌then◌else◌, ◌>>=◌,
  to_decimal, u32_modulus,
}
use seastar_log_engine.Codec.Json.{StringMap}
use seastar_log_engine.Agent.{SourceOffset, DeliveryOffset}
use seastar_log_engine.Agent.Lines.{text_lines, parse_u64, split_pair, parse_kv_text, map_find}

-- The text that `store_source_offset` writes.
pub render_source_offset : SourceOffset → Bytes
render_source_offset offset =
    (codes "path=" ++ offset.path)
    ++ b'\n'
      ∷ ((codes "inode=" ++ to_decimal offset.inode)
          ++ b'\n' ∷ ((codes "offset=" ++ to_decimal offset.offset) ++ b'\n' ∷ []))

-- From the three values that are found.
pub source_offset_of : Bytes → Bytes → Bytes → Option SourceOffset
source_offset_of path inode offset = do
  inode_value ← parse_u64 inode
  offset_value ← parse_u64 offset
  some (record { path = path; inode = inode_value; offset = offset_value })

pub present_source_offset :
    Option Bytes → Option Bytes → Option Bytes → Option (Option SourceOffset)
present_source_offset (some path) (some inode) (some offset) =
    source_offset_of path inode offset >>= (λ loaded. some (some loaded))
present_source_offset none inode offset = some none
present_source_offset (some path) none offset = some none
present_source_offset (some path) (some inode) none = some none

-- `load_source_offset` on the text of its file; a missing file is an empty text.
pub load_source_offset : Bytes → Option (Option SourceOffset)
load_source_offset content =
    let values = parse_kv_text content in
    present_source_offset (map_find (codes "path") values) (map_find (codes "inode") values)
      (map_find (codes "offset") values)

-- The line of an offset in format 2.
pub delivery_row : DeliveryOffset → Bytes
delivery_row offset =
    (codes "shard=" ++ to_decimal offset.shard)
    ++ b',' ∷ (codes "next_sequence=" ++ to_decimal offset.next_sequence)

pub insert_offset : DeliveryOffset → List DeliveryOffset → List DeliveryOffset
insert_offset o [] = o ∷ []
insert_offset o (p ∷ offsets) =
    if ltb p.shard o.shard then p ∷ insert_offset o offsets else o ∷ p ∷ offsets

-- `std::sort` by the shard.
pub sort_offsets : List DeliveryOffset → List DeliveryOffset
sort_offsets [] = []
sort_offsets (o ∷ offsets) = insert_offset o (sort_offsets offsets)

pub delivery_rows : List DeliveryOffset → Bytes
delivery_rows [] = []
delivery_rows (o ∷ offsets) = delivery_row o ++ b'\n' ∷ delivery_rows offsets

pub render_delivery_offsets : List DeliveryOffset → Bytes
render_delivery_offsets offsets =
    codes "format_version=2" ++ b'\n' ∷ delivery_rows (sort_offsets offsets)

pub delivery_offset_of : Bytes → Bytes → Option DeliveryOffset
delivery_offset_of shard next_sequence = do
  shard_value ← parse_u64 shard
  sequence_value ← parse_u64 next_sequence
  some (record { shard = shard_value % u32_modulus; next_sequence = sequence_value })

-- The parts of a line in front of and behind its comma: an offset; no offset; or an exception.
pub parse_delivery_parts : Bytes → Bytes → Option (List DeliveryOffset)
parse_delivery_parts shard_part seq_part = elim (split_pair b'=' shard_part) [
  | none ↦ some []
  | some shard ↦ elim (split_pair b'=' seq_part) [
    | none ↦ some []
    | some sequence ↦ delivery_offset_of shard.1 sequence.1 >>= (λ offset. some (offset ∷ []))
  ]
]

pub parse_delivery_line : Bytes → Option (List DeliveryOffset)
parse_delivery_line line =
    if is_empty line
    then some []
    else if starts_with (codes "#") line
    then some []
    else elim (split_pair b',' line) [
      | none ↦ some []
      | some parts ↦ parse_delivery_parts parts.0 parts.1
    ]

pub parse_delivery_lines : List Bytes → Option (List DeliveryOffset)
parse_delivery_lines [] = some []
parse_delivery_lines (line ∷ lines) = do
  here ← parse_delivery_line line
  rest ← parse_delivery_lines lines
  some (here ++ rest)

-- The older format, with one offset.
pub single_delivery_offset : Option Bytes → Option Bytes → Option (List DeliveryOffset)
single_delivery_offset (some shard) (some sequence) =
    delivery_offset_of shard sequence >>= (λ offset. some (offset ∷ []))
single_delivery_offset none sequence = some []
single_delivery_offset (some shard) none = some []

pub or_single : Bytes → List DeliveryOffset → Option (List DeliveryOffset)
or_single content [] =
    let values = parse_kv_text content in
    single_delivery_offset (map_find (codes "shard") values)
      (map_find (codes "next_sequence") values)
or_single content (o ∷ offsets) = some (o ∷ offsets)

pub parse_delivery_offsets_text : Bytes → Option (List DeliveryOffset)
parse_delivery_offsets_text content =
    parse_delivery_lines (text_lines content) >>= or_single content

-- `load_delivery_offset`: the first of them.
pub front_offset : List DeliveryOffset → Option DeliveryOffset
front_offset [] = none
front_offset (o ∷ offsets) = some o

pub load_delivery_offset : Bytes → Option (Option DeliveryOffset)
load_delivery_offset content =
    parse_delivery_offsets_text content >>= (λ offsets. some (front_offset offsets))

pub store_delivery_offset : DeliveryOffset → Bytes
store_delivery_offset offset = render_delivery_offsets (offset ∷ [])

pub shard_state_path : Bytes → ℕ → Bytes
shard_state_path base_path shard = base_path ++ b'.' ∷ to_decimal shard

-- `next_by_shard`, in the order of the shards.
abbrev pub ShardMap : Type 0
ShardMap = List (ℕ × ℕ)

pub assign_shard : ℕ → ℕ → ShardMap → ShardMap
assign_shard shard next [] = (shard, next) ∷ []
assign_shard shard next ((s, n) ∷ m) =
    if shard == s
    then (shard, next) ∷ m
    else if ltb shard s
    then (shard, next) ∷ (s, n) ∷ m
    else (s, n) ∷ assign_shard shard next m

pub assign_offsets : List DeliveryOffset → ShardMap → ShardMap
assign_offsets [] m = m
assign_offsets (o ∷ offsets) m = assign_offsets offsets (assign_shard o.shard o.next_sequence m)

-- `next_by_shard.contains(shard) ? next_by_shard[shard] : 0`.
pub next_of : ℕ → ShardMap → ℕ
next_of shard [] = 0
next_of shard ((s, n) ∷ m) = if s == shard then n else next_of shard m

pub shards_of : ShardMap → List ℕ
shards_of [] = []
shards_of ((s, n) ∷ m) = s ∷ shards_of m

pub offsets_of : ShardMap → List DeliveryOffset
offsets_of [] = []
offsets_of ((s, n) ∷ m) = record { shard = s; next_sequence = n } ∷ offsets_of m

-- The shard of a state file, by the end of its name; a number above 32 bits is none.
pub state_shard : Bytes → Bytes → Option ℕ
state_shard base filename =
    let prefix = base ++ b'.' ∷ [] in
    if not (starts_with prefix filename)
    then none
    else elim (parse_whole 10 u64_modulus (drop (length prefix) filename)) [
      | none ↦ none
      | some shard ↦ if ltb (u32_modulus - 1) shard then none else some shard
    ]

-- The offset of a state file; `none` is the exception about its shard.
pub assign_state : ℕ → Option DeliveryOffset → ShardMap → Option ShardMap
assign_state shard none m = some m
assign_state shard (some offset) m =
    if not (offset.shard == shard) then none else some (assign_shard shard offset.next_sequence m)

pub load_state : Bytes → Bytes → Bytes → ShardMap → Option ShardMap
load_state base filename content m = elim (state_shard base filename) [
  | none ↦ some m
  | some shard ↦ load_delivery_offset content >>= (λ offset. assign_state shard offset m)
]

-- The loop over the directory, in the order in which it is listed.
pub load_states : Bytes → List (Bytes × Bytes) → ShardMap → Option ShardMap
load_states base [] m = some m
load_states base ((filename, content) ∷ states) m =
    load_state base filename content m >>= load_states base states

pub load_delivery_offsets : Bytes → Bytes → List (Bytes × Bytes) → Option (List DeliveryOffset)
load_delivery_offsets base content states = do
  offsets ← parse_delivery_offsets_text content
  m ← load_states base states (assign_offsets offsets [])
  some (offsets_of m)
