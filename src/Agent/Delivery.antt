-- ===== src/Agent/Delivery.antt =====
-- The batches that the agent delivers, in src/agent_support.cc: `build_delivery_batch_from_records` and
-- `build_replay_batches`. The lists of names of the directories are arguments, and so are the files.
pub mod Next
pub mod Replay
use seastar_log_engine.Prelude.{
  ℕ, ◌+◌, ◌-◌, ◌%◌, max, Bool, true, false, not, ◌&&◌, Option, none, some, List, [], ◌∷◌, ◌++◌,
  Bytes, codes, length, take, drop, bytes_eq, starts_with, is_empty, ltb, leb, ◌==◌, if◌then◌else◌,
  ◌>>=◌, u32_modulus, u64_modulus,
}
use seastar_log_engine.Config.{EngineConfig}
use seastar_log_engine.Codec.Record.{ParsedRecord}
use seastar_log_engine.Reader.{ReadQuery, Reading, File, GzipFile}
use seastar_log_engine.Reader.Query.{read_records, collect_segments}
use seastar_log_engine.Agent.{DeliveryOffset, DeliveryBatch}
use seastar_log_engine.Agent.Lines.{parse_u64}
use seastar_log_engine.Agent.Offsets.{
  ShardMap, next_of, shards_of, assign_offsets, load_delivery_offsets,
}

-- `batch.next_sequence` behind a record.
pub next_after : ParsedRecord → ℕ → ℕ
next_after r next =
    if r.has_sequence then max next ((r.sequence + 1) % u64_modulus) else (next + 1) % u64_modulus

pub add_record : DeliveryBatch → ParsedRecord → DeliveryBatch
add_record batch r = record batch {
  records = batch.records ++ r.payload ∷ [];
  next_sequence = next_after r batch.next_sequence;
}

pub add_records : DeliveryBatch → List ParsedRecord → DeliveryBatch
add_records batch [] = batch
add_records batch (r ∷ records) = add_records (add_record batch r) records

pub empty_batch : ℕ → ℕ → DeliveryBatch
empty_batch shard sequence = record {
  shard = shard;
  first_sequence = sequence;
  next_sequence = sequence;
  records = [];
}

pub build_delivery_batch_from_records : List ParsedRecord → ℕ → ℕ → DeliveryBatch
build_delivery_batch_from_records [] fallback_shard fallback_first_sequence =
    empty_batch fallback_shard fallback_first_sequence
build_delivery_batch_from_records (r ∷ records) fallback_shard fallback_first_sequence =
    add_records
      (empty_batch r.shard (if r.has_sequence then r.sequence else fallback_first_sequence))
      (r ∷ records)

pub record ReplayOptions : Type 0 where
  pub batch_size : ℕ
  pub include_archive : Bool
  pub shard : Option ℕ

-- The shard of a log file, by its name; a number that cannot be read is passed over.
pub shard_of_name : EngineConfig → Bytes → Option ℕ
shard_of_name config name =
    let prefix = config.shard_file_prefix ++ b'-' ∷ [] in
    let stem = length name - 4 in
    if starts_with prefix name && bytes_eq (drop stem name) (codes ".log")
    then parse_u64 (drop (length prefix) (take stem name))
    else none

-- Sorted, and each shard once.
pub insert_shard : ℕ → List ℕ → List ℕ
insert_shard shard [] = shard ∷ []
insert_shard shard (s ∷ shards) =
    if shard == s
    then s ∷ shards
    else if ltb shard s
    then shard ∷ s ∷ shards
    else s ∷ insert_shard shard shards

pub shards_of_names : EngineConfig → List Bytes → List ℕ
shards_of_names config [] = []
shards_of_names config (name ∷ names) =
    let rest = shards_of_names config names in
    elim (shard_of_name config name) [
      | none ↦ rest
      | some shard ↦ insert_shard (shard % u32_modulus) rest
    ]

pub replay_shards : EngineConfig → Option ℕ → ShardMap → List Bytes → List ℕ
replay_shards config (some shard) m names = shard ∷ []
replay_shards config none [] names = shards_of_names config names
replay_shards config none (entry ∷ m) names = shards_of (entry ∷ m)

pub replay_query : ReplayOptions → ℕ → ℕ → ReadQuery
replay_query options shard from = record {
  shard = some shard;
  seq_from = some from;
  seq_to = none;
  time_from = none;
  time_to = none;
  source_id = none;
  agent_id = none;
  limit = options.batch_size;
  include_archive = options.include_archive;
  export_sink_batch = false;
}

-- The batch of the records of a shard; without records there is none.
pub replay_batch : ℕ → ℕ → List ParsedRecord → Option DeliveryBatch
replay_batch shard from [] = none
replay_batch shard from (r ∷ records) =
    some (record (add_records (empty_batch shard from) (r ∷ records)) {
      first_sequence = if r.has_sequence then r.sequence else from;
    })

pub cons_batch : Option DeliveryBatch → List DeliveryBatch → List DeliveryBatch
cons_batch none batches = batches
cons_batch (some batch) batches = batch ∷ batches

module _ (files : Bytes → File) (archives : Bytes → GzipFile) (log_directory : List Bytes)
    (archive_directory : List Bytes) where
  pub replay_shard : EngineConfig → ReplayOptions → ℕ → ℕ → Reading → Reading
  replay_shard config options shard from r =
      let query = replay_query options shard from in
      read_records files archives (collect_segments config query log_directory archive_directory)
        query r

  -- The loop over the shards, with the counters of the reader.
  pub replay_loop :
      EngineConfig → ReplayOptions → ShardMap → List ℕ → Reading → List DeliveryBatch × Reading
  replay_loop config options m [] r = ([], r)
  replay_loop config options m (shard ∷ shards) r =
      let read = replay_shard config options shard (next_of shard m) r in
      let rest = replay_loop config options m shards read in
      (cons_batch (replay_batch shard (next_of shard m) read.records) rest.0, rest.1)

  -- With the offsets that are loaded; the names are those of the log directory.
  pub replay_from :
      EngineConfig
      → ReplayOptions
      → List Bytes
      → Reading
      → List DeliveryOffset
      → List DeliveryBatch × Reading
  replay_from config options names r offsets =
      let m = assign_offsets offsets [] in
      replay_loop config options m (replay_shards config options.shard m names) r

  -- `none` is an exception of the loading. The file of the offsets is its name and its text, which is
  -- empty when it is missing; the states are the files of its directory.
  pub build_replay_batches :
      EngineConfig
      → ReplayOptions
      → Bytes
      → Bytes
      → List (Bytes × Bytes)
      → List Bytes
      → Reading
      → Option (List DeliveryBatch × Reading)
  build_replay_batches config options base content states names r =
      load_delivery_offsets base content states
      >>= (λ offsets. some (replay_from config options names r offsets))
