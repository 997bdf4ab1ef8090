-- ===== src/Agent/Delivery/Replay.antt =====
-- Which records the replay of src/agent_support.cc puts in its batches: `build_replay_batches`.
use seastar_log_engine.Prelude.{
  ◌&&◌, leb, if◌then◌else◌, ◌++◌, some, ◌⊎◌, ℕ, ◌≡◌, List, [], ◌∷◌, Bytes, All, take,
}
use seastar_log_engine.Config.{EngineConfig}
use seastar_log_engine.Codec.Record.{ParsedRecord}
use seastar_log_engine.Layout.{SegmentDescriptor, collect_query_segments}
use seastar_log_engine.Reader.{File, GzipFile}
use seastar_log_engine.Reader.Query.Selection.{readable}
use seastar_log_engine.Reader.Query.Found.{segment_lines}
use seastar_log_engine.Agent.{DeliveryBatch}
use seastar_log_engine.Agent.Offsets.{ShardMap, next_of}
use seastar_log_engine.Agent.Delivery.{ReplayOptions}
use seastar_log_engine.Agent.Delivery.Next.{payloads, IsPast, Touches}

-- The records with a sequence number that is not below this one.
pub due_records : ℕ → List ParsedRecord → List ParsedRecord
due_records from [] = []
due_records from (r ∷ records) =
    let rest = due_records from records in
    if r.has_sequence && leb from r.sequence then r ∷ rest else rest

-- The first of the records has this number.
pub BeginsAt : ℕ → List ParsedRecord → Type 0
BeginsAt n [] = Unit
BeginsAt n (r ∷ records) = n ≡ r.sequence

module _ (files : Bytes → File) (archives : Bytes → GzipFile) where
  -- Those of stored segments, in their order: of each, in front of its first bad line.
  pub stored_due : ℕ → List SegmentDescriptor → List ParsedRecord
  stored_due from [] = []
  stored_due from (segment ∷ segments) =
      due_records from (readable (segment_lines files archives segment)) ++ stored_due from segments

module _ (files : Bytes → File) (archives : Bytes → GzipFile) (log_directory : List Bytes)
    (archive_directory : List Bytes) (config : EngineConfig) (options : ReplayOptions)
    (m : ShardMap) where
  -- What is due for a shard: of the records of its segments that are not below its offset, the first, as
  -- many as the batch size.
  pub due_of : ℕ → List ParsedRecord
  due_of shard = take options.batch_size (
      stored_due files archives (next_of shard m) (
        collect_query_segments config log_directory archive_directory (some shard)
          options.include_archive))

  -- The batch of a shard holds the payloads of what is due, begins with the number of the first, and
  -- reaches past all of it, but not further than behind one of the records or to the offset.
  pub record Replayed (shard : ℕ) (batch : DeliveryBatch) : Type 0 where
    pub of_shard : batch.shard ≡ shard
    pub same : batch.records ≡ payloads (due_of shard)
    pub first : BeginsAt batch.first_sequence (due_of shard)
    pub past : All (IsPast batch.next_sequence) (due_of shard)
    pub no_further :
        (batch.next_sequence ≡ next_of shard m) ⊎ Touches batch.next_sequence (due_of shard)

  -- Each shard has one batch, in the order of the shards, unless nothing is due for it.
  pub Replays : List ℕ → List DeliveryBatch → Type 0
  Replays [] batches = batches ≡ []
  Replays (shard ∷ shards) batches =
      ((due_of shard ≡ []) × Replays shards batches)
      ⊎ ((batch : DeliveryBatch) × (rest : List DeliveryBatch) × (batches ≡ batch ∷ rest)
          × Replayed shard batch
          × Replays shards rest)
