-- ===== src/Config.antt =====
-- include/log_engine/config.hh: the enumerations with their names, `EngineConfig` and its check.
use seastar_log_engine.Prelude.{
  ℕ, Bool, true, false, ◌&&◌, ◌||◌, Option, some, Bytes, codes, bytes_eq, is_empty, ltb, ◌==◌,
  if◌then◌else◌,
}
pub mod Valid
mod Names

pub data CrcClass : Type 0 where
  none header payload_hash full : CrcClass

pub data AckMode : Type 0 where
  write_ack sync_ack : AckMode

pub data LogLevel : Type 0 where
  info warn error : LogLevel

pub record LogMessage : Type 0 where
  pub level : LogLevel
  pub payload : Bytes
  pub route_key : Bytes

pub crc_class_to_string : CrcClass → Bytes
crc_class_to_string none = codes "none"
crc_class_to_string header = codes "header"
crc_class_to_string payload_hash = codes "payload_hash"
crc_class_to_string full = codes "full"

-- `none` is the exception `std::invalid_argument`.
pub parse_crc_class : Bytes → Option CrcClass
parse_crc_class value =
    if bytes_eq value (codes "none") || bytes_eq value (codes "0")
    then some CrcClass.none
    else if bytes_eq value (codes "header") || bytes_eq value (codes "1")
    then some header
    else if bytes_eq value (codes "payload_hash")
        || bytes_eq value (codes "payload-hash")
        || bytes_eq value (codes "hash")
        || bytes_eq value (codes "2")
    then some payload_hash
    else if bytes_eq value (codes "full") || bytes_eq value (codes "3")
    then some full
    else Option.none

pub ack_mode_to_string : AckMode → Bytes
ack_mode_to_string write_ack = codes "write_ack"
ack_mode_to_string sync_ack = codes "sync_ack"

pub parse_ack_mode : Bytes → Option AckMode
parse_ack_mode value =
    if bytes_eq value (codes "write_ack")
      || bytes_eq value (codes "write-ack")
      || bytes_eq value (codes "write")
    then some write_ack
    else if bytes_eq value (codes "sync_ack")
        || bytes_eq value (codes "sync-ack")
        || bytes_eq value (codes "sync")
    then some sync_ack
    else Option.none

-- The fields that the modelled code reads; the routing strategy and its policy stand in `Routing`.
pub record EngineConfig : Type 0 where
  pub log_dir : Bytes
  pub archive_dir : Bytes
  pub shard_file_prefix : Bytes
  pub ack_mode : AckMode
  pub routing_virtual_nodes : ℕ
  pub batch_size : ℕ
  pub stream_buffer_size : ℕ
  pub write_behind : ℕ
  pub write_retry_count : ℕ
  pub max_pending_bytes : ℕ
  pub pending_bytes_low_watermark : ℕ
  pub rotate_size_bytes : ℕ
  pub rotate_interval_seconds : ℕ
  pub archive_retention_seconds : ℕ
  pub max_archived_files_per_shard : ℕ
  pub truncate_on_start : Bool
  pub checkpoint_enabled : Bool
  pub compress_archives : Bool
  pub record_crc_enabled : Bool
  pub record_crc_class : CrcClass
  pub record_timestamp_enabled : Bool
  pub record_level_enabled : Bool
  pub record_shard_id_enabled : Bool
  pub record_sequence_enabled : Bool

unfoldable pub rotation_enabled : EngineConfig → Bool
rotation_enabled c = ltb 0 c.rotate_size_bytes || ltb 0 c.rotate_interval_seconds

unfoldable pub archive_features_enabled : EngineConfig → Bool
archive_features_enabled c =
    rotation_enabled c || ltb 0 c.archive_retention_seconds || c.compress_archives

-- The exceptions of `validate`, in the order of the checks.
pub data ConfigError : Type 0 where
  empty_log_dir empty_archive_dir empty_shard_file_prefix zero_batch_size : ConfigError
  zero_routing_virtual_nodes zero_stream_buffer_size zero_write_behind : ConfigError
  zero_write_retry_count low_watermark_above_limit zero_max_archived_files : ConfigError

-- `none` means that nothing is thrown.
unfoldable pub validate : EngineConfig → Option ConfigError
validate c =
    if is_empty c.log_dir
    then some empty_log_dir
    else if archive_features_enabled c && is_empty c.archive_dir
    then some empty_archive_dir
    else if is_empty c.shard_file_prefix
    then some empty_shard_file_prefix
    else if c.batch_size == 0
    then some zero_batch_size
    else if c.routing_virtual_nodes == 0
    then some zero_routing_virtual_nodes
    else if c.stream_buffer_size == 0
    then some zero_stream_buffer_size
    else if c.write_behind == 0
    then some zero_write_behind
    else if c.write_retry_count == 0
    then some zero_write_retry_count
    else if ltb 0 c.max_pending_bytes && ltb c.max_pending_bytes c.pending_bytes_low_watermark
    then some low_watermark_above_limit
    else if c.max_archived_files_per_shard == 0
    then some zero_max_archived_files
    else Option.none
