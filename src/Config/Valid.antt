-- ===== src/Config/Valid.antt =====
-- What include/log_engine/config.hh guarantees of a configuration that passes `validate`.
use seastar_log_engine.Prelude.{◌≤◌, ◌<◌, ◌≡◌, none, arith}
use seastar_log_engine.Config.{EngineConfig, validate}

pub record IsValid (c : EngineConfig) : Type 0 where
  pub batches : 0 < c.batch_size
  pub nodes : 0 < c.routing_virtual_nodes
  pub buffered : 0 < c.stream_buffer_size
  pub concurrent : 0 < c.write_behind
  pub attempts : 0 < c.write_retry_count
  pub watermark : 0 < c.max_pending_bytes → c.pending_bytes_low_watermark ≤ c.max_pending_bytes
  pub archives : 0 < c.max_archived_files_per_shard

pub validate-IsValid : (c : EngineConfig) → validate c ≡ none → IsValid c
unfolding validate
validate-IsValid c h = record {
  batches = ground arith;
  nodes = ground arith;
  buffered = ground arith;
  concurrent = ground arith;
  attempts = ground arith;
  watermark = λ on. ground arith;
  archives = ground arith;
}
