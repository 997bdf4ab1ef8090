-- ===== src/Agent.antt =====
-- include/log_engine/agent_support.hh: the data of the agent, which tails files, hands their lines to
-- the engine, and delivers records to a sink.
pub mod Base64
pub mod Lines
pub mod Offsets
pub mod Pending
pub mod Tail
pub mod Delivery
pub mod Json
pub mod Render
pub mod Ingest
pub mod Limits
mod Tests
use seastar_log_engine.Prelude.{ℕ, Bool, List, Option, Bytes}

pub record SourceOffset : Type 0 where
  pub path : Bytes
  pub inode : ℕ
  pub offset : ℕ

pub record DeliveryOffset : Type 0 where
  pub shard : ℕ
  pub next_sequence : ℕ

pub record DeliveryBatch : Type 0 where
  pub shard : ℕ
  pub first_sequence : ℕ
  pub next_sequence : ℕ
  pub records : List Bytes
