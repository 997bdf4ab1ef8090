-- ===== src/Recovery.antt =====
-- src/log_manager.cc and include/log_engine/log_manager.hh: checkpoints and the recovery of a shard's
-- active file. A file is its bytes; a read gives them in pieces. Failing reads and writes, the
-- counters of statistics and the deletion of files are left out.
pub mod Stream
pub mod Recover
pub mod Checkpoint
mod Tests
use seastar_log_engine.Prelude.{ℕ, Bytes}

pub record CheckpointState : Type 0 where
  pub logical_size : ℕ
  pub sequence : ℕ
  pub rotation_index : ℕ

pub record RecoveryState : Type 0 where
  pub logical_size : ℕ
  pub sequence : ℕ
  pub rotation_index : ℕ
  pub tail_buffer : Bytes
