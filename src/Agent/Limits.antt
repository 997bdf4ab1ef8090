-- ===== src/Agent/Limits.antt =====
-- The limits of the agent in src/agent_support.cc: the quota of its directory, its backpressure, and the
-- sizes that a source may have. The size of the directory is an argument. An empty reason is that of
-- the default decision.
use seastar_log_engine.Prelude.{
  ℕ, Bool, true, false, ◌&&◌, [], Bytes, codes, ltb, leb, ◌==◌, if◌then◌else◌,
}

pub record DiskQuota : Type 0 where
  pub max_buffer_bytes : ℕ
  pub resume_buffer_bytes : ℕ

pub record BackpressureState : Type 0 where
  pub disk_bytes : ℕ
  pub pending_bytes : ℕ
  pub sink_backlog_records : ℕ
  pub recent_sink_failures : ℕ
  pub last_sink_latency_ms : ℕ
  pub sink_latency_average_ms : ℕ
  pub max_sink_backlog_records : ℕ
  pub max_recent_sink_failures : ℕ
  pub max_sink_latency_ms : ℕ
  pub max_pending_bytes : ℕ
  pub max_sink_latency_average_ms : ℕ

pub record BackpressureDecision : Type 0 where
  pub pause : Bool
  pub reason : Bytes

pub record SourceLimits : Type 0 where
  pub max_message_bytes : ℕ
  pub max_buffer_bytes : ℕ

pub record SourceLimitDecision : Type 0 where
  pub accept : Bool
  pub reason : Bytes

pub disk_quota_exceeded : ℕ → DiskQuota → Bool
disk_quota_exceeded directory_size quota =
    ltb 0 quota.max_buffer_bytes && leb quota.max_buffer_bytes directory_size

pub disk_quota_can_resume : ℕ → DiskQuota → Bool
disk_quota_can_resume directory_size quota =
    let resume =
      if quota.resume_buffer_bytes == 0
      then quota.max_buffer_bytes
      else quota.resume_buffer_bytes in
    if quota.max_buffer_bytes == 0 then true else leb directory_size resume

-- A limit of 0 is none.
pub reaches : ℕ → ℕ → Bool
reaches limit value = ltb 0 limit && leb limit value

pub pause_for : Bytes → BackpressureDecision
pause_for reason = record { pause = true; reason = reason }

pub evaluate_backpressure : ℕ → DiskQuota → BackpressureState → BackpressureDecision
evaluate_backpressure directory_size quota s =
    let disk_bytes = if s.disk_bytes == 0 then directory_size else s.disk_bytes in
    if reaches quota.max_buffer_bytes disk_bytes
    then pause_for (codes "disk_quota")
    else if reaches s.max_pending_bytes s.pending_bytes
    then pause_for (codes "pending_bytes")
    else if reaches s.max_sink_backlog_records s.sink_backlog_records
    then pause_for (codes "sink_backlog")
    else if reaches s.max_recent_sink_failures s.recent_sink_failures
    then pause_for (codes "sink_failures")
    else if reaches s.max_sink_latency_ms s.last_sink_latency_ms
    then pause_for (codes "sink_latency")
    else if reaches s.max_sink_latency_average_ms s.sink_latency_average_ms
    then pause_for (codes "sink_latency_average")
    else record { pause = false; reason = [] }

pub refuse : Bytes → SourceLimitDecision
refuse reason = record { accept = false; reason = reason }

pub evaluate_source_limits : ℕ → ℕ → SourceLimits → SourceLimitDecision
evaluate_source_limits message_bytes buffered_bytes limits =
    if ltb 0 limits.max_message_bytes && ltb limits.max_message_bytes message_bytes
    then refuse (codes "message_too_large")
    else if ltb 0 limits.max_buffer_bytes && ltb limits.max_buffer_bytes buffered_bytes
    then refuse (codes "buffer_too_large")
    else record { accept = true; reason = [] }
