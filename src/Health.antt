-- ===== src/Health.antt =====
-- src/health_monitor.cc and include/log_engine/health_monitor.hh: the sliding window of one-minute
-- buckets and the verdict on a snapshot. A counter is modelled as one thread sees it; the minute of
-- the wall clock is an argument.
use seastar_log_engine.Prelude.{
  ℕ, zero, suc, ◌+◌, ◌-◌, ◌*◌, ◌%◌, Bool, true, false, ◌||◌, not, List, [], ◌∷◌, replicate, get_or,
  set, ltb, leb, ◌==◌, if◌then◌else◌, u64_modulus, Bytes, codes,
}
pub mod Buckets
pub mod Window
pub mod Verdict
mod Tests

-- `kNumWindows`.
abbrev pub num_windows : ℕ
num_windows = 5

pub record SlidingWindowCounter : Type 0 where
  pub windows : List ℕ
  pub window_minutes : List ℕ
  pub lifetime : ℕ
  pub last_minute : ℕ
  pub current_bucket : ℕ

-- The state of a counter as constructed, and after `reset`.
abbrev pub fresh : SlidingWindowCounter
fresh = record {
  windows = 0 ∷ 0 ∷ 0 ∷ 0 ∷ 0 ∷ [];
  window_minutes = 0 ∷ 0 ∷ 0 ∷ 0 ∷ 0 ∷ [];
  lifetime = 0;
  last_minute = 0;
  current_bucket = 0;
}

-- `size_t` arithmetic: the sum of the bucket's index and the minutes passed stays below 2 * 5.
pub next_bucket : SlidingWindowCounter → ℕ → ℕ
next_bucket c minute =
    if c.last_minute == 0 || leb minute c.last_minute || leb num_windows (minute - c.last_minute)
    then minute % num_windows
    else (c.current_bucket + (minute - c.last_minute)) % num_windows

pub rotate_current_bucket : SlidingWindowCounter → ℕ → SlidingWindowCounter
rotate_current_bucket c minute =
    let next = next_bucket c minute in
    if c.last_minute == minute then c else record c {
      windows = set c.windows next 0;
      window_minutes = set c.window_minutes next minute;
      last_minute = minute;
      current_bucket = next;
    }

pub record_for_minute : SlidingWindowCounter → ℕ → ℕ → SlidingWindowCounter
record_for_minute c minute delta =
    let r = rotate_current_bucket c minute in
    record r {
      windows =
          set r.windows r.current_bucket
            ((get_or r.windows r.current_bucket 0 + delta) % u64_modulus);
      lifetime = (r.lifetime + delta) % u64_modulus;
    }

-- One round of the loop of `recent_sum_for_minute`: what bucket `i` adds.
pub bucket_share : ℕ → ℕ → ℕ → ℕ
bucket_share minute bucket_minute value =
    if bucket_minute == 0 || ltb minute bucket_minute
    then 0
    else if leb num_windows (minute - bucket_minute)
    then 0
    else value

pub recent_loop : ℕ → List ℕ → List ℕ → ℕ → ℕ
recent_loop minute (m ∷ minutes) (w ∷ windows) sum =
    recent_loop minute minutes windows ((sum + bucket_share minute m w) % u64_modulus)
recent_loop minute minutes windows sum = sum

pub recent_sum_for_minute : SlidingWindowCounter → ℕ → ℕ
recent_sum_for_minute c minute = recent_loop minute c.window_minutes c.windows 0

-- The flag tells whether the minute had changed.
pub maybe_advance_window : SlidingWindowCounter → ℕ → SlidingWindowCounter × Bool
maybe_advance_window c minute =
    let r = rotate_current_bucket c minute in (r, not (r.last_minute == c.last_minute))

pub record HealthSnapshot : Type 0 where
  pub reader_corrupted_segments_recent : ℕ
  pub reader_corrupted_lines_recent : ℕ
  pub reader_gzip_read_errors_recent : ℕ
  pub reader_corrupted_segments_lifetime : ℕ
  pub reader_corrupted_lines_lifetime : ℕ
  pub reader_gzip_read_errors_lifetime : ℕ
  pub log_manager_checkpoint_failures_recent : ℕ
  pub log_manager_gzip_failures_recent : ℕ
  pub log_manager_recovery_fallbacks_recent : ℕ
  pub log_manager_checkpoint_failures_lifetime : ℕ
  pub log_manager_gzip_failures_lifetime : ℕ
  pub log_manager_recovery_fallbacks_lifetime : ℕ

pub data HealthStatus : Type 0 where
  ok degraded unhealthy : HealthStatus

pub data HealthReason : Type 0 where
  none : HealthReason
  checkpoint_write_failures_recent : HealthReason
  gzip_archive_failures_recent : HealthReason
  recovery_fallbacks_recent : HealthReason
  reader_gzip_read_errors_recent : HealthReason
  reader_corrupted_segments_recent : HealthReason
  reader_corrupted_lines_recent : HealthReason

-- The six global counters.
pub record HealthCounters : Type 0 where
  pub reader_corrupted_segments : SlidingWindowCounter
  pub reader_corrupted_lines : SlidingWindowCounter
  pub reader_gzip_read_errors : SlidingWindowCounter
  pub checkpoint_write_failures : SlidingWindowCounter
  pub gzip_archive_failures : SlidingWindowCounter
  pub recovery_fallbacks : SlidingWindowCounter

pub collect_health_snapshot : HealthCounters → ℕ → HealthSnapshot
collect_health_snapshot g minute = record {
  reader_corrupted_segments_recent = recent_sum_for_minute g.reader_corrupted_segments minute;
  reader_corrupted_lines_recent = recent_sum_for_minute g.reader_corrupted_lines minute;
  reader_gzip_read_errors_recent = recent_sum_for_minute g.reader_gzip_read_errors minute;
  reader_corrupted_segments_lifetime = g.reader_corrupted_segments.lifetime;
  reader_corrupted_lines_lifetime = g.reader_corrupted_lines.lifetime;
  reader_gzip_read_errors_lifetime = g.reader_gzip_read_errors.lifetime;
  log_manager_checkpoint_failures_recent = recent_sum_for_minute g.checkpoint_write_failures minute;
  log_manager_gzip_failures_recent = recent_sum_for_minute g.gzip_archive_failures minute;
  log_manager_recovery_fallbacks_recent = recent_sum_for_minute g.recovery_fallbacks minute;
  log_manager_checkpoint_failures_lifetime = g.checkpoint_write_failures.lifetime;
  log_manager_gzip_failures_lifetime = g.gzip_archive_failures.lifetime;
  log_manager_recovery_fallbacks_lifetime = g.recovery_fallbacks.lifetime;
}

pub compute_health_status : HealthSnapshot → HealthStatus
compute_health_status s =
    if ltb 0 s.log_manager_checkpoint_failures_recent || ltb 0 s.log_manager_gzip_failures_recent
    then unhealthy
    else if ltb 3 s.log_manager_recovery_fallbacks_recent || ltb 3 s.reader_gzip_read_errors_recent
    then unhealthy
    else if ltb 10 s.reader_corrupted_segments_recent || ltb 10 s.reader_corrupted_lines_recent
    then unhealthy
    else if ltb 0 s.reader_corrupted_segments_recent
        || ltb 0 s.reader_corrupted_lines_recent
        || ltb 0 s.reader_gzip_read_errors_recent
        || ltb 0 s.log_manager_recovery_fallbacks_recent
    then degraded
    else ok

pub compute_health_reason : HealthSnapshot → HealthReason
compute_health_reason s =
    if ltb 0 s.log_manager_checkpoint_failures_recent
    then checkpoint_write_failures_recent
    else if ltb 0 s.log_manager_gzip_failures_recent
    then gzip_archive_failures_recent
    else if ltb 0 s.log_manager_recovery_fallbacks_recent
    then recovery_fallbacks_recent
    else if ltb 0 s.reader_gzip_read_errors_recent
    then reader_gzip_read_errors_recent
    else if ltb 0 s.reader_corrupted_segments_recent
    then reader_corrupted_segments_recent
    else if ltb 0 s.reader_corrupted_lines_recent
    then reader_corrupted_lines_recent
    else none

pub health_status_to_string : HealthStatus → Bytes
health_status_to_string ok = codes "ok"
health_status_to_string degraded = codes "degraded"
health_status_to_string unhealthy = codes "unhealthy"

pub health_reason_to_string : HealthReason → Bytes
health_reason_to_string none = codes "none"
health_reason_to_string checkpoint_write_failures_recent = codes "checkpoint_write_failures_recent"
health_reason_to_string gzip_archive_failures_recent = codes "gzip_archive_failures_recent"
health_reason_to_string recovery_fallbacks_recent = codes "recovery_fallbacks_recent"
health_reason_to_string reader_gzip_read_errors_recent = codes "reader_gzip_read_errors_recent"
health_reason_to_string reader_corrupted_segments_recent = codes "reader_corrupted_segments_recent"
health_reason_to_string reader_corrupted_lines_recent = codes "reader_corrupted_lines_recent"

pub health_reason_basis : HealthSnapshot → Bytes
health_reason_basis s = elim (compute_health_reason s) [
  | none ↦ codes "none"
  | _ ↦ codes "recent_window"
]
