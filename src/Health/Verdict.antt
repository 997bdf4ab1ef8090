-- ===== src/Health/Verdict.antt =====
-- `compute_health_status` and `compute_health_reason`.
use seastar_log_engine.Prelude.{ℕ, ◌≤◌, ◌≡◌, refl, ◌↔◌, arith}
use seastar_log_engine.Health.{
  HealthSnapshot, HealthStatus, ok, degraded, unhealthy, HealthReason, compute_health_status,
  compute_health_reason,
}

-- How bad a status is.
abbrev pub severity : HealthStatus → ℕ
severity ok = 0
severity degraded = 1
severity unhealthy = 2

-- No recent count of the first snapshot is above that of the second.
pub record Below (s u : HealthSnapshot) : Type 0 where
  pub segments : s.reader_corrupted_segments_recent ≤ u.reader_corrupted_segments_recent
  pub lines : s.reader_corrupted_lines_recent ≤ u.reader_corrupted_lines_recent
  pub gzip_reads : s.reader_gzip_read_errors_recent ≤ u.reader_gzip_read_errors_recent
  pub checkpoints :
      s.log_manager_checkpoint_failures_recent ≤ u.log_manager_checkpoint_failures_recent
  pub gzips : s.log_manager_gzip_failures_recent ≤ u.log_manager_gzip_failures_recent
  pub fallbacks : s.log_manager_recovery_fallbacks_recent ≤ u.log_manager_recovery_fallbacks_recent

compute_health_status-degraded :
    (s : HealthSnapshot)
    → compute_health_status s ≡ degraded
    → (s.log_manager_checkpoint_failures_recent ≡ 0)
      × (s.log_manager_gzip_failures_recent ≡ 0)
      × (s.log_manager_recovery_fallbacks_recent ≤ 3)
      × (s.reader_gzip_read_errors_recent ≤ 3)
      × (s.reader_corrupted_segments_recent ≤ 10)
      × (s.reader_corrupted_lines_recent ≤ 10)
unfolding compute_health_status
compute_health_status-degraded s h = ground arith

compute_health_status-ok :
    (s : HealthSnapshot)
    → (compute_health_status s ≡ ok) ↔ (
        (s.log_manager_checkpoint_failures_recent ≡ 0)
        × (s.log_manager_gzip_failures_recent ≡ 0)
        × (s.log_manager_recovery_fallbacks_recent ≡ 0)
        × (s.reader_gzip_read_errors_recent ≡ 0)
        × (s.reader_corrupted_segments_recent ≡ 0)
        × (s.reader_corrupted_lines_recent ≡ 0))
unfolding compute_health_status
compute_health_status-ok s = ground arith

compute_health_reason-none :
    (s : HealthSnapshot)
    → (compute_health_reason s ≡ HealthReason.none) ↔ (
        (s.log_manager_checkpoint_failures_recent ≡ 0)
        × (s.log_manager_gzip_failures_recent ≡ 0)
        × (s.log_manager_recovery_fallbacks_recent ≡ 0)
        × (s.reader_gzip_read_errors_recent ≡ 0)
        × (s.reader_corrupted_segments_recent ≡ 0)
        × (s.reader_corrupted_lines_recent ≡ 0))
unfolding compute_health_reason
compute_health_reason-none s = ground arith

severity-le : (x : HealthStatus) → severity x ≤ 2
unfolding severity
severity-le ok = omega arith
severity-le degraded = omega arith
severity-le unhealthy = omega arith

-- No threshold is passed.
Tolerable : HealthSnapshot → Type 0
Tolerable s =
    (s.log_manager_checkpoint_failures_recent ≡ 0)
    × (s.log_manager_gzip_failures_recent ≡ 0)
    × (s.log_manager_recovery_fallbacks_recent ≤ 3)
    × (s.reader_gzip_read_errors_recent ≤ 3)
    × (s.reader_corrupted_segments_recent ≤ 10)
    × (s.reader_corrupted_lines_recent ≤ 10)

severity-Tolerable : (s : HealthSnapshot) → Tolerable s → severity (compute_health_status s) ≤ 1
unfolding severity compute_health_status Tolerable
severity-Tolerable s h = ground arith

-- A snapshot whose recent counts have only grown is never reported as healthier.
compute_health_status_mono :
    (s u : HealthSnapshot)
    → Below s u
    → severity (compute_health_status s) ≤ severity (compute_health_status u)
unfolding severity Tolerable
compute_health_status_mono s u b = by_status (compute_health_status u) refl
  where
    by_status :
        (x : HealthStatus)
        → compute_health_status u ≡ x
        → severity (compute_health_status s) ≤ severity x
    by_status ok e =
        let zeros = (compute_health_status-ok u).0 e in
        rw ((compute_health_status-ok s).1 (omega (arith, b))) (omega arith)
    by_status degraded e =
        severity-Tolerable s (omega (arith, b, compute_health_status-degraded u e))
    by_status unhealthy e = severity-le (compute_health_status s)

-- The status is ok exactly when the reason is none, that is, when no recent count is positive.
status_ok-reason_none :
    (s : HealthSnapshot)
    → (compute_health_status s ≡ ok) ↔ (compute_health_reason s ≡ HealthReason.none)
status_ok-reason_none s = (
  λ h. (compute_health_reason-none s).1 ((compute_health_status-ok s).0 h),
  λ h. (compute_health_status-ok s).1 ((compute_health_reason-none s).0 h),
)
