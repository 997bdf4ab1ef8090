-- ===== src/Queue/Backpressure.antt =====
-- The backpressure of src/async_writer.cc: when submitters wait, and when they are woken.
use seastar_log_engine.Prelude.{◌≤◌, ◌<◌, ◌≡◌, true, arith, none}
use seastar_log_engine.Config.{validate}
use seastar_log_engine.Config.Valid.{validate-IsValid}
use seastar_log_engine.Queue.{
  AsyncWriter, backpressure_enabled, above_backpressure_limit, backpressure_resume_threshold,
  below_backpressure_resume_threshold, must_wait, may_resume,
}

-- With a configuration that passes its check, the level at which submitters are woken is not above
-- the one at which they wait.
pub resume_threshold-le :
    {D : Type 0} (w : AsyncWriter D)
    → validate w.config ≡ none
    → 0 < w.config.max_pending_bytes
    → backpressure_resume_threshold w ≤ w.config.max_pending_bytes
unfolding backpressure_resume_threshold backpressure_enabled
resume_threshold-le w valid on =
    let within = (validate-IsValid w.config valid).watermark on in ground arith

-- A submitter that waits is not woken before the queue has drained: where both conditions hold at
-- once, the queue stands at a low watermark that was set to the limit itself.
must_wait-may_resume :
    {D : Type 0} (w : AsyncWriter D)
    → validate w.config ≡ none
    → must_wait w ≡ true
    → may_resume w ≡ true
    → (w.pending_bytes ≡ w.config.max_pending_bytes)
      × (w.config.pending_bytes_low_watermark ≡ w.config.max_pending_bytes)
unfolding must_wait may_resume above_backpressure_limit below_backpressure_resume_threshold
    backpressure_resume_threshold backpressure_enabled
must_wait-may_resume w valid wait resume =
    let checked = validate-IsValid w.config valid in ground (arith, checked.watermark)
