-- ===== src/Queue/Rotate.antt =====
-- The rotation of src/async_writer.cc: what is handed to the log manager, and what is left.
use seastar_log_engine.Prelude.{ℕ, Bool, Bytes}
use seastar_log_engine.Append
use seastar_log_engine.Append.{AppendWriter}
use seastar_log_engine.Append.Device.{IsFile}
use seastar_log_engine.Queue.{Services}

module _ {D : Type 0} (services : Services D) (content : D → Bytes)
    (law : IsFile services.file_ops content) where
  -- A log manager that moves the file in another way.
  pub moved_by : (ℕ → D → Bool × D) → Services D
  moved_by other = record services { rotate_active_file = other }
