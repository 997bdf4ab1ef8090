-- ===== src/Append/Device.antt =====
-- What src/append_writer.cc relies on of `seastar::file`: hypotheses on a parameter.
use seastar_log_engine.Prelude.{ℕ, ◌+◌, ◌≤◌, ◌≡◌, true, some, ◌++◌, Bytes, length, take}
use seastar_log_engine.Append.{FileOps}

-- `content` reads the bytes of the file. A write within the file or at its end changes nothing in
-- front of its offset, also when it fails or is short; a whole write puts the buffer there. A flush
-- and a close keep the bytes, and a truncation that returns cuts them.
pub record IsFile {D : Type 0} (ops : FileOps D) (content : D → Bytes) : Type 0 where
  pub dma_write-front :
      (offset : ℕ) (buffer : Bytes) (file : D)
      → offset ≤ length (content file)
      → take offset (content (ops.dma_write offset buffer file).1) ≡ take offset (content file)
  pub dma_write-whole :
      (offset : ℕ) (buffer : Bytes) (file : D)
      → offset ≤ length (content file)
      → (ops.dma_write offset buffer file).0 ≡ some (length buffer)
      → take (offset + length buffer) (content (ops.dma_write offset buffer file).1)
        ≡ take offset (content file) ++ buffer
  pub flush-content : (file : D) → content (ops.flush file).1 ≡ content file
  pub truncate-content :
      (size : ℕ) (file : D)
      → size ≤ length (content file)
      → (ops.truncate size file).0 ≡ true
      → content (ops.truncate size file).1 ≡ take size (content file)
  pub close-content : (file : D) → content (ops.close file).1 ≡ content file
