-- ===== src/Append/Disk.antt =====
-- A file in memory whose first writes fail: it has what src/append_writer.cc relies on.
use seastar_log_engine.Prelude.{
  ℕ, zero, suc, ◌+◌, ◌≤◌, ◌≡◌, refl, sym, ap, ◌∙◌, true, Option, none, some, ◌++◌, append_assoc,
  arith, Bytes, length, length-append, length-take, take, drop, take-length-append,
}
use seastar_log_engine.Append.{FileOps}
use seastar_log_engine.Append.Device.{IsFile}

pub record Disk : Type 0 where
  pub bytes : Bytes
  pub failures : ℕ

abbrev pub write_at : ℕ → Bytes → Bytes → Bytes
write_at offset buffer bytes = take offset bytes ++ (buffer ++ drop (offset + length buffer) bytes)

abbrev pub disk_write : ℕ → ℕ → Bytes → Bytes → Option ℕ × Disk
disk_write zero offset buffer bytes =
    (some (length buffer), record { bytes = write_at offset buffer bytes; failures = 0 })
disk_write (suc failures) offset buffer bytes =
    (none, record { bytes = bytes; failures = failures })

abbrev pub disk_ops : FileOps Disk
disk_ops = record {
  open_file_dma = λ truncate d. (some 4, d);
  dma_write = λ offset buffer d. disk_write d.failures offset buffer d.bytes;
  flush = λ d. (true, d);
  truncate = λ size d. (true, record d { bytes = take size d.bytes });
  close = λ d. (true, d);
}

take-within : (n : ℕ) (s t : Bytes) → n ≤ length s → take n (take n s ++ t) ≡ take n s
take-within n s t h =
    ap (λ k. take k (take n s ++ t)) {y = length (take n s)} (omega (arith, h, length-take n s))
    ∙ take-length-append (take n s) t

front :
    (failures offset : ℕ) (buffer bytes : Bytes)
    → offset ≤ length bytes
    → take offset (disk_write failures offset buffer bytes).1.bytes ≡ take offset bytes
front zero offset buffer bytes h =
    take-within offset bytes (buffer ++ drop (offset + length buffer) bytes) h
front (suc failures) offset buffer bytes h = refl

whole :
    (failures offset : ℕ) (buffer bytes : Bytes)
    → offset ≤ length bytes
    → (disk_write failures offset buffer bytes).0 ≡ some (length buffer)
    → take (offset + length buffer) (disk_write failures offset buffer bytes).1.bytes
      ≡ take offset bytes ++ buffer
whole zero offset buffer bytes h e =
    let kept = take offset bytes ++ buffer in
    ap (take (offset + length buffer))
      (sym (append_assoc (take offset bytes) buffer (drop (offset + length buffer) bytes)))
    ∙ ap (λ k. take k (kept ++ drop (offset + length buffer) bytes)) {y = length kept}
        (omega (arith, h, length-append (take offset bytes) buffer, length-take offset bytes))
    ∙ take-length-append kept (drop (offset + length buffer) bytes)
whole (suc failures) offset buffer bytes h e = absurd (cc e)

pub disk-IsFile : IsFile disk_ops (λ d. d.bytes)
disk-IsFile = record {
  dma_write-front = λ offset buffer d h. front d.failures offset buffer d.bytes h;
  dma_write-whole = λ offset buffer d h e. whole d.failures offset buffer d.bytes h e;
  flush-content = λ d. refl;
  truncate-content = λ size d h e. refl;
  close-content = λ d. refl;
}
