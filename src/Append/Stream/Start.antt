-- ===== src/Append/Stream/Start.antt =====
-- `start` of src/append_writer.cc.
use mathlib.Core.Path.{subst}
use native.Mathlib.Nat.{zero-mod}
use seastar_log_engine.Prelude.{
  ℕ, ◌<◌, ◌≡◌, refl, sym, inl, inr, true, false, Option-cases, none, some, [], arith, Bytes, max,
}
use seastar_log_engine.Config.{EngineConfig}
use seastar_log_engine.Recovery.Stream.Whole.{join_chunks}
use seastar_log_engine.Append.{FileOps, AppendWriter, start, open_file}
use seastar_log_engine.Append.Stream.{Holds}

module _ {D : Type 0} (ops : FileOps D) (content : D → Bytes) where
  fresh : EngineConfig → ℕ → ℕ → D → AppendWriter D
  fresh config now alignment file = record {
    config = config;
    file = file;
    file_open = true;
    tail_chunks = [];
    tail_bytes = 0;
    write_offset = 0;
    logical_size = 0;
    alignment = max alignment 1;
    opened_at = now;
  }

  start-fresh :
      (config : EngineConfig) (now alignment : ℕ) (w : AppendWriter D)
      → w.file_open ≡ false
      → (ops.open_file_dma config.truncate_on_start w.file).0 ≡ some alignment
      → start ops config now w
        ≡ (true, fresh config now alignment (ops.open_file_dma config.truncate_on_start w.file).1)
  unfolding start open_file fresh
  start-fresh config now alignment w shut opened = ground (arith, shut, opened)

  start-failed :
      (config : EngineConfig) (now : ℕ) (w : AppendWriter D)
      → w.file_open ≡ false
      → (ops.open_file_dma config.truncate_on_start w.file).0 ≡ none
      → (start ops config now w).0 ≡ false
  unfolding start open_file
  start-failed config now w shut failed = ground (arith, shut, failed)

  fresh-Holds :
      (config : EngineConfig) (now alignment : ℕ) (file : D)
      → 0 < config.stream_buffer_size
      → Holds content [] (fresh config now alignment file)
  unfolding fresh join_chunks
  fresh-Holds config now alignment file buffered = record {
    is_open = refl;
    has_blocks = omega arith;
    buffered = buffered;
    aligned = zero-mod (max alignment 1);
    counted = refl;
    few = omega arith;
    sized = omega arith;
    reached = omega arith;
    stored = refl;
  }

  -- A writer that is started while no file is open stands for an empty stream when the call returns,
  -- whatever the file holds: what is there is written over or cut off.
  pub start-Holds :
      (config : EngineConfig) (now : ℕ) (w : AppendWriter D)
      → 0 < config.stream_buffer_size
      → w.file_open ≡ false
      → let result = start ops config now w in result.0 ≡ true → Holds content [] result.1
  start-Holds config now w buffered shut done =
      let opening = ops.open_file_dma config.truncate_on_start w.file in
      elim (Option-cases opening.0) [
        | inl missing ↦ absurd (cc (done, start-failed config now w shut missing))
        | inr (alignment, opened) ↦
            subst (λ r. Holds content [] r.1) (sym (start-fresh config now alignment w shut opened))
              (fresh-Holds config now alignment opening.1 buffered)
      ]
