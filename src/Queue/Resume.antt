-- ===== src/Queue/Resume.antt =====
-- The start of src/async_writer.cc on a file that is there: recovery, and the writer set to its result.
use mathlib.Core.Path.{subst}
use native.Mathlib.Nat.{mod-le}
use seastar_log_engine.Prelude.{
  ℕ, ◌-◌, ◌%◌, ◌≤◌, ◌<◌, ◌≡◌, refl, sym, ap, ◌∙◌, inl, inr, Bool, true, Bool-cases, Option, some,
  [], ◌++◌, append-nil, arith, Bytes, length, length-take, length-drop, take, drop, if◌then◌else◌,
}
use seastar_log_engine.Codec.Scan.{scan_log_content}
use seastar_log_engine.Codec.Scan.Cut.{scan_log_content-size}
use seastar_log_engine.Recovery.{CheckpointState, RecoveryState}
use seastar_log_engine.Recovery.Recover.{recover_active_file, tail_size_of}
use seastar_log_engine.Recovery.Recover.Full.{recovered, recover_active_file-full}
use seastar_log_engine.Recovery.Stream.LastBytes.{last_bytes}
use seastar_log_engine.Recovery.Stream.Whole.{join_chunks}
use seastar_log_engine.Append
use seastar_log_engine.Append.{AppendWriter, batch_bytes}
use seastar_log_engine.Append.Device.{IsFile}
use seastar_log_engine.Append.Stream.{Holds, Holds-file, in_file, in_file-Starts}
use seastar_log_engine.Append.Stream.End.{force_flush-Holds, truncate_to-Holds}
use seastar_log_engine.Queue.{
  Services, AsyncWriter, persist_checkpoint, persist_if_enabled, recover_from_checkpoint,
  apply_recovery,
}
use seastar_log_engine.Queue.Invariant.{Accounts, KeepsFile}

tail_size_of-positive :
    (alignment size : ℕ) → 0 < alignment → tail_size_of alignment size ≡ size % alignment
unfolding tail_size_of
tail_size_of-positive alignment size h = ground arith

-- The verified part of a file.
pub verified_part : Bytes → Bytes
verified_part bytes = take (scan_log_content bytes).valid_size bytes

module _ {D : Type 0} (services : Services D) (content : D → Bytes)
    (law : IsFile services.file_ops content) where
  persist_checkpoint-Holds :
      (keeps : KeepsFile services content) (stream : Bytes) (w : AsyncWriter D)
      → Holds content stream w.append_writer
      → Holds content stream (persist_checkpoint services w).1.append_writer
  unfolding persist_checkpoint in_file
  persist_checkpoint-Holds keeps stream w h =
      let forced = Append.force_flush services.file_ops true w.append_writer in
      let held = force_flush-Holds services.file_ops content law stream true w.append_writer h in
      elim (Bool-cases forced.0) [
        | inr failed ↦ rw failed held
        | inl done ↦
            let checkpoint : CheckpointState = record {
              logical_size = forced.1.logical_size;
              sequence = w.sequence;
              rotation_index = w.rotation_index;
            } in
            rw done (
              Holds-file services.file_ops content law stream forced.1
                (services.store_checkpoint checkpoint forced.1.file).1 held
                (ap (take (length (in_file content forced.1))) (keeps checkpoint forced.1.file)
                  ∙ in_file-Starts services.file_ops content law stream forced.1 held))
      ]

  -- Storing a checkpoint leaves the writer's stream as it is.
  pub persist_if_enabled-Holds :
      (keeps : KeepsFile services content) (stream : Bytes) (w : AsyncWriter D)
      → Holds content stream w.append_writer
      → Holds content stream (persist_if_enabled services w).1.append_writer
  unfolding persist_if_enabled
  persist_if_enabled-Holds keeps stream w h =
      let P : Bool → Type 0 = λ b.
        Holds content stream
          (if b then persist_checkpoint services w else (true, w)).1.append_writer in
      elim (Bool-cases w.config.checkpoint_enabled) [
        | inl on ↦ subst P (sym on) (persist_checkpoint-Holds keeps stream w h)
        | inr off ↦ subst P (sym off) h
      ]

  truncate_to-recovered :
      (w : AppendWriter D)
      → w.file_open ≡ true
      → 0 < w.alignment
      → 0 < w.config.stream_buffer_size
      → let recovery = recovered (content w.file) w.alignment in
        let result =
          Append.truncate_to services.file_ops recovery.logical_size recovery.tail_buffer w in
        result.0 ≡ true → Holds content (verified_part (content w.file)) result.1
  unfolding verified_part recovered last_bytes
  truncate_to-recovered w opened blocks buffered =
      let bytes = content w.file in
      let size = (scan_log_content bytes).valid_size in
      let stream = verified_part bytes in
      let count = tail_size_of w.alignment size in
      let tail = last_bytes count stream in
      let exact : size ≡ length stream =
        omega (arith, length-take size bytes, scan_log_content-size bytes) in
      let few : count ≤ length stream =
        omega
          (arith, exact, tail_size_of-positive w.alignment size blocks, mod-le size w.alignment) in
      let tail_size : length tail ≡ count =
        omega (arith, few, length-drop (length stream - count) stream) in
      subst
        (λ n.
          (Append.truncate_to services.file_ops n tail w).0 ≡ true
          → Holds content stream (Append.truncate_to services.file_ops n tail w).1)
        (sym exact)
        (truncate_to-Holds services.file_ops content law stream tail w opened blocks buffered
          (ap (λ n. take n bytes) (sym exact))
          (tail_size
            ∙ tail_size_of-positive w.alignment size blocks
            ∙ ap (λ n. n % w.alignment) exact)
          (ap (λ n. drop (length stream - n) stream) tail_size))

  -- The truncation leaves the verified part of the file.
  truncate_to-cut :
      (w : AppendWriter D)
      → w.file_open ≡ true
      → let recovery = recovered (content w.file) w.alignment in
        let result =
          Append.truncate_to services.file_ops recovery.logical_size recovery.tail_buffer w in
        result.0 ≡ true → content result.1.file ≡ verified_part (content w.file)
  unfolding verified_part recovered Append.truncate_to
  truncate_to-cut w opened =
      let size = (scan_log_content (content w.file)).valid_size in
      rw opened
        (λ done. law.truncate-content size w.file (scan_log_content-size (content w.file)) done)

  -- This result of a start is that of storing a checkpoint, where one is stored, from a state whose file
  -- holds these bytes and nothing else.
  pub CutBefore : Bytes → Bool × AsyncWriter D → Type 0
  CutBefore bytes result =
      (before : AsyncWriter D) × (content before.append_writer.file ≡ bytes)
      × (result ≡ persist_if_enabled services before)

  apply_recovery-CutBefore :
      (recovery : RecoveryState) (bytes : Bytes) (w : AsyncWriter D)
      → (let result =
            Append.truncate_to services.file_ops recovery.logical_size recovery.tail_buffer
              w.append_writer in
          result.0 ≡ true → content result.1.file ≡ bytes)
      → (apply_recovery services (some recovery, w.append_writer.file) w).0 ≡ true
      → CutBefore bytes (apply_recovery services (some recovery, w.append_writer.file) w)
  unfolding apply_recovery CutBefore
  apply_recovery-CutBefore recovery bytes w truncated done =
      let result =
        Append.truncate_to services.file_ops recovery.logical_size recovery.tail_buffer
          w.append_writer in
      elim (Bool-cases result.0) [
        | inr failed ↦ absurd (cc (rw (apply_recovery, failed) at done))
        | inl cut ↦ (
          record w {
            sequence = recovery.sequence;
            rotation_index = recovery.rotation_index;
            append_writer = result.1;
          },
          truncated cut,
          rw (apply_recovery, cut) refl,
        )
      ]

  record SameQueue (w after : AsyncWriter D) : Type 0 where
    pending : after.pending ≡ w.pending
    bytes : after.pending_bytes ≡ w.pending_bytes

  persist_if_enabled-SameQueue : (w : AsyncWriter D) → SameQueue w (persist_if_enabled services w).1
  unfolding persist_if_enabled persist_checkpoint
  persist_if_enabled-SameQueue w =
      let forced = Append.force_flush services.file_ops true w.append_writer in
      let P : Bool → Type 0 =
        λ b. SameQueue w (if b then persist_checkpoint services w else (true, w)).1 in
      let off : SameQueue w w = record { pending = refl; bytes = refl } in
      let on : SameQueue w (persist_checkpoint services w).1 = elim (Bool-cases forced.0) [
        | inl done ↦ rw (persist_checkpoint, done) (record { pending = refl; bytes = refl })
        | inr failed ↦ rw (persist_checkpoint, failed) (record { pending = refl; bytes = refl })
      ] in
      elim (Bool-cases w.config.checkpoint_enabled) [
        | inl e ↦ subst P (sym e) on
        | inr e ↦ subst P (sym e) off
      ]

  apply_recovery-Accounts :
      (keeps : KeepsFile services content) (recovery : RecoveryState) (stream : Bytes)
      (w : AsyncWriter D)
      → (let result =
            Append.truncate_to services.file_ops recovery.logical_size recovery.tail_buffer
              w.append_writer in
          result.0 ≡ true → Holds content stream result.1)
      → w.pending ≡ []
      → w.pending_bytes ≡ 0
      → (apply_recovery services (some recovery, w.append_writer.file) w).0 ≡ true
      → Accounts content stream (apply_recovery services (some recovery, w.append_writer.file) w).1
  unfolding apply_recovery join_chunks batch_bytes
  apply_recovery-Accounts keeps recovery stream w truncated empty zeroed done =
      let result =
        Append.truncate_to services.file_ops recovery.logical_size recovery.tail_buffer
          w.append_writer in
      let w' = record w {
        sequence = recovery.sequence;
        rotation_index = recovery.rotation_index;
        append_writer = result.1;
      } in
      let same = persist_if_enabled-SameQueue w' in
      elim (Bool-cases result.0) [
        | inr failed ↦ absurd (cc (rw (apply_recovery, failed) at done))
        | inl cut ↦
            rw (apply_recovery, cut)
              (record {
                stream = stream;
                holds = persist_if_enabled-Holds keeps stream w' (truncated cut);
                whole =
                    ap (λ p. stream ++ join_chunks p) (same.pending ∙ empty) ∙ append-nil stream;
                counted = same.bytes ∙ zeroed ∙ ap batch_bytes (sym (same.pending ∙ empty));
              })
      ]

  -- A writer that is started on a file without a usable checkpoint stands for the records of the file
  -- that are whole and pass their tests, and what is appended next follows the last of them. An unusable
  -- end of the file is cut off: before a checkpoint is stored the file holds these records and nothing
  -- else. Hypotheses: the log manager recovers as it is modelled, from the writer's file, storing a
  -- checkpoint leaves that file alone, nothing waits in the queue, and the call returns.
  pub recover_from_checkpoint-Accounts :
      (keeps : KeepsFile services content) (checkpoint : Option CheckpointState) (w : AsyncWriter D)
      → w.append_writer.file_open ≡ true
      → 0 < w.append_writer.alignment
      → 0 < w.append_writer.config.stream_buffer_size
      → w.pending ≡ []
      → w.pending_bytes ≡ 0
      → ((c : CheckpointState)
          → checkpoint ≡ some c
          → length (content w.append_writer.file) < c.logical_size)
      → services.recover_active_file w.append_writer.alignment w.append_writer.file ≡ (
        recover_active_file
            (some (content w.append_writer.file))
            checkpoint
            w.append_writer.alignment,
        w.append_writer.file,
      )
      → (recover_from_checkpoint services w).0 ≡ true
      → Accounts content
          (verified_part (content w.append_writer.file))
          (recover_from_checkpoint services w).1
        × CutBefore
            (verified_part (content w.append_writer.file))
            (recover_from_checkpoint services w)
  unfolding recover_from_checkpoint
  recover_from_checkpoint-Accounts keeps checkpoint w opened blocks buffered empty zeroed behind
        recovers done =
      let bytes = content w.append_writer.file in
      let recovery = recovered bytes w.append_writer.alignment in
      let found =
        recovers
        ∙ ap (λ r. (r, w.append_writer.file))
            (recover_active_file-full bytes checkpoint w.append_writer.alignment behind) in
      subst
        (λ r.
          (apply_recovery services r w).0 ≡ true
          → Accounts content (verified_part bytes) (apply_recovery services r w).1
            × CutBefore (verified_part bytes) (apply_recovery services r w))
        (sym found)
        (λ returned. (
          apply_recovery-Accounts keeps recovery (verified_part bytes) w
              (truncate_to-recovered w.append_writer opened blocks buffered) empty zeroed returned,
          apply_recovery-CutBefore recovery (verified_part bytes) w
              (truncate_to-cut w.append_writer opened) returned,
        ))
        done
