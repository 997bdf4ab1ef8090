-- ===== src/Recovery/Tests.antt =====
-- The theorems on recovery, at concrete files.
use mathlib.Core.Path.{subst}
use seastar_log_engine.Prelude.{
  refl, ◌++◌, sym, ◌≡◌, ◌<◌, Option, none, some, List, [], ◌∷◌, arith, Bytes, codes, length, take,
}
use seastar_log_engine.Codec.Scan.{scan_log_content, scan_loop, accept_line, sequence_after}
use seastar_log_engine.Codec.Record.{
  is_some, extract_sequence, parse_record_line, verify_record_line, parse_fields, optional_field,
  extract_field, extract_field_loop,
}
use seastar_log_engine.Recovery.Recover.Resume.{recover_active_file-checkpoint}
use seastar_log_engine.Recovery.Checkpoint.{checkpoint_text, read_checkpoint}
use seastar_log_engine.Recovery.Checkpoint.RoundTrip.{read_checkpoint-checkpoint_text}
use seastar_log_engine.Recovery.{CheckpointState}
use seastar_log_engine.Recovery.Stream.{scan_log_file_streaming}
use seastar_log_engine.Recovery.Stream.Whole.{join_chunks, scan_log_file_streaming-verified}
use seastar_log_engine.Recovery.Stream.Trailing.{scan_log_file_streaming-trailing}
use seastar_log_engine.Recovery.Stream.LastBytes.{last_bytes}
use seastar_log_engine.Recovery.Recover.{recover_active_file}
use seastar_log_engine.Recovery.Recover.Full.{recovered, recover_active_file-full}

-- "one", then "two" across two pieces, and a torn line.
abbrev pieces : List Bytes
pieces = codes "one\ntw" ∷ codes "o\nthr" ∷ []

scan_log_file_streaming-verified_example :
    (scan_log_file_streaming pieces 0 0 4).verified ≡ scan_log_content (join_chunks pieces)
scan_log_file_streaming-verified_example = scan_log_file_streaming-verified pieces 4

scan_log_file_streaming-trailing_example :
    (scan_log_file_streaming pieces 0 0 4).trailing_bytes
    ≡ last_bytes 4 (take (scan_log_content (join_chunks pieces)).valid_size (join_chunks pieces))
scan_log_file_streaming-trailing_example = scan_log_file_streaming-trailing pieces 4

abbrev ahead : CheckpointState
ahead = record { logical_size = 100; sequence = 7; rotation_index = 1 }

ahead-lt :
    (c : CheckpointState) → some ahead ≡ some c → length (codes "one\ntwo\nthr") < c.logical_size
ahead-lt c e =
    subst (λ (o : Option CheckpointState). elim o [ none ↦ 0 < 1 | some s ↦ 11 < s.logical_size ]) e
      (omega arith)

recover_active_file-full_example :
    recover_active_file (some (codes "one\ntwo\nthr")) (some ahead) 4
    ≡ some (recovered (codes "one\ntwo\nthr") 4)
recover_active_file-full_example =
    recover_active_file-full (codes "one\ntwo\nthr") (some ahead) 4 ahead-lt

scan_one :
    ((scan_log_content (codes "one\n")).valid_size ≡ 4)
    × ((scan_log_content (codes "one\n")).next_sequence ≡ 1)
unfolding scan_log_content scan_loop accept_line sequence_after extract_sequence verify_record_line
    is_some parse_record_line parse_fields optional_field extract_field extract_field_loop
scan_one = (refl, refl)

recover_active_file-checkpoint_example :
    recover_active_file
      (some (codes "one\n" ++ codes "two\nthr"))
      (some (record { logical_size = 4; sequence = 1; rotation_index = 3 }))
      4
    ≡ some (record (recovered (codes "one\n" ++ codes "two\nthr") 4) { rotation_index = 3 })
recover_active_file-checkpoint_example =
    recover_active_file-checkpoint (codes "one\n") (codes "two\nthr")
      (record { logical_size = 4; sequence = 1; rotation_index = 3 }) 4
      (refl, scan_one.0, sym scan_one.1)

read_checkpoint-checkpoint_text_example :
    read_checkpoint
      (checkpoint_text (record { logical_size = 4096; sequence = 17; rotation_index = 2 }))
    ≡ some (record { logical_size = 4096; sequence = 17; rotation_index = 2 })
read_checkpoint-checkpoint_text_example =
    read_checkpoint-checkpoint_text
      (record { logical_size = 4096; sequence = 17; rotation_index = 2 }) (omega arith)
      (omega arith) (omega arith)
