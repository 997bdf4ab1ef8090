-- ===== src/Recovery/Recover.antt =====
-- `recover_active_file` of src/log_manager.cc. An exception is `none`. The file is its bytes or missing;
-- the checkpoint is what `read_checkpoint_file` gives.
pub mod Full
pub mod Resume
use seastar_log_engine.Prelude.{
  ℕ, zero, suc, ◌+◌, ◌-◌, ◌%◌, Bool, true, false, Option, none, some, List, [], ◌∷◌, ◌++◌, Bytes,
  length, take, drop, ltb, leb, ◌==◌, if◌then◌else◌,
}
use seastar_log_engine.Recovery.Stream.{StreamedVerifiedLogState, scan_log_file_streaming}
use seastar_log_engine.Recovery.{CheckpointState, RecoveryState}

-- The size of `buffer`.
abbrev pub buffer_size : ℕ
buffer_size = 65536

-- What the reads give, with a round for each byte at most.
unfoldable pub read_pieces : ℕ → ℕ → Bytes → List Bytes
read_pieces size zero content = []
read_pieces size (suc rounds) [] = []
read_pieces size (suc rounds) (c ∷ content) =
    take size (c ∷ content) ∷ read_pieces size rounds (drop size (c ∷ content))

pub scan_file : Bytes → ℕ → ℕ → ℕ → StreamedVerifiedLogState
scan_file content start_offset next_sequence trailing_capacity =
    let rest = drop start_offset content in
    scan_log_file_streaming (read_pieces buffer_size (length rest) rest) start_offset next_sequence
      trailing_capacity

pub read_tail_before_offset : Bytes → ℕ → ℕ → Option Bytes
read_tail_before_offset content offset tail_size =
    let tail = take tail_size (drop (offset - tail_size) content) in
    if tail_size == 0
    then some []
    else if ltb offset tail_size
    then none
    else if length tail == tail_size
    then some tail
    else none

unfoldable pub tail_size_of : ℕ → ℕ → ℕ
tail_size_of alignment logical_size = if alignment == 0 then 0 else logical_size % alignment

-- The tail of what is kept, or `otherwise` where that is too short.
pub tail_of : Bytes → ℕ → Option Bytes → Option Bytes
tail_of kept tail_size otherwise =
    if tail_size == 0
    then some []
    else if leb tail_size (length kept)
    then some (drop (length kept - tail_size) kept)
    else otherwise

pub with_tail : RecoveryState → Option Bytes → Option RecoveryState
with_tail recovery none = none
with_tail recovery (some tail) = some (record recovery { tail_buffer = tail })

pub recover_from_checkpoint : Bytes → CheckpointState → ℕ → Option RecoveryState
recover_from_checkpoint content checkpoint alignment =
    let streamed = scan_file content checkpoint.logical_size checkpoint.sequence alignment in
    let verified = streamed.verified in
    let tail_size = tail_size_of alignment verified.valid_size in
    with_tail
      (record {
        logical_size = verified.valid_size;
        sequence = verified.next_sequence;
        rotation_index = checkpoint.rotation_index;
        tail_buffer = [];
      })
      (tail_of streamed.trailing_bytes tail_size
        (read_tail_before_offset content verified.valid_size tail_size))

pub recover_by_scan : Bytes → ℕ → Option RecoveryState
recover_by_scan content alignment =
    let streamed = scan_file content 0 0 alignment in
    let verified = streamed.verified in
    let recovery : RecoveryState = record {
      logical_size = verified.valid_size;
      sequence = verified.next_sequence;
      rotation_index = 0;
      tail_buffer = [];
    } in
    if verified.valid_size == 0
    then some recovery
    else with_tail recovery
        (tail_of streamed.trailing_bytes (tail_size_of alignment verified.valid_size) none)

pub recover_active_file : Option Bytes → Option CheckpointState → ℕ → Option RecoveryState
recover_active_file none checkpoint alignment =
    some (record { logical_size = 0; sequence = 0; rotation_index = 0; tail_buffer = [] })
recover_active_file (some content) none alignment = recover_by_scan content alignment
recover_active_file (some content) (some checkpoint) alignment =
    if leb checkpoint.logical_size (length content)
    then recover_from_checkpoint content checkpoint alignment
    else recover_by_scan content alignment
