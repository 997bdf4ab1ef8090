-- ===== src/Recovery/Checkpoint.antt =====
-- The text of a checkpoint: `checkpoint_body`, `store_checkpoint` and `read_checkpoint_file` of
-- src/log_manager.cc. A missing or unreadable file and a refused text are `none`.
pub mod RoundTrip
use seastar_log_engine.Prelude.{
  ℕ, suc, ◌+◌, ◌-◌, ◌^◌, Bool, true, false, not, ◌&&◌, ◌||◌, Option, none, some, [], ◌∷◌, ◌++◌,
  Bytes, codes, bytes_eq, take, drop, find_byte, is_empty, ltb, ◌==◌, if◌then◌else◌, ◌>>=◌,
  to_decimal, parse_whole, u32_modulus, u64_modulus,
}
use seastar_log_engine.Codec.Crc.{crc32}
use seastar_log_engine.Recovery.{CheckpointState}

abbrev pub end_of_line : Bytes
end_of_line = b'\n' ∷ []

pub checkpoint_body : CheckpointState → Bytes
checkpoint_body checkpoint =
    codes "format_version=2"
    ++ end_of_line
    ++ (codes "logical_size=" ++ to_decimal checkpoint.logical_size)
    ++ end_of_line
    ++ (codes "sequence=" ++ to_decimal checkpoint.sequence)
    ++ end_of_line
    ++ (codes "rotation_index=" ++ to_decimal checkpoint.rotation_index)
    ++ end_of_line

-- What `store_checkpoint` writes.
pub checkpoint_text : CheckpointState → Bytes
checkpoint_text checkpoint =
    let body = checkpoint_body checkpoint in
    body ++ (codes "checkpoint_crc=" ++ to_decimal (crc32 body)) ++ end_of_line

-- The variables of `read_checkpoint_file`; a value and the flag that it was seen are one option.
pub record CheckpointReader : Type 0 where
  pub saw_version : Bool
  pub logical_size : Option ℕ
  pub sequence : Option ℕ
  pub rotation_index : Option ℕ
  pub checkpoint_crc : Option ℕ
  pub signed_body : Bytes

unfoldable pub parse_u64 : Bytes → Option ℕ
parse_u64 value = parse_whole 10 u64_modulus value

pub read_key : CheckpointReader → Bytes → Bytes → Option CheckpointReader
read_key reader key value =
    if bytes_eq key (codes "format_version")
    then (if bytes_eq value (codes "2") then some (record reader { saw_version = true }) else none)
    else if bytes_eq key (codes "logical_size")
    then parse_u64 value >>= (λ parsed. some (record reader { logical_size = some parsed }))
    else if bytes_eq key (codes "sequence")
    then parse_u64 value >>= (λ parsed. some (record reader { sequence = some parsed }))
    else if bytes_eq key (codes "rotation_index")
    then parse_u64 value >>= (λ parsed. some (record reader { rotation_index = some parsed }))
    else some reader

pub read_crc : CheckpointReader → Bytes → Option CheckpointReader
read_crc reader value = parse_u64 value >>= (λ parsed.
    if ltb (2 ^ 32 - 1) parsed then none else some (record reader { checkpoint_crc = some parsed }))

-- The body of the loop.
pub read_line : CheckpointReader → Bytes → Option CheckpointReader
read_line reader line = elim (find_byte b'=' line) [
  | none ↦ some reader
  | some pos ↦
      if bytes_eq (take pos line) (codes "checkpoint_crc")
      then read_crc reader (drop (pos + 1) line)
      else read_key (record reader { signed_body = reader.signed_body ++ line ++ end_of_line })
          (take pos line) (drop (pos + 1) line)
]

-- The loop over `std::getline`; `line` holds the bytes of the line begun.
pub read_lines : CheckpointReader → Bytes → Bytes → Option CheckpointReader
read_lines reader line [] = if is_empty line then some reader else read_line reader line
read_lines reader line (c ∷ content) = elim (c == b'\n') [
  | true ↦ elim (read_line reader line) [ none ↦ none | some next ↦ read_lines next [] content ]
  | false ↦ read_lines reader (line ++ c ∷ []) content
]

-- The tests behind the loop.
pub finish_checkpoint : CheckpointReader → Option CheckpointState
finish_checkpoint reader = do
  logical_size ← reader.logical_size
  sequence ← reader.sequence
  rotation_index ← reader.rotation_index
  checkpoint_crc ← reader.checkpoint_crc
  if reader.saw_version && crc32 reader.signed_body == checkpoint_crc
      then some (record {
        logical_size = logical_size;
        sequence = sequence;
        rotation_index = rotation_index;
      })
      else none

abbrev pub first_reader : CheckpointReader
first_reader = record {
  saw_version = false;
  logical_size = none;
  sequence = none;
  rotation_index = none;
  checkpoint_crc = none;
  signed_body = [];
}

pub read_checkpoint : Bytes → Option CheckpointState
read_checkpoint content = read_lines first_reader [] content >>= finish_checkpoint
