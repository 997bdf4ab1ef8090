-- ===== src/Agent/Pending.antt =====
-- The batch that waits for its delivery, in src/agent_support.cc: `render_pending_delivery_batch` and
-- `parse_pending_delivery_batch`.
pub mod RoundTrip
use seastar_log_engine.Prelude.{
  ℕ, ◌%◌, Bool, true, false, not, ◌&&◌, ◌||◌, Option, none, some, List, [], ◌∷◌, ◌++◌, Bytes, codes,
  bytes_eq, is_empty, starts_with, length, ltb, ◌==◌, if◌then◌else◌, to_decimal, u32_modulus,
}
use seastar_log_engine.Agent.{DeliveryBatch}
use seastar_log_engine.Agent.Base64.{base64_encode, base64_decode}
use seastar_log_engine.Agent.Lines.{text_lines, parse_u64, split_pair}

pub record_rows : List Bytes → Bytes
record_rows [] = []
record_rows (record_bytes ∷ records) =
    (codes "record_b64=" ++ base64_encode record_bytes) ++ b'\n' ∷ record_rows records

pub render_pending_delivery_batch : DeliveryBatch → Bytes
render_pending_delivery_batch batch =
    codes "format_version=1"
    ++ (b'\n'
        ∷ ((codes "shard=" ++ to_decimal batch.shard)
            ++ (b'\n'
                ∷ ((codes "first_sequence=" ++ to_decimal batch.first_sequence)
                    ++ (b'\n'
                        ∷ ((codes "next_sequence=" ++ to_decimal batch.next_sequence)
                            ++ (b'\n' ∷ record_rows batch.records)))))))

-- The variables of the parser.
pub record PendingReader : Type 0 where
  pub batch : DeliveryBatch
  pub saw_version : Bool
  pub saw_shard : Bool
  pub saw_first_sequence : Bool
  pub saw_next_sequence : Bool

-- How a line, or the whole text, ends: an exception, `std::nullopt`, or a value.
pub data Parsed {ℓ} (A : Type ℓ) : Type ℓ where
  threw : Parsed A
  refused : Parsed A
  parsed : A → Parsed A

pub with_number : Bytes → (ℕ → PendingReader) → Parsed PendingReader
with_number value next = elim (parse_u64 value) [ none ↦ threw | some n ↦ parsed (next n) ]

pub with_record : Bytes → (Bytes → PendingReader) → Parsed PendingReader
with_record value next = elim (base64_decode value) [ none ↦ threw | some b ↦ parsed (next b) ]

pub read_pair : PendingReader → Bytes → Bytes → Parsed PendingReader
read_pair reader key value =
    if bytes_eq key (codes "format_version")
    then (if not (bytes_eq value (codes "1"))
        then refused
        else parsed (record reader { saw_version = true }))
    else if bytes_eq key (codes "shard")
    then with_number value (λ n. record reader {
      batch = record reader.batch { shard = n % u32_modulus };
      saw_shard = true;
    })
    else if bytes_eq key (codes "first_sequence")
    then with_number value (λ n. record reader {
      batch = record reader.batch { first_sequence = n };
      saw_first_sequence = true;
    })
    else if bytes_eq key (codes "next_sequence")
    then with_number value (λ n. record reader {
      batch = record reader.batch { next_sequence = n };
      saw_next_sequence = true;
    })
    else if bytes_eq key (codes "record_b64")
    then with_record value (λ bytes. record reader {
      batch = record reader.batch { records = reader.batch.records ++ bytes ∷ [] };
    })
    else parsed reader

pub read_pending_line : PendingReader → Bytes → Parsed PendingReader
read_pending_line reader line =
    if is_empty line
    then parsed reader
    else if starts_with (codes "#") line
    then parsed reader
    else elim (split_pair b'=' line) [
      | none ↦ parsed reader
      | some pair ↦ read_pair reader pair.0 pair.1
    ]

pub read_pending_lines : PendingReader → List Bytes → Parsed PendingReader
read_pending_lines reader [] = parsed reader
read_pending_lines reader (line ∷ lines) = elim (read_pending_line reader line) [
  | threw ↦ threw
  | refused ↦ refused
  | parsed next ↦ read_pending_lines next lines
]

-- The tests behind the loop.
pub finish_pending : Parsed PendingReader → Parsed DeliveryBatch
finish_pending threw = threw
finish_pending refused = refused
finish_pending (parsed reader) =
    if not (
        reader.saw_version
        && (reader.saw_shard && (reader.saw_first_sequence && reader.saw_next_sequence)))
      || length reader.batch.records == 0
    then refused
    else if ltb reader.batch.next_sequence reader.batch.first_sequence
    then refused
    else parsed reader.batch

abbrev pub first_reader : PendingReader
first_reader = record {
  batch = record { shard = 0; first_sequence = 0; next_sequence = 0; records = [] };
  saw_version = false;
  saw_shard = false;
  saw_first_sequence = false;
  saw_next_sequence = false;
}

pub parse_pending_delivery_batch : Bytes → Parsed DeliveryBatch
parse_pending_delivery_batch content =
    finish_pending (read_pending_lines first_reader (text_lines content))
