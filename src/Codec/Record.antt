-- ===== src/Codec/Record.antt =====
-- Reading a record: `verify_record_line`, `extract_sequence` and `parse_record_line` of
-- src/record_codec.cc.
pub mod Find
pub mod Fields
pub mod Verify
pub mod Hash
pub mod Written
pub mod RoundTrip
use Prim.Native.Nat.{bit_xor}
use seastar_log_engine.Prelude.{
  ℕ, zero, suc, ◌+◌, ◌-◌, ◌^◌, Bool, true, false, not, ◌&&◌, ◌||◌, Option, none, some, List, [],
  ◌∷◌, ◌++◌, Bytes, codes, length, drop, take, bytes_eq, starts_with, find_byte, find_text,
  from_chars, parse_whole, ltb, leb, ◌==◌, if◌then◌else◌, ◌>>=◌, u32_modulus, u64_modulus, is_empty,
}
use seastar_log_engine.Config.{LogLevel, info, warn, error}
use seastar_log_engine.Codec.Crc.{crc32, crc32_update}
use seastar_log_engine.Codec.Xxh.{xxh64}
use seastar_log_engine.Codec.Text.{hex_text}
use seastar_log_engine.Codec.Json.{
  StringMap, extract_json_string, extract_json_u64, extract_json_object, parse_flat_json_string_map,
}

pub record ParsedRecord : Type 0 where
  pub crc : ℕ
  pub timestamp : Bytes
  pub shard : ℕ
  pub has_sequence : Bool
  pub sequence : ℕ
  pub level : LogLevel
  pub payload : Bytes
  pub raw_line : Bytes
  pub agent_id : Bytes
  pub source_id : Bytes
  pub source_offset : Option ℕ
  pub ingest_timestamp : Bytes
  pub attributes : StringMap

-- `parse_crc_hex`.
pub parse_crc_hex : Bytes → Option ℕ
parse_crc_hex input = parse_whole 16 u32_modulus input

-- `extract_field`: `token` holds the bytes since the last tab.
unfoldable pub extract_field_loop : Bytes → Bytes → Bytes → Option Bytes
extract_field_loop key token [] =
    if starts_with key token then some (drop (length key) token) else none
extract_field_loop key token (c ∷ body) = elim (c == b'\t') [
  | true ↦ elim (starts_with key token) [
    | true ↦ some (drop (length key) token)
    | false ↦ extract_field_loop key [] body
  ]
  | false ↦ extract_field_loop key (token ++ c ∷ []) body
]

unfoldable pub extract_field : Bytes → Bytes → Option Bytes
extract_field body key = extract_field_loop key [] body

-- `split_payload_field`: the text in front of the payload field, and the payload.
pub split_payload_field : Bytes → Option (Bytes × Bytes)
split_payload_field body =
    if starts_with (codes "payload=") body
    then some ([], drop 8 body)
    else (do pos ← find_text (codes "\tpayload=") body; some (take pos body, drop (pos + 9) body))

-- `parse_hash_crc_prefix`: the checksum and the hash.
pub parse_hash_crc_prefix : Bytes → Option (ℕ × ℕ)
parse_hash_crc_prefix line = if not (starts_with (codes "crc=x:") line) then none else (do
  tab ← find_byte b'\t' line
  let encoded = take (tab - 6) (drop 6 line)
  sep ← if leb tab 6 then none else find_byte b':' encoded
  crc ←
      if sep == 0 || leb (length encoded) (sep + 1) then none else parse_crc_hex (take sep encoded)
  hash ← parse_whole 16 u64_modulus (drop (sep + 1) encoded)
  some (crc, hash))

-- The checksum of a record with a payload hash, as the readers compute it.
pub hash_record_crc : Bytes → ℕ → ℕ
hash_record_crc head hash =
    bit_xor (crc32_update (bit_xor (crc32 head) 0xffffffff) (hex_text 16 hash)) 0xffffffff

-- The bytes behind the tab that ends the prefix.
pub body_after_tab : Bytes → Bytes
body_after_tab line = elim (find_byte b'\t' line) [ none ↦ line | some tab ↦ drop (tab + 1) line ]

-- The branch for "crc=x:": the checksum in the prefix, if it and the hash are right.
pub check_hash_line : Bytes → Option ℕ
check_hash_line line = do
  read ← parse_hash_crc_prefix line
  view ← split_payload_field (body_after_tab line)
  if xxh64 view.1 == read.1 && hash_record_crc view.0 (xxh64 view.1) == read.0
      then some read.0
      else none

-- The checksum in a prefix of `size` bytes that ends with a tab.
pub encoded_crc : ℕ → Bytes → Option ℕ
encoded_crc size line = do
  tab ← find_byte b'\t' line
  if leb tab size then none else parse_crc_hex (take (tab - size) (drop size line))

-- The text in front of the payload field, or all of it.
pub header_of_body : Bytes → Bytes
header_of_body body = elim (find_text (codes "\tpayload=") body) [
  | none ↦ body
  | some pos ↦ take pos body
]

-- The branch for "crc=h:".
pub check_header_line : Bytes → Option ℕ
check_header_line line = do
  crc ← encoded_crc 6 line
  if crc == crc32 (header_of_body (body_after_tab line)) then some crc else none

-- The branch for "crc=".
pub check_full_line : Bytes → Option ℕ
check_full_line line = do
  crc ← encoded_crc 4 line
  if crc == crc32 (body_after_tab line) then some crc else none

-- `populate_agent_metadata_from_payload`.
unfoldable pub populate_agent_metadata : ParsedRecord → ParsedRecord
populate_agent_metadata r =
    let text = r.payload in
    let message = extract_json_string text (codes "message") in
    let agent_id = extract_json_string text (codes "agent_id") in
    let source_id = extract_json_string text (codes "source_id") in
    let source_offset = extract_json_u64 text (codes "source_offset") in
    let ingest_timestamp = extract_json_string text (codes "ingest_timestamp") in
    let attributes = extract_json_object text (codes "attributes") in
    if not (starts_with (b'{' ∷ []) text) then r else record r {
      payload = elim message [ none ↦ r.payload | some m ↦ m ];
      agent_id = elim agent_id [ none ↦ r.agent_id | some a ↦ a ];
      source_id = elim source_id [ none ↦ r.source_id | some a ↦ a ];
      source_offset = elim source_offset [ none ↦ r.source_offset | some o ↦ some o ];
      ingest_timestamp = elim ingest_timestamp [ none ↦ r.ingest_timestamp | some t ↦ t ];
      attributes = elim attributes [ none ↦ r.attributes | some a ↦ parse_flat_json_string_map a ];
    }

pub parse_level : Bytes → Option LogLevel
parse_level level =
    if bytes_eq level (codes "INFO")
    then some info
    else if bytes_eq level (codes "WARN")
    then some warn
    else if bytes_eq level (codes "ERROR")
    then some error
    else none

-- A field that may be missing, read by `parse`; a field that is there and cannot be read is a fault.
unfoldable pub optional_field {ℓ} :
    {A : Type ℓ} → (Bytes → Option A) → Option Bytes → Option (Option A)
optional_field parse none = some none
optional_field parse (some text) = elim (parse text) [ none ↦ none | some a ↦ some (some a) ]

unfoldable pub is_some {ℓ} : {A : Type ℓ} → Option A → Bool
is_some none = false
is_some (some a) = true

pub value_or {ℓ} : {A : Type ℓ} → A → Option A → A
value_or d none = d
value_or d (some a) = a

-- The fields of a body whose checksum has been tested.
unfoldable pub parse_fields : Bytes → Option ℕ → Bytes → Option ParsedRecord
parse_fields line crc body = do
  shard ← optional_field (parse_whole 10 u32_modulus) (extract_field body (codes "shard="))
  sequence ← optional_field (parse_whole 10 u64_modulus) (extract_field body (codes "seq="))
  level ← optional_field parse_level (extract_field body (codes "level="))
  some (
      populate_agent_metadata (record {
        crc = value_or 0 crc;
        timestamp = value_or [] (extract_field body (codes "ts="));
        shard = value_or 0 shard;
        has_sequence = is_some sequence;
        sequence = value_or 0 sequence;
        level = value_or info level;
        payload = value_or body (extract_field body (codes "payload="));
        raw_line = line;
        agent_id = [];
        source_id = [];
        source_offset = none;
        ingest_timestamp = [];
        attributes = [];
      }))

unfoldable pub parse_record_line : Bytes → Option ParsedRecord
parse_record_line line =
    if starts_with (codes "crc=x:") line
    then (do crc ← check_hash_line line; parse_fields line (some crc) (body_after_tab line))
    else if starts_with (codes "crc=h:") line
    then (do crc ← check_header_line line; parse_fields line (some crc) (body_after_tab line))
    else if starts_with (codes "crc=") line
    then (do crc ← check_full_line line; parse_fields line (some crc) (body_after_tab line))
    else parse_fields line none line

unfoldable pub verify_record_line : Bytes → Bool
verify_record_line line =
    if starts_with (codes "crc=x:") line
    then is_some (check_hash_line line)
    else if starts_with (codes "crc=h:") line
    then is_some (check_header_line line)
    else if starts_with (codes "crc=") line
    then is_some (check_full_line line)
    else is_some (parse_record_line line)

-- `extract_sequence`.
unfoldable pub extract_sequence : Bytes → Option ℕ
extract_sequence line = do
  body ←
      if starts_with (codes "crc=") line || starts_with (codes "crc=h:") line
      then (do
        tab ← find_byte b'\t' line
        if leb (length line) (tab + 1) then none else some (drop (tab + 1) line))
      else some line
  seq ← extract_field body (codes "seq=")
  parse_whole 10 u64_modulus seq
