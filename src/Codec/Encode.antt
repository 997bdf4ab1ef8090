-- ===== src/Codec/Encode.antt =====
-- `encode_record_buffer` of src/record_codec.cc. The buffer is modelled by the bytes written to it;
-- the cursor `out`, the running checksum and the flag `first` are its state. A checksum pointer that
-- may be null is a flag.
pub mod Join
pub mod Layout
pub mod Record
pub mod Bounds
use seastar_log_engine.Prelude.{
  ℕ, zero, suc, ◌+◌, Bool, true, false, not, ◌&&◌, ◌||◌, Option, none, some, List, [], ◌∷◌, ◌++◌,
  Bytes, codes, length, drop, drop, ◌==◌, if◌then◌else◌, to_decimal,
}
use Prim.Native.Nat.{bit_xor}
use seastar_log_engine.Config.{EngineConfig, CrcClass, header, payload_hash, full, LogLevel}
use seastar_log_engine.Codec.Crc.{crc32_update, crc32_update_byte}
use seastar_log_engine.Codec.Xxh.{xxh64}
use seastar_log_engine.Codec.Text.{
  decimal_length, hex_text, level_to_string, crc_prefix, crc_prefix_size,
}

pub record Cursor : Type 0 where
  pub text : Bytes
  pub crc : ℕ
  pub first : Bool

-- `append_literal`; `tracked` tells that the checksum pointer is not null.
unfoldable pub append_literal : Bool → Cursor → Bytes → Cursor
append_literal tracked out value = record out {
  text = out.text ++ value;
  crc = if tracked then crc32_update out.crc value else out.crc;
}

unfoldable pub is_special : ℕ → Bool
is_special c = c == b'\n' || c == b'\r' || c == b'\t'

-- `*out++ = ' '` with its checksum.
pub append_space : Bool → Cursor → Cursor
append_space tracked out = record out {
  text = out.text ++ b' ' ∷ [];
  crc = if tracked then crc32_update_byte out.crc b' ' else out.crc;
}

-- `append_sanitized_payload`: `run` holds the bytes from `start` to the byte looked at.
pub append_sanitized : Bool → Cursor → Bytes → Bytes → Cursor
append_sanitized tracked out run [] = append_literal tracked out run
append_sanitized tracked out run (c ∷ payload) = elim (is_special c) [
  | true ↦
      append_sanitized tracked (append_space tracked (append_literal tracked out run)) [] payload
  | false ↦ append_sanitized tracked out (run ++ c ∷ []) payload
]

pub append_field_prefix : Bool → Cursor → Bytes → Cursor
append_field_prefix tracked out key =
    if out.first
    then append_literal tracked (record out { first = false }) key
    else append_literal tracked (append_literal tracked out (b'\t' ∷ [])) key

-- One field of the header: its key and its value.
pub append_field : Bool → Cursor → Bytes → Bytes → Cursor
append_field tracked out key value =
    append_literal tracked (append_field_prefix tracked out key) value

unfoldable pub same_class : CrcClass → CrcClass → Bool
same_class header header = true
same_class payload_hash payload_hash = true
same_class full full = true
same_class CrcClass.none CrcClass.none = true
same_class c d = false

unfoldable pub crc_wanted : EngineConfig → Bool
crc_wanted config =
    config.record_crc_enabled && not (same_class config.record_crc_class CrcClass.none)

unfoldable pub header_only : EngineConfig → Bool
header_only config = crc_wanted config && same_class config.record_crc_class header

unfoldable pub payload_hash_mode : EngineConfig → Bool
payload_hash_mode config = crc_wanted config && same_class config.record_crc_class payload_hash

unfoldable pub any_structured : EngineConfig → Bool
any_structured config =
    crc_wanted config
    || config.record_timestamp_enabled
    || config.record_shard_id_enabled
    || config.record_sequence_enabled
    || config.record_level_enabled

-- The fields in front of the payload.
pub append_header : EngineConfig → ℕ → ℕ → LogLevel → Bytes → Cursor → Cursor
append_header config shard_id sequence level timestamp out =
    let tracked = crc_wanted config in
    let out =
      (if config.record_timestamp_enabled
        then append_field tracked out (codes "ts=") timestamp
        else out) in
    let out =
      (if config.record_shard_id_enabled
        then append_field tracked out (codes "shard=") (to_decimal shard_id)
        else out) in
    let out =
      (if config.record_sequence_enabled
        then append_field tracked out (codes "seq=") (to_decimal sequence)
        else out) in
    if config.record_level_enabled
    then append_field tracked out (codes "level=") (level_to_string level)
    else out

-- The checksum pointer for the payload field.
pub payload_tracked : EngineConfig → Bool
payload_tracked config =
    if header_only config || payload_hash_mode config then false else crc_wanted config

abbrev pub start : Cursor
start = record { text = []; crc = 0xffffffff; first = true }

-- The prefix and the line, once the body is written; `payload_begin` is where the payload's bytes
-- start in it.
pub finish_record : EngineConfig → ℕ → Cursor → Bytes
finish_record config payload_begin out =
    let hash = (if payload_hash_mode config then xxh64 (drop payload_begin out.text) else 0) in
    let crc =
      (if payload_hash_mode config then crc32_update out.crc (hex_text 16 hash) else out.crc) in
    if crc_wanted config
    then crc_prefix (bit_xor crc 0xffffffff) config.record_crc_class hash ++ out.text ++ b'\n' ∷ []
    else out.text ++ b'\n' ∷ []

pub encode_record_buffer : EngineConfig → ℕ → ℕ → LogLevel → Bytes → Bytes → Bytes
encode_record_buffer config shard_id sequence level timestamp payload =
    let out = append_header config shard_id sequence level timestamp start in
    let keyed = append_field_prefix (payload_tracked config) out (codes "payload=") in
    if any_structured config
    then finish_record config (length keyed.text)
        (append_sanitized (payload_tracked config) keyed [] payload)
    else (append_sanitized false start [] payload).text ++ b'\n' ∷ []

-- The size of the buffer that is allocated.
pub buffer_size : EngineConfig → ℕ → ℕ → LogLevel → Bytes → Bytes → ℕ
buffer_size config shard_id sequence level timestamp payload =
    let prefix_size = (if crc_wanted config then crc_prefix_size config.record_crc_class else 0) in
    let body_estimate =
      length payload
      + 32
      + (if config.record_timestamp_enabled then 3 + length timestamp else 0)
      + (if config.record_shard_id_enabled then 6 + decimal_length shard_id else 0)
      + (if config.record_sequence_enabled then 4 + decimal_length sequence else 0)
      + (if config.record_level_enabled then 6 + length (level_to_string level) else 0) in
    if any_structured config then prefix_size + body_estimate + 1 else length payload + 1
