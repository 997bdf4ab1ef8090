-- ===== src/Codec/Encode/Bounds.antt =====
-- The buffer that `encode_record_buffer` of src/record_codec.cc allocates holds the record.
use seastar_log_engine.Prelude.{
  ℕ, ◌+◌, ◌≤◌, ◌<◌, ◌≡◌, refl, Bool, true, false, Bool-cases, inl, inr, List, [], ◌∷◌, ◌++◌, arith,
  Bytes, codes, length, length-append, if◌then◌else◌, to_decimal, u64_modulus,
}
use seastar_log_engine.Config.{EngineConfig, CrcClass, header, payload_hash, full, LogLevel}
use seastar_log_engine.Codec.Text.{
  hex_text, level_to_string, crc_prefix, crc_prefix_size, decimal_length,
}
use seastar_log_engine.Codec.Text.Decimal.{length-to_decimal}
use seastar_log_engine.Codec.Text.Hex.{length-hex_text}
use seastar_log_engine.Codec.Crc.Word.{AreBytes}
use seastar_log_engine.Codec.Encode.{
  encode_record_buffer, buffer_size, any_structured, crc_wanted, append_literal, start,
}
use seastar_log_engine.Codec.Encode.Layout.{header_fields, payload_field, record_body, metadata}
use seastar_log_engine.Codec.Encode.Join.{sanitize, append_sanitized_lem, join}
use seastar_log_engine.Codec.Encode.Record.{record_prefix, encode_record_buffer_lem}

pub length-crc_prefix :
    (crc : ℕ) (class : CrcClass) (hash : ℕ)
    → length (crc_prefix crc class hash) ≡ crc_prefix_size class
unfolding crc_prefix crc_prefix_size
length-crc_prefix crc header hash =
    omega (arith, length-append (hex_text 8 crc) (b'\t' ∷ []), length-hex_text 8 crc)
length-crc_prefix crc payload_hash hash = omega (
  arith,
  length-append (hex_text 8 crc ++ codes ":" ++ hex_text 16 hash) (b'\t' ∷ []),
  length-append (hex_text 8 crc ++ codes ":") (hex_text 16 hash),
  length-append (hex_text 8 crc) (codes ":"),
  length-hex_text 8 crc,
  length-hex_text 16 hash,
)
length-crc_prefix crc full hash =
    omega (arith, length-append (hex_text 8 crc) (b'\t' ∷ []), length-hex_text 8 crc)
length-crc_prefix crc CrcClass.none hash = refl

pub length-sanitize : (p : Bytes) → length (sanitize p) ≡ length p
unfolding sanitize
length-sanitize [] = refl
length-sanitize (c ∷ p) = omega (arith, length-sanitize p)

-- The joined fields: each field with one more byte.
width : List Bytes → ℕ
width [] = 0
width (f ∷ fields) = length f + 1 + width fields

width-append : (xs ys : List Bytes) → width (xs ++ ys) ≡ width xs + width ys
unfolding width
width-append [] ys = omega arith
width-append (f ∷ xs) ys = omega (arith, width-append xs ys)

length-join : (fields : List Bytes) → length (join fields) ≤ width fields
unfolding join width
length-join [] = omega arith
length-join (f ∷ []) = omega arith
length-join (f ∷ g ∷ fields) =
    omega (arith, length-append f (b'\t' ∷ join (g ∷ fields)), length-join (g ∷ fields))

-- An optional field.
width-optional :
    (enabled : Bool) (key value : Bytes) (n : ℕ)
    → length value ≡ n
    → width (if enabled then (key ++ value) ∷ [] else [])
      ≡ (if enabled then length key + n + 1 else 0)
unfolding width
width-optional true key value n h = omega (arith, length-append key value, h)
width-optional false key value n h = refl

if-step : (enabled : Bool) (n : ℕ) → (if enabled then n + 1 else 0) ≤ (if enabled then n else 0) + 1
if-step true n = omega arith
if-step false n = omega arith

module _ (config : EngineConfig) (shard_id sequence : ℕ) (level : LogLevel)
    (timestamp payload : Bytes) (small : shard_id < u64_modulus)
    (long : sequence < u64_modulus) where
  width-header_fields :
      width (header_fields config shard_id sequence level timestamp)
      ≡ (if config.record_timestamp_enabled then 3 + length timestamp + 1 else 0)
        + (if config.record_shard_id_enabled then 6 + decimal_length shard_id + 1 else 0)
        + (if config.record_sequence_enabled then 4 + decimal_length sequence + 1 else 0)
        + (if config.record_level_enabled then 6 + length (level_to_string level) + 1 else 0)
  unfolding header_fields
  width-header_fields = rw (
    width-append,
    width-append,
    width-append,
    width-optional config.record_timestamp_enabled (codes "ts=") timestamp (length timestamp) refl,
    width-optional config.record_shard_id_enabled (codes "shard=") (to_decimal shard_id)
        (decimal_length shard_id) (length-to_decimal shard_id small),
    width-optional config.record_sequence_enabled (codes "seq=") (to_decimal sequence)
        (decimal_length sequence) (length-to_decimal sequence long),
    width-optional config.record_level_enabled (codes "level=") (level_to_string level)
        (length (level_to_string level)) refl,
  )

  length-record_body :
      length (record_body config shard_id sequence level timestamp payload)
      ≤ width (header_fields config shard_id sequence level timestamp) + 9 + length payload
  unfolding record_body payload_field
  length-record_body =
      let fields = header_fields config shard_id sequence level timestamp in
      let last : width (payload_field payload ∷ []) ≡ 9 + length payload =
        unfold width payload_field in omega (arith, length-sanitize payload) in
      omega (
        arith,
        length-join (fields ++ payload_field payload ∷ []),
        width-append fields (payload_field payload ∷ []),
        last,
      )

  length-record_prefix :
      length (
        record_prefix config
          (metadata config shard_id sequence level timestamp)
          (record_body config shard_id sequence level timestamp payload)
          payload)
      ≡ (if crc_wanted config then crc_prefix_size config.record_crc_class else 0)
  unfolding record_prefix
  length-record_prefix = elim (Bool-cases (crc_wanted config)) [
    | inl wanted ↦ rw wanted (length-crc_prefix _ config.record_crc_class _)
    | inr plain ↦ rw plain
  ]

  structured-bound :
      any_structured config ≡ true
      → AreBytes timestamp
      → AreBytes payload
      → length (encode_record_buffer config shard_id sequence level timestamp payload)
        ≤ buffer_size config shard_id sequence level timestamp payload
  unfolding buffer_size
  structured-bound structured ts_bytes bytes =
      let head = metadata config shard_id sequence level timestamp in
      let body = record_body config shard_id sequence level timestamp payload in
      rw
        (
          structured,
          encode_record_buffer_lem config shard_id sequence level timestamp payload ts_bytes bytes
              structured,
        )
        (omega (
          arith,
          length-append (record_prefix config head body payload) (body ++ b'\n' ∷ []),
          length-append body (b'\n' ∷ []),
          length-record_prefix,
          length-record_body,
          width-header_fields,
          if-step config.record_timestamp_enabled (3 + length timestamp),
          if-step config.record_shard_id_enabled (6 + decimal_length shard_id),
          if-step config.record_sequence_enabled (4 + decimal_length sequence),
          if-step config.record_level_enabled (6 + length (level_to_string level)),
        ))

  plain-bound :
      any_structured config ≡ false
      → AreBytes payload
      → length (encode_record_buffer config shard_id sequence level timestamp payload)
        ≤ buffer_size config shard_id sequence level timestamp payload
  unfolding buffer_size encode_record_buffer append_literal
  plain-bound plain bytes =
      rw (plain, append_sanitized_lem false start [] payload (omega arith) tt bytes)
        (omega (arith, length-append (sanitize payload) (b'\n' ∷ []), length-sanitize payload))

  -- A record is never longer than the buffer allocated for it, whatever is enabled, for a shard and a
  -- sequence number below 2 ^ 64.
  pub length-encode_record_buffer :
      AreBytes timestamp
      → AreBytes payload
      → length (encode_record_buffer config shard_id sequence level timestamp payload)
        ≤ buffer_size config shard_id sequence level timestamp payload
  length-encode_record_buffer ts_bytes bytes = elim (Bool-cases (any_structured config)) [
    | inl structured ↦ structured-bound structured ts_bytes bytes
    | inr plain ↦ plain-bound plain bytes
  ]
