-- ===== src/Codec/Record/RoundTrip.antt =====
-- What `encode_record_buffer` writes is accepted by `verify_record_line`, in src/record_codec.cc.
pub mod Bare
pub mod Parse
use mathlib.Core.Path.{subst}
use Prim.Native.Nat.{bit_xor}
use seastar_log_engine.Bits.{bit_xor_cancel, bit_xor-lt}
use seastar_log_engine.Prelude.{
  ℕ, suc, ◌+◌, ◌≤◌, ◌<◌, ◌^◌, ◌≡◌, ◌≢◌, refl, sym, ap, ◌∙◌, Bool, true, false, ◌||◌, Bool-cases,
  ◌⊎◌, inl, inr, Option, none, some, List, [], ◌∷◌, ◌++◌, append_assoc, append-nil, arith, Bytes,
  codes, length, All, All-append, All-mono, to_decimal, find_text, starts_with, ◌==◌, if◌then◌else◌,
  u32_modulus, u64_modulus,
}
use seastar_log_engine.Config.{
  EngineConfig, CrcClass, header, payload_hash, full, LogLevel, info, warn, error,
}
use seastar_log_engine.Codec.Crc.{crc32, crc32_update}
use seastar_log_engine.Codec.Crc.Slicing.{crc32-lt, crc32_update-lt}
use seastar_log_engine.Codec.Crc.Word.{AreBytes}
use seastar_log_engine.Codec.Xxh.{xxh64}
use seastar_log_engine.Codec.Text.{hex_text, crc_prefix, level_to_string}
use seastar_log_engine.Codec.Text.Decimal.{IsDigit, to_decimal-IsDigit}
use seastar_log_engine.Codec.Text.Hex.{IsHexDigit, hex_text-IsHexDigit}
use seastar_log_engine.Codec.Encode.{
  crc_wanted, header_only, payload_hash_mode, any_structured, same_class, is_special,
  encode_record_buffer,
}
use seastar_log_engine.Codec.Encode.Layout.{
  header_fields, header_fields-AreBytes, metadata, record_body, payload_field, hash_crc,
}
use seastar_log_engine.Codec.Encode.Join.{sanitize, join, join-AreBytes}
use seastar_log_engine.Codec.Encode.Record.{
  record_crc, record_hash, record_prefix, encode_record_buffer_lem, payload_field-AreBytes,
}
use seastar_log_engine.Codec.Record.{
  parse_record_line, parse_fields, verify_record_line, hash_record_crc, header_of_body,
  split_payload_field,
}
use seastar_log_engine.Codec.Record.Find.{Lacks}
use seastar_log_engine.Codec.Record.Fields.{IsHeader, header_of_body-join, split_payload_field-join}
use seastar_log_engine.Codec.Record.Verify.{
  parse_record_line-full_line, parse_record_line-header_line, full_line, header_line,
  verify_record_line-full_line, verify_record_line-header_line,
}
use seastar_log_engine.Codec.Record.Hash.{
  parse_record_line-hash_line, hash_line, hash_digits, verify_record_line-hash_line,
}
use seastar_log_engine.Codec.Record.Written.{
  header_enabled, header_fields-IsHeader, header_fields-cons, crc_class-cases, line-full, crc-full,
  crc-header, crc-hash, line-header, line-hash, any_structured-wanted, hash_crc-lt,
}

module _ (config : EngineConfig) (shard_id sequence : ℕ) (level : LogLevel)
    (timestamp payload : Bytes) (no_tab : Lacks b'\t' timestamp) (ts_bytes : AreBytes timestamp)
    (bytes : AreBytes payload) (wanted : crc_wanted config ≡ true) where
  unfoldable pub written_head : Bytes
  written_head = metadata config shard_id sequence level timestamp

  unfoldable pub written_body : Bytes
  written_body = record_body config shard_id sequence level timestamp payload

  written_head-AreBytes : AreBytes written_head
  unfolding written_head metadata
  written_head-AreBytes =
      join-AreBytes (header_fields config shard_id sequence level timestamp)
        (header_fields-AreBytes config shard_id sequence level timestamp ts_bytes)

  written_body-AreBytes : AreBytes written_body
  unfolding written_body record_body
  written_body-AreBytes = join-AreBytes _ (
      All-append AreBytes (header_fields config shard_id sequence level timestamp)
        (payload_field payload ∷ [])
        (header_fields-AreBytes config shard_id sequence level timestamp ts_bytes)
        (payload_field-AreBytes payload bytes, tt))

  verify-full :
      config.record_crc_class ≡ full
      → verify_record_line (record_prefix config written_head written_body payload ++ written_body)
        ≡ true
  verify-full h =
      ap verify_record_line (line-full config written_head written_body payload wanted h)
      ∙ verify_record_line-full_line written_body written_body-AreBytes

  -- The record is parsed to the fields of its body, with the checksum of its prefix.
  IsParsed : Type 0
  IsParsed =
      parse_record_line (record_prefix config written_head written_body payload ++ written_body)
      ≡ parse_fields (record_prefix config written_head written_body payload ++ written_body)
          (some (record_crc config written_head written_body payload)) written_body

  parsed :
      (text : Bytes) (crc : ℕ)
      → record_prefix config written_head written_body payload ++ written_body ≡ text
      → record_crc config written_head written_body payload ≡ crc
      → parse_record_line text ≡ parse_fields text (some crc) written_body
      → IsParsed
  unfolding IsParsed
  parsed text crc e k h = rw (e, k) h

  parse-full : config.record_crc_class ≡ full → IsParsed
  parse-full h =
      parsed _ _ (line-full config written_head written_body payload wanted h)
        (crc-full config written_head written_body payload wanted h)
        (parse_record_line-full_line written_body written_body-AreBytes)

  split : split_payload_field written_body ≡ some (written_head, sanitize payload)
  unfolding written_body record_body written_head metadata payload_field
  split =
      split_payload_field-join (header_fields config shard_id sequence level timestamp)
        (sanitize payload) (header_fields-IsHeader config shard_id sequence level timestamp no_tab)

  verify-hash :
      config.record_crc_class ≡ payload_hash
      → verify_record_line (record_prefix config written_head written_body payload ++ written_body)
        ≡ true
  verify-hash h =
      ap verify_record_line (line-hash config written_head written_body payload wanted h)
      ∙ verify_record_line-hash_line written_head (sanitize payload) written_body split
          (hash_crc-lt written_head _ written_head-AreBytes)

  parse-hash : config.record_crc_class ≡ payload_hash → IsParsed
  parse-hash h =
      parsed _ _ (line-hash config written_head written_body payload wanted h)
        (crc-hash config written_head written_body payload wanted h)
        (parse_record_line-hash_line written_head (sanitize payload) written_body split
          (hash_crc-lt written_head _ written_head-AreBytes))

  header_of_body-record : header_enabled config ≡ true → header_of_body written_body ≡ written_head
  unfolding written_body record_body written_head metadata payload_field
  header_of_body-record enabled =
      let (f, fields, e) = header_fields-cons config shard_id sequence level timestamp enabled in
      let tokens : All IsHeader (f ∷ fields) =
        subst (All IsHeader) e
          (header_fields-IsHeader config shard_id sequence level timestamp no_tab) in
      rw e (header_of_body-join f fields (sanitize payload) tokens)

  verify-header :
      header_enabled config ≡ true
      → config.record_crc_class ≡ header
      → verify_record_line (record_prefix config written_head written_body payload ++ written_body)
        ≡ true
  verify-header enabled h =
      ap verify_record_line (line-header config written_head written_body payload wanted h)
      ∙ verify_record_line-header_line written_head written_body
          (crc32-lt written_head written_head-AreBytes) (header_of_body-record enabled)

  parse-header : header_enabled config ≡ true → config.record_crc_class ≡ header → IsParsed
  parse-header enabled h =
      parsed _ _ (line-header config written_head written_body payload wanted h)
        (crc-header config written_head written_body payload wanted h)
        (parse_record_line-header_line written_head written_body
          (crc32-lt written_head written_head-AreBytes) (header_of_body-record enabled))

  verify-none : config.record_crc_class ≡ CrcClass.none → ⊥
  unfolding crc_wanted same_class
  verify-none h = ground (arith, h, wanted)

  field-enabled :
      config.record_crc_class ≢ header ⊎ header_enabled config ≡ true
      → config.record_crc_class ≡ header
      → header_enabled config ≡ true
  field-enabled (inl other) h = absurd (other h)
  field-enabled (inr enabled) h = enabled

  pub parse_record_line-written :
      config.record_crc_class ≢ header ⊎ header_enabled config ≡ true
      → parse_record_line (record_prefix config written_head written_body payload ++ written_body)
        ≡ parse_fields
            (record_prefix config written_head written_body payload ++ written_body)
            (some (record_crc config written_head written_body payload))
            written_body
  unfolding IsParsed
  parse_record_line-written some_field = elim (crc_class-cases config.record_crc_class) [
    | inl h ↦ parse-header (field-enabled some_field h) h
    | inr (inl h) ↦ parse-hash h
    | inr (inr (inl h)) ↦ parse-full h
    | inr (inr (inr h)) ↦ absurd (verify-none h)
  ]

  pub verify_record_line-written :
      config.record_crc_class ≢ header ⊎ header_enabled config ≡ true
      → verify_record_line (record_prefix config written_head written_body payload ++ written_body)
        ≡ true
  verify_record_line-written some_field = elim (crc_class-cases config.record_crc_class) [
    | inl h ↦ verify-header (field-enabled some_field h) h
    | inr (inl h) ↦ verify-hash h
    | inr (inr (inl h)) ↦ verify-full h
    | inr (inr (inr h)) ↦ absurd (verify-none h)
  ]

  -- An encoded record without its line end is accepted by the test of its checksum in each of the
  -- three classes, if the timestamp holds no tab and a record of the header class has some header
  -- field.
  pub verify_record_line-encode_record_buffer :
      config.record_crc_class ≢ header ⊎ header_enabled config ≡ true
      → (line : Bytes) × (encode_record_buffer config shard_id sequence level timestamp payload
          ≡ line ++ b'\n' ∷ [])
        × (verify_record_line line ≡ true)
  unfolding written_head written_body
  verify_record_line-encode_record_buffer some_field = (
    record_prefix config written_head written_body payload ++ written_body,
    encode_record_buffer_lem config shard_id sequence level timestamp payload ts_bytes bytes
          (any_structured-wanted config wanted)
        ∙ sym (
            append_assoc (record_prefix config written_head written_body payload) written_body
              (b'\n' ∷ [])),
    verify_record_line-written some_field,
  )
