-- ===== src/Codec/Record/RoundTrip/Bare.antt =====
-- A record with a checksum of the header class and no header field, in src/record_codec.cc.
use mathlib.Core.Path.{ap₂}
use seastar_log_engine.Prelude.{
  ℕ, ◌≡◌, ◌≢◌, refl, sym, ap, ◌∙◌, true, false, none, [], ◌∷◌, ◌++◌, arith, Bytes, codes,
  All-append, append_assoc, find_text, ◌==◌,
}
use seastar_log_engine.Config.{EngineConfig, header, LogLevel}
use seastar_log_engine.Codec.Crc.{crc32}
use seastar_log_engine.Codec.Crc.Slicing.{crc32-lt}
use seastar_log_engine.Codec.Crc.Word.{AreBytes}
use seastar_log_engine.Codec.Encode.{crc_wanted, encode_record_buffer}
use seastar_log_engine.Codec.Encode.Layout.{header_fields, metadata, record_body, payload_field}
use seastar_log_engine.Codec.Encode.Join.{sanitize, join}
use seastar_log_engine.Codec.Record.{verify_record_line, header_of_body}
use seastar_log_engine.Codec.Record.Find.{Lacks}
use seastar_log_engine.Codec.Record.Verify.{verify_record_line-header_line_of}
use seastar_log_engine.Codec.Record.Written.{
  header_enabled, sanitize-Lacks, line-header, any_structured-wanted,
}
use seastar_log_engine.Codec.Encode.Record.{record_prefix, encode_record_buffer_lem}

find_text-Lacks : (c : ℕ) (needle s : Bytes) → Lacks c s → find_text (c ∷ needle) s ≡ none
find_text-Lacks c needle [] h = refl
find_text-Lacks c needle (d ∷ s) h = ground (arith, h.0, find_text-Lacks c needle s h.1)

header_of_body-payload :
    (payload : Bytes) → header_of_body (payload_field payload) ≡ payload_field payload
unfolding payload_field header_of_body
header_of_body-payload payload = rw (
  header_of_body,
  find_text-Lacks b'\t' (codes "payload=") (codes "payload=" ++ sanitize payload) (
      All-append (λ b. b ≢ b'\t') (codes "payload=") (sanitize payload) (omega arith)
        (sanitize-Lacks payload)),
)

module _ (config : EngineConfig) (shard_id sequence : ℕ) (level : LogLevel)
    (timestamp payload : Bytes) (ts_bytes : AreBytes timestamp) (bytes : AreBytes payload)
    (wanted : crc_wanted config ≡ true) (class : config.record_crc_class ≡ header)
    (bare : header_enabled config ≡ false) where
  header_fields-nil : header_fields config shard_id sequence level timestamp ≡ []
  unfolding header_fields header_enabled
  header_fields-nil = ground (arith, bare)

  body-bare : record_body config shard_id sequence level timestamp payload ≡ payload_field payload
  unfolding record_body join
  body-bare = rw header_fields-nil

  head-bare : metadata config shard_id sequence level timestamp ≡ []
  unfolding metadata join
  head-bare = rw header_fields-nil

  -- A record of the header class with no header field is accepted only if the checksum of its
  -- payload field happens to be that of no bytes.
  pub verify_record_line-bare :
      (line : Bytes) × (encode_record_buffer config shard_id sequence level timestamp payload
        ≡ line ++ b'\n' ∷ [])
      × (verify_record_line line ≡ (crc32 [] == crc32 (payload_field payload)))
  verify_record_line-bare = (
    record_prefix config [] (payload_field payload) payload ++ payload_field payload,
    encode_record_buffer_lem config shard_id sequence level timestamp payload ts_bytes bytes
          (any_structured-wanted config wanted)
        ∙ ap₂ (λ head body. record_prefix config head body payload ++ (body ++ b'\n' ∷ []))
            head-bare body-bare
        ∙ sym (
            append_assoc (record_prefix config [] (payload_field payload) payload)
              (payload_field payload) (b'\n' ∷ [])),
    ap verify_record_line (line-header config [] (payload_field payload) payload wanted class)
        ∙ verify_record_line-header_line_of (crc32 []) (payload_field payload) (crc32-lt [] tt)
        ∙ ap (λ b. crc32 [] == crc32 b) (header_of_body-payload payload),
  )
