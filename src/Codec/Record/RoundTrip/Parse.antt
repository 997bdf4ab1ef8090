-- ===== src/Codec/Record/RoundTrip/Parse.antt =====
-- `parse_record_line` and `extract_sequence` of src/record_codec.cc on the records that
-- `encode_record_buffer` writes: every field is read back.
use seastar_log_engine.Prelude.{
  ℕ, ◌<◌, ◌≡◌, ◌≢◌, refl, sym, ◌∙◌, Bool, true, false, ◌⊎◌, Option, none, some, List, [], ◌∷◌, ◌++◌,
  arith, Bytes, codes, append_assoc, if◌then◌else◌, to_decimal, parse_whole, u32_modulus,
  u64_modulus,
}
use seastar_log_engine.Config.{EngineConfig, header, LogLevel, info, warn, error}
use seastar_log_engine.Codec.Crc.Word.{AreBytes}
use seastar_log_engine.Codec.Text.{level_to_string}
use seastar_log_engine.Codec.Text.Decimal.{parse_whole-to_decimal}
use seastar_log_engine.Codec.Encode.{crc_wanted, encode_record_buffer}
use seastar_log_engine.Codec.Encode.Layout.{header_fields, metadata, record_body, payload_field}
use seastar_log_engine.Codec.Encode.Join.{sanitize}
use seastar_log_engine.Codec.Record.{
  ParsedRecord, parse_record_line, parse_fields, parse_level, optional_field, value_or, is_some,
  extract_field, populate_agent_metadata,
}
use seastar_log_engine.Codec.Record.Find.{Lacks}
use seastar_log_engine.Codec.Record.Fields.{find_field, extract_field-join_last, IsHeader-find}
use seastar_log_engine.Codec.Record.RoundTrip.{
  parse_record_line-written, written_head, written_body,
}
use seastar_log_engine.Codec.Record.Written.{
  header_enabled, header_fields-IsHeader, sanitize-Lacks, any_structured-wanted,
}
use seastar_log_engine.Codec.Encode.Record.{record_crc, record_prefix, encode_record_buffer_lem}

-- Four optional fields and a last one: what each key finds.
module _ (t s q l p : List ℕ) where
  optional_fields : Bool → Bool → Bool → Bool → List (List ℕ)
  optional_fields a b c d =
      (if a then (codes "ts=" ++ t) ∷ [] else [])
      ++ (if b then (codes "shard=" ++ s) ∷ [] else [])
      ++ (if c then (codes "seq=" ++ q) ∷ [] else [])
      ++ (if d then (codes "level=" ++ l) ∷ [] else [])
      ++ (codes "payload=" ++ p) ∷ []

  find_field-optional :
      (a b c d : Bool)
      → let fields = optional_fields a b c d in
        (find_field (codes "ts=") fields ≡ (if a then some t else none))
        × (find_field (codes "shard=") fields ≡ (if b then some s else none))
        × (find_field (codes "seq=") fields ≡ (if c then some q else none))
        × (find_field (codes "level=") fields ≡ (if d then some l else none))
        × (find_field (codes "payload=") fields ≡ some p)
  unfolding optional_fields find_field
  find_field-optional true true true true = (refl, refl, refl, refl, refl)
  find_field-optional true true true false = (refl, refl, refl, refl, refl)
  find_field-optional true true false true = (refl, refl, refl, refl, refl)
  find_field-optional true true false false = (refl, refl, refl, refl, refl)
  find_field-optional true false true true = (refl, refl, refl, refl, refl)
  find_field-optional true false true false = (refl, refl, refl, refl, refl)
  find_field-optional true false false true = (refl, refl, refl, refl, refl)
  find_field-optional true false false false = (refl, refl, refl, refl, refl)
  find_field-optional false true true true = (refl, refl, refl, refl, refl)
  find_field-optional false true true false = (refl, refl, refl, refl, refl)
  find_field-optional false true false true = (refl, refl, refl, refl, refl)
  find_field-optional false true false false = (refl, refl, refl, refl, refl)
  find_field-optional false false true true = (refl, refl, refl, refl, refl)
  find_field-optional false false true false = (refl, refl, refl, refl, refl)
  find_field-optional false false false true = (refl, refl, refl, refl, refl)
  find_field-optional false false false false = (refl, refl, refl, refl, refl)

parse_level-level_to_string : (level : LogLevel) → parse_level (level_to_string level) ≡ some level
unfolding parse_level level_to_string
parse_level-level_to_string info = refl
parse_level-level_to_string warn = refl
parse_level-level_to_string error = refl

optional_field-if {ℓ} :
    {A : Type ℓ} (parse : Bytes → Option A) (enabled : Bool) (text : Bytes) (a : A)
    → parse text ≡ some a
    → optional_field parse (if enabled then some text else none)
      ≡ some (if enabled then some a else none)
unfolding optional_field
optional_field-if parse true text a h = rw h
optional_field-if parse false text a h = refl

value_or-if {ℓ} :
    {A : Type ℓ} (enabled : Bool) (a d : A)
    → value_or d (if enabled then some a else none) ≡ (if enabled then a else d)
unfolding value_or
value_or-if true a d = refl
value_or-if false a d = refl

value_or-some {ℓ} : {A : Type ℓ} (d a : A) → value_or d (some a) ≡ a
unfolding value_or
value_or-some d a = refl

is_some-if {ℓ} :
    {A : Type ℓ} (enabled : Bool) (a : A) → is_some (if enabled then some a else none) ≡ enabled
unfolding is_some
is_some-if true a = refl
is_some-if false a = refl

-- What is read back of a record: each enabled field, and the defaults for the others.
pub read_back : EngineConfig → ℕ → ℕ → LogLevel → Bytes → Bytes → Bytes → Option ℕ → ParsedRecord
read_back config shard_id sequence level timestamp payload line crc = record {
  crc = value_or 0 crc;
  timestamp = if config.record_timestamp_enabled then timestamp else [];
  shard = if config.record_shard_id_enabled then shard_id else 0;
  has_sequence = config.record_sequence_enabled;
  sequence = if config.record_sequence_enabled then sequence else 0;
  level = if config.record_level_enabled then level else info;
  payload = sanitize payload;
  raw_line = line;
  agent_id = [];
  source_id = [];
  source_offset = none;
  ingest_timestamp = [];
  attributes = [];
}

-- The checksum in the record's prefix.
pub written_crc : EngineConfig → ℕ → ℕ → LogLevel → Bytes → Bytes → ℕ
written_crc config shard_id sequence level timestamp payload =
    record_crc config (metadata config shard_id sequence level timestamp)
      (record_body config shard_id sequence level timestamp payload) payload

module _ (config : EngineConfig) (shard_id sequence : ℕ) (level : LogLevel)
    (timestamp payload : Bytes) (no_tab : Lacks b'\t' timestamp) (small : shard_id < u32_modulus)
    (long : sequence < u64_modulus) where
  body : Bytes
  body = record_body config shard_id sequence level timestamp payload

  extract_field-record :
      (key : Bytes)
      → extract_field body key
        ≡ find_field key (
            optional_fields timestamp
              (to_decimal shard_id)
              (to_decimal sequence)
              (level_to_string level)
              (sanitize payload)
              config.record_timestamp_enabled
              config.record_shard_id_enabled
              config.record_sequence_enabled
              config.record_level_enabled)
  unfolding body record_body header_fields payload_field optional_fields
  extract_field-record key =
      extract_field-join_last key (header_fields config shard_id sequence level timestamp)
        (codes "payload=" ++ sanitize payload)
        (IsHeader-find (header_fields config shard_id sequence level timestamp) (sanitize payload)
          (header_fields-IsHeader config shard_id sequence level timestamp no_tab)
          (sanitize-Lacks payload))

  fields-found :
      (extract_field body (codes "ts=")
        ≡ (if config.record_timestamp_enabled then some timestamp else none))
      × (extract_field body (codes "shard=")
          ≡ (if config.record_shard_id_enabled then some (to_decimal shard_id) else none))
      × (extract_field body (codes "seq=")
          ≡ (if config.record_sequence_enabled then some (to_decimal sequence) else none))
      × (extract_field body (codes "level=")
          ≡ (if config.record_level_enabled then some (level_to_string level) else none))
      × (extract_field body (codes "payload=") ≡ some (sanitize payload))
  fields-found =
      let (ts, shard, seq, lev, load) =
        find_field-optional timestamp (to_decimal shard_id) (to_decimal sequence)
          (level_to_string level) (sanitize payload) config.record_timestamp_enabled
          config.record_shard_id_enabled config.record_sequence_enabled
          config.record_level_enabled in
      (
        extract_field-record (codes "ts=") ∙ ts,
        extract_field-record (codes "shard=") ∙ shard,
        extract_field-record (codes "seq=") ∙ seq,
        extract_field-record (codes "level=") ∙ lev,
        extract_field-record (codes "payload=") ∙ load,
      )

  parse_fields-record :
      (line : Bytes) (crc : Option ℕ)
      → parse_fields line crc body
        ≡ some (
            populate_agent_metadata
              (read_back config shard_id sequence level timestamp payload line crc))
  unfolding parse_fields read_back
  parse_fields-record line crc =
      let (ts, shard, seq, lev, load) = fields-found in
      rw (
        shard,
        seq,
        lev,
        ts,
        load,
        optional_field-if (parse_whole 10 u32_modulus) config.record_shard_id_enabled
            (to_decimal shard_id) shard_id
            (parse_whole-to_decimal u32_modulus shard_id small (omega (arith, small))),
        optional_field-if (parse_whole 10 u64_modulus) config.record_sequence_enabled
            (to_decimal sequence) sequence (parse_whole-to_decimal u64_modulus sequence long long),
        optional_field-if parse_level config.record_level_enabled (level_to_string level) level
            (parse_level-level_to_string level),
        value_or-if config.record_timestamp_enabled timestamp [],
        value_or-if config.record_shard_id_enabled shard_id 0,
        value_or-if config.record_sequence_enabled sequence 0,
        value_or-if config.record_level_enabled level info,
        value_or-some body (sanitize payload),
        is_some-if config.record_sequence_enabled sequence,
      )

  -- An encoded record with a checksum is parsed, without its line end, to its fields: those that are
  -- enabled as they were written, defaults for the others, the payload with a space for each tab and
  -- line end, the checksum of the prefix, and then what the payload tells of an agent. The timestamp
  -- holds no tab, the numbers fit their types, and a record of the header class has some header field.
  pub parse_record_line-encode_record_buffer :
      AreBytes timestamp
      → AreBytes payload
      → crc_wanted config ≡ true
      → config.record_crc_class ≢ header ⊎ header_enabled config ≡ true
      → (line : Bytes) × (encode_record_buffer config shard_id sequence level timestamp payload
          ≡ line ++ b'\n' ∷ [])
        × (parse_record_line line
            ≡ some (
                populate_agent_metadata (
                  read_back config shard_id sequence level timestamp payload line
                    (some (written_crc config shard_id sequence level timestamp payload)))))
  unfolding body written_crc written_head written_body
  parse_record_line-encode_record_buffer ts_bytes bytes wanted some_field =
      let head = metadata config shard_id sequence level timestamp in
      let line = record_prefix config head body payload ++ body in
      (
        line,
        encode_record_buffer_lem config shard_id sequence level timestamp payload ts_bytes bytes
              (any_structured-wanted config wanted)
            ∙ sym (append_assoc (record_prefix config head body payload) body (b'\n' ∷ [])),
        parse_record_line-written config shard_id sequence level timestamp payload no_tab ts_bytes
              bytes wanted some_field
            ∙ parse_fields-record line (some (record_crc config head body payload)),
      )
