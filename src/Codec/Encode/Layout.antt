-- ===== src/Codec/Encode/Layout.antt =====
-- What `encode_record_buffer` writes, in one piece: the prefix over the joined fields.
use Prim.Native.Nat.{bit_xor}
use seastar_log_engine.Prelude.{
  ℕ, ◌≡◌, refl, sym, ap, ◌∙◌, Bool, true, false, List, [], ◌∷◌, ◌++◌, append-nil, append_assoc,
  arith, Bytes, codes, if◌then◌else◌, All, All-append, All-mono, to_decimal,
}
use seastar_log_engine.Config.{EngineConfig, LogLevel, info, warn, error}
use seastar_log_engine.Codec.Text.Decimal.{IsDigit, to_decimal-IsDigit}
use seastar_log_engine.Codec.Crc.{crc32_update}
use seastar_log_engine.Codec.Crc.Slicing.{AreBytes-append}
use seastar_log_engine.Codec.Crc.Word.{AreBytes}
use seastar_log_engine.Codec.Text.{hex_text, level_to_string}
use seastar_log_engine.Codec.Encode.{
  append_literal, append_sanitized, append_field_prefix, append_field, crc_wanted, append_header,
  start,
}
use seastar_log_engine.Codec.Encode.Join.{
  sanitize, sanitize-AreBytes, Fits, append_literal-append, append_literal-Fits,
  append_sanitized_lem, join, cursor_at, cursor_at-Fits, cursor_at-nil, sep, sep-AreBytes, join-sep,
  opened, append_field_prefix_lem, append_field_lem,
}

-- The header's fields, each with its key.
unfoldable pub header_fields : EngineConfig → ℕ → ℕ → LogLevel → Bytes → List Bytes
header_fields config shard_id sequence level timestamp =
    (if config.record_timestamp_enabled then (codes "ts=" ++ timestamp) ∷ [] else [])
    ++ (if config.record_shard_id_enabled then (codes "shard=" ++ to_decimal shard_id) ∷ [] else [])
    ++ (if config.record_sequence_enabled then (codes "seq=" ++ to_decimal sequence) ∷ [] else [])
    ++ (if config.record_level_enabled then (codes "level=" ++ level_to_string level) ∷ [] else [])

-- A field that is written only if it is enabled.
append_optional :
    (enabled t : Bool) (fields : List Bytes) (key value : Bytes)
    → All AreBytes fields
    → AreBytes key
    → AreBytes value
    → (if enabled then append_field t (cursor_at t fields) key value else cursor_at t fields)
      ≡ cursor_at t (fields ++ (if enabled then (key ++ value) ∷ [] else []))
append_optional true t fields key value h hk hv = append_field_lem t fields key value h hk hv
append_optional false t fields key value h hk hv = ap (cursor_at t) (sym (append-nil fields))

optional-AreBytes :
    (enabled : Bool) (fields : List Bytes) (g : Bytes)
    → All AreBytes fields
    → AreBytes g
    → All AreBytes (fields ++ (if enabled then g ∷ [] else []))
optional-AreBytes true fields g h hg = All-append AreBytes fields (g ∷ []) h (hg, tt)
optional-AreBytes false fields g h hg = rw append-nil h

level_to_string-AreBytes : (level : LogLevel) → AreBytes (level_to_string level)
unfolding level_to_string
level_to_string-AreBytes info = omega arith
level_to_string-AreBytes warn = omega arith
level_to_string-AreBytes error = omega arith

to_decimal-AreBytes : (n : ℕ) → AreBytes (to_decimal n)
to_decimal-AreBytes n =
    All-mono IsDigit _ (λ c h. omega arith) (to_decimal n) (to_decimal-IsDigit n)

module _ (config : EngineConfig) (shard_id sequence : ℕ) (level : LogLevel) (timestamp : Bytes)
    (ts_bytes : AreBytes timestamp) where
  fields_1 : List Bytes
  fields_1 = if config.record_timestamp_enabled then (codes "ts=" ++ timestamp) ∷ [] else []

  fields_2 : List Bytes
  fields_2 =
      fields_1
      ++ (if config.record_shard_id_enabled
          then (codes "shard=" ++ to_decimal shard_id) ∷ []
          else [])

  fields_3 : List Bytes
  fields_3 =
      fields_2
      ++ (if config.record_sequence_enabled then (codes "seq=" ++ to_decimal sequence) ∷ [] else [])

  bytes_1 : All AreBytes fields_1
  unfolding fields_1
  bytes_1 =
      optional-AreBytes config.record_timestamp_enabled [] (codes "ts=" ++ timestamp) tt
        (AreBytes-append (codes "ts=") timestamp (omega arith) ts_bytes)

  bytes_2 : All AreBytes fields_2
  unfolding fields_2
  bytes_2 =
      optional-AreBytes config.record_shard_id_enabled fields_1
        (codes "shard=" ++ to_decimal shard_id) bytes_1
        (AreBytes-append (codes "shard=") (to_decimal shard_id) (omega arith)
          (to_decimal-AreBytes shard_id))

  bytes_3 : All AreBytes fields_3
  unfolding fields_3
  bytes_3 =
      optional-AreBytes config.record_sequence_enabled fields_2
        (codes "seq=" ++ to_decimal sequence) bytes_2
        (AreBytes-append (codes "seq=") (to_decimal sequence) (omega arith)
          (to_decimal-AreBytes sequence))

  pub header_fields-AreBytes : All AreBytes (header_fields config shard_id sequence level timestamp)
  unfolding header_fields fields_1 fields_2 fields_3
  header_fields-AreBytes =
      optional-AreBytes config.record_level_enabled fields_3
        (codes "level=" ++ level_to_string level) bytes_3
        (AreBytes-append (codes "level=") (level_to_string level) (omega arith)
          (level_to_string-AreBytes level))

  pub append_header_lem :
      append_header config shard_id sequence level timestamp start
      ≡ cursor_at (crc_wanted config) (header_fields config shard_id sequence level timestamp)
  unfolding append_header header_fields fields_1 fields_2 fields_3
  append_header_lem =
      let t = crc_wanted config in
      rw (
        ← cursor_at-nil t,
        append_optional config.record_timestamp_enabled t [] (codes "ts=") timestamp tt
            (omega arith) ts_bytes,
        append_optional config.record_shard_id_enabled t fields_1 (codes "shard=")
            (to_decimal shard_id) bytes_1 (omega arith) (to_decimal-AreBytes shard_id),
        append_optional config.record_sequence_enabled t fields_2 (codes "seq=")
            (to_decimal sequence) bytes_2 (omega arith) (to_decimal-AreBytes sequence),
        append_optional config.record_level_enabled t fields_3 (codes "level=")
            (level_to_string level) bytes_3 (omega arith) (level_to_string-AreBytes level),
      )

unfoldable pub payload_field : Bytes → Bytes
payload_field payload = codes "payload=" ++ sanitize payload

-- The record between the prefix and the line end.
unfoldable pub record_body : EngineConfig → ℕ → ℕ → LogLevel → Bytes → Bytes → Bytes
record_body config shard_id sequence level timestamp payload =
    join (header_fields config shard_id sequence level timestamp ++ payload_field payload ∷ [])

-- The header without the payload.
unfoldable pub metadata : EngineConfig → ℕ → ℕ → LogLevel → Bytes → Bytes
metadata config shard_id sequence level timestamp =
    join (header_fields config shard_id sequence level timestamp)

-- The checksum of a record with a payload hash: over the header, then over the hash in hexadecimal.
unfoldable pub hash_crc : Bytes → ℕ → ℕ
hash_crc head hash =
    bit_xor (crc32_update (crc32_update 0xffffffff head) (hex_text 16 hash)) 0xffffffff

opened-Fits : (t : Bool) (fields : List Bytes) → All AreBytes fields → Fits (opened t fields)
unfolding opened
opened-Fits t fields h = cursor_at-Fits t fields h

-- The cursor once the payload is written.
pub payload_lem :
    (t u : Bool) (fields : List Bytes) (payload : Bytes)
    → All AreBytes fields
    → AreBytes payload
    → append_sanitized u (append_field_prefix u (cursor_at t fields) (codes "payload=")) [] payload
      ≡ append_literal u (opened t fields) (sep fields ++ payload_field payload)
unfolding payload_field
payload_lem t u fields payload h hp =
    let key : Bytes = codes "payload=" in
    let begun : AreBytes (sep fields ++ key) =
      AreBytes-append (sep fields) key (sep-AreBytes fields) (omega arith) in
    ap (λ o. append_sanitized u o [] payload)
      (append_field_prefix_lem t u fields key h (omega arith))
    ∙ append_sanitized_lem u (append_literal u (opened t fields) (sep fields ++ key)) [] payload
        (append_literal-Fits u (opened t fields) (sep fields ++ key) (opened-Fits t fields h) begun)
        tt hp
    ∙ append_literal-append u (opened t fields) (sep fields ++ key) (sanitize payload)
        (opened-Fits t fields h) begun (sanitize-AreBytes payload hp)
    ∙ ap (append_literal u (opened t fields)) (append_assoc (sep fields) key (sanitize payload))

pub payload_text :
    (t u : Bool) (fields : List Bytes) (payload : Bytes)
    → (append_literal u (opened t fields) (sep fields ++ payload_field payload)).text
      ≡ join (fields ++ payload_field payload ∷ [])
unfolding append_literal opened cursor_at
payload_text t u fields payload = sym (join-sep fields (payload_field payload))

payload_crc :
    (t u : Bool) (fields : List Bytes) (payload : Bytes)
    → All AreBytes fields
    → AreBytes payload
    → (append_literal u (opened t fields) (sep fields ++ payload_field payload)).crc ≡ (
        if u
        then crc32_update (cursor_at t fields).crc (sep fields ++ payload_field payload)
        else (cursor_at t fields).crc)
unfolding append_literal opened
payload_crc t u fields payload h hp = refl
