-- ===== src/Codec/Encode/Record.antt =====
-- The whole record that `encode_record_buffer` writes.
use Prim.Native.Nat.{bit_xor}
use seastar_log_engine.Prelude.{
  ℕ, ◌≡◌, sym, ap, ◌∙◌, Bool-cases, inl, inr, true, false, List, [], ◌∷◌, ◌++◌, append_assoc, arith,
  Bytes, codes, length, drop, drop-length-append, if◌then◌else◌, All,
}
use seastar_log_engine.Config.{EngineConfig, LogLevel}
use seastar_log_engine.Codec.Crc.{crc32_update, crc32}
use seastar_log_engine.Codec.Crc.Slicing.{crc32_update-append, AreBytes-append}
use seastar_log_engine.Codec.Crc.Word.{AreBytes}
use seastar_log_engine.Codec.Xxh.{xxh64}
use seastar_log_engine.Codec.Text.{hex_text, crc_prefix}
use seastar_log_engine.Codec.Encode.{
  Cursor, append_literal, append_field_prefix, crc_wanted, header_only, payload_hash_mode,
  any_structured, payload_tracked, finish_record, encode_record_buffer,
}
use seastar_log_engine.Codec.Encode.Layout.{
  header_fields, header_fields-AreBytes, append_header_lem, payload_field, payload_lem,
  payload_text, metadata, record_body, hash_crc,
}
use seastar_log_engine.Codec.Encode.Join.{
  sanitize, sanitize-AreBytes, join, sep, sep-AreBytes, join-sep, join-AreBytes, cursor_at, opened,
  append_field_prefix_lem,
}

-- The hash in the prefix: that of the written payload, or 0 where there is none.
unfoldable pub record_hash : EngineConfig → Bytes → ℕ
record_hash config payload = if payload_hash_mode config then xxh64 (sanitize payload) else 0

-- The checksum in the prefix.
unfoldable pub record_crc : EngineConfig → Bytes → Bytes → Bytes → ℕ
record_crc config head body payload =
    if payload_hash_mode config
    then hash_crc head (xxh64 (sanitize payload))
    else if header_only config
    then crc32 head
    else crc32 body

payload_tracked-wanted :
    (config : EngineConfig) → payload_tracked config ≡ true → crc_wanted config ≡ true
unfolding payload_tracked
payload_tracked-wanted config h = ground arith

payload_tracked-hashed :
    (config : EngineConfig) → payload_hash_mode config ≡ true → payload_tracked config ≡ false
unfolding payload_tracked
payload_tracked-hashed config h = ground arith

payload_tracked-header :
    (config : EngineConfig) → header_only config ≡ true → payload_tracked config ≡ false
unfolding payload_tracked
payload_tracked-header config h = ground arith

payload_tracked-full :
    (config : EngineConfig)
    → payload_hash_mode config ≡ false
    → header_only config ≡ false
    → crc_wanted config ≡ true
    → payload_tracked config ≡ true
unfolding payload_tracked
payload_tracked-full config h k w = ground arith

pub payload_field-AreBytes : (p : Bytes) → AreBytes p → AreBytes (payload_field p)
unfolding payload_field
payload_field-AreBytes p h =
    AreBytes-append (codes "payload=") (sanitize p) (omega arith) (sanitize-AreBytes p h)

module _ (config : EngineConfig) (fields : List Bytes) (payload : Bytes) (h : All AreBytes fields)
    (hp : AreBytes payload) where
  written : Cursor
  written =
      append_literal (payload_tracked config) (opened (crc_wanted config) fields)
        (sep fields ++ payload_field payload)

  written-text : written.text ≡ join (fields ++ payload_field payload ∷ [])
  unfolding written
  written-text = payload_text (crc_wanted config) (payload_tracked config) fields payload

  keyed-text :
      (append_field_prefix
        (payload_tracked config)
        (cursor_at (crc_wanted config) fields)
        (codes "payload=")).text
      ≡ join fields ++ (sep fields ++ codes "payload=")
  unfolding append_literal opened cursor_at
  keyed-text =
      ap (λ (o : Cursor). o.text)
        (append_field_prefix_lem (crc_wanted config) (payload_tracked config) fields
          (codes "payload=") h (omega arith))

  written-drop :
      drop
        (length
          (append_field_prefix
            (payload_tracked config)
            (cursor_at (crc_wanted config) fields)
            (codes "payload=")).text)
        written.text
      ≡ sanitize payload
  unfolding payload_field
  written-drop =
      let key : Bytes = codes "payload=" in
      let front = join fields ++ (sep fields ++ key) in
      let split : written.text ≡ front ++ sanitize payload =
        written-text
        ∙ join-sep fields (key ++ sanitize payload)
        ∙ ap (◌++◌ (join fields)) (sym (append_assoc (sep fields) key (sanitize payload)))
        ∙ sym (append_assoc (join fields) (sep fields ++ key) (sanitize payload)) in
      rw (keyed-text, split) (drop-length-append front (sanitize payload))

  written-crc_tracked :
      payload_tracked config ≡ true
      → written.crc ≡ crc32_update 0xffffffff (join (fields ++ payload_field payload ∷ []))
  unfolding written append_literal opened cursor_at
  written-crc_tracked e =
      rw (e, payload_tracked-wanted config e, join-sep fields (payload_field payload))
        (sym (
          crc32_update-append 0xffffffff (join fields) (sep fields ++ payload_field payload)
            (omega arith) (join-AreBytes fields h)
            (AreBytes-append (sep fields) (payload_field payload) (sep-AreBytes fields)
              (payload_field-AreBytes payload hp))))

  written-crc_untracked :
      payload_tracked config ≡ false
      → crc_wanted config ≡ true
      → written.crc ≡ crc32_update 0xffffffff (join fields)
  unfolding written append_literal opened cursor_at
  written-crc_untracked e f = rw (e, f)

  -- The checksum that goes into the prefix.
  written-record_crc :
      crc_wanted config ≡ true
      → bit_xor
          (if payload_hash_mode config
            then crc32_update written.crc (hex_text 16 (record_hash config payload))
            else written.crc)
          0xffffffff
        ≡ record_crc config (join fields) (join (fields ++ payload_field payload ∷ [])) payload
  unfolding record_crc record_hash hash_crc crc32
  written-record_crc wanted = elim (Bool-cases (payload_hash_mode config)) [
    | inl hashed ↦ rw (hashed, written-crc_untracked (payload_tracked-hashed config hashed) wanted)
    | inr plain ↦ elim (Bool-cases (header_only config)) [
      | inl head ↦
          rw (plain, head, written-crc_untracked (payload_tracked-header config head) wanted)
      | inr whole ↦
          rw (plain, whole, written-crc_tracked (payload_tracked-full config plain whole wanted))
    ]
  ]

  -- The prefix, the body and the line end.
  finish-written :
      finish_record config
        (length
          (append_field_prefix
            (payload_tracked config)
            (cursor_at (crc_wanted config) fields)
            (codes "payload=")).text)
        written
      ≡ (if crc_wanted config
          then crc_prefix
              (record_crc config
                (join fields)
                (join (fields ++ payload_field payload ∷ []))
                payload)
              config.record_crc_class
              (record_hash config payload)
          else [])
        ++ (join (fields ++ payload_field payload ∷ []) ++ b'\n' ∷ [])
  unfolding finish_record record_hash
  finish-written = elim (Bool-cases (crc_wanted config)) [
    | inl wanted ↦
        rw (written-drop, written-text, wanted)
          (ap
              (λ crc.
                crc_prefix crc config.record_crc_class (record_hash config payload)
                ++ join (fields ++ payload_field payload ∷ [])
                ++ b'\n' ∷ [])
              (written-record_crc wanted)
            ∙ append_assoc _ (join (fields ++ payload_field payload ∷ [])) (b'\n' ∷ []))
    | inr plain ↦ rw (written-text, plain)
  ]

-- The prefix of a record, empty where no checksum is wanted.
unfoldable pub record_prefix : EngineConfig → Bytes → Bytes → Bytes → Bytes
record_prefix config head body payload =
    if crc_wanted config
    then crc_prefix (record_crc config head body payload) config.record_crc_class
        (record_hash config payload)
    else []

-- A record with at least one field beside the payload is its prefix, the fields joined by tabs with
-- the payload last, and a line end. The checksum in the prefix, which the code computes along the
-- way, is that of the whole body, of the fields in front of the payload, or of those and the
-- payload's hash, as the configured class says.
pub encode_record_buffer_lem :
    (config : EngineConfig) (shard_id sequence : ℕ) (level : LogLevel) (timestamp payload : Bytes)
    → AreBytes timestamp
    → AreBytes payload
    → any_structured config ≡ true
    → let head = metadata config shard_id sequence level timestamp in
      let body = record_body config shard_id sequence level timestamp payload in
      encode_record_buffer config shard_id sequence level timestamp payload
      ≡ record_prefix config head body payload ++ (body ++ b'\n' ∷ [])
unfolding encode_record_buffer metadata record_body record_prefix
encode_record_buffer_lem config shard_id sequence level timestamp payload hts hp structured =
    let fields = header_fields config shard_id sequence level timestamp in
    let h = header_fields-AreBytes config shard_id sequence level timestamp hts in
    rw
      (
        structured,
        append_header_lem config shard_id sequence level timestamp hts,
        payload_lem (crc_wanted config) (payload_tracked config) fields payload h hp,
      )
      (unfold written in finish-written config fields payload h hp)
