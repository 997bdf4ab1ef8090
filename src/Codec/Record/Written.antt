-- ===== src/Codec/Record/Written.antt =====
-- What `encode_record_buffer` of src/record_codec.cc writes, in the shape that the readers look for.
use seastar_log_engine.Bits.{bit_xor-lt}
use seastar_log_engine.Prelude.{
  ℕ, ◌<◌, ◌≡◌, ◌≢◌, refl, ap, ◌∙◌, Bool, true, false, ◌||◌, ◌⊎◌, inl, inr, List, [], ◌∷◌, ◌++◌,
  append_assoc, arith, Bytes, codes, All, All-append, All-mono, to_decimal, if◌then◌else◌,
  u32_modulus,
}
use seastar_log_engine.Config.{
  EngineConfig, CrcClass, header, payload_hash, full, LogLevel, info, warn, error,
}
use seastar_log_engine.Codec.Crc.{crc32, crc32_update}
use seastar_log_engine.Codec.Crc.Slicing.{crc32_update-lt}
use seastar_log_engine.Codec.Crc.Word.{AreBytes}
use seastar_log_engine.Codec.Xxh.{xxh64}
use seastar_log_engine.Codec.Text.{hex_text, crc_prefix, level_to_string}
use seastar_log_engine.Codec.Text.Decimal.{IsDigit, to_decimal-IsDigit}
use seastar_log_engine.Codec.Text.Hex.{IsHexDigit, hex_text-IsHexDigit}
use seastar_log_engine.Codec.Encode.{
  crc_wanted, header_only, payload_hash_mode, any_structured, same_class, is_special,
}
use seastar_log_engine.Codec.Encode.Layout.{header_fields, hash_crc}
use seastar_log_engine.Codec.Encode.Join.{sanitize}
use seastar_log_engine.Codec.Encode.Record.{record_crc, record_hash, record_prefix}
use seastar_log_engine.Codec.Record.Find.{Lacks}
use seastar_log_engine.Codec.Record.Fields.{IsHeader}
use seastar_log_engine.Codec.Record.Verify.{full_line, header_line}
use seastar_log_engine.Codec.Record.Hash.{hash_line, hash_digits}

pub sanitize-Lacks : (payload : Bytes) → Lacks b'\t' (sanitize payload)
unfolding sanitize is_special
sanitize-Lacks [] = tt
sanitize-Lacks (c ∷ payload) = (ground arith, sanitize-Lacks payload)

pub to_decimal-Lacks : (n : ℕ) → Lacks b'\t' (to_decimal n)
to_decimal-Lacks n =
    All-mono IsDigit (λ b. b ≢ b'\t') (λ b h. omega (arith, h)) (to_decimal n)
      (to_decimal-IsDigit n)

level_to_string-Lacks : (level : LogLevel) → Lacks b'\t' (level_to_string level)
unfolding level_to_string
level_to_string-Lacks info = omega arith
level_to_string-Lacks warn = omega arith
level_to_string-Lacks error = omega arith

optional-IsHeader :
    (enabled : Bool) (f : Bytes) → IsHeader f → All IsHeader (if enabled then f ∷ [] else [])
optional-IsHeader true f h = (h, tt)
optional-IsHeader false f h = tt

IsHeader-append : (key value : Bytes) → IsHeader key → Lacks b'\t' value → IsHeader (key ++ value)
IsHeader-append [] value h k = absurd (omega (arith, h))
IsHeader-append (c ∷ key) value h k = (h.0, All-append (λ b. b ≢ b'\t') (c ∷ key) value h.1 k)

-- The first of four optional fields.
first-field :
    (a b c d : Bool) (f g h k : List ℕ)
    → (a || b || c || d) ≡ true
    → (x : Bytes) × (xs : List Bytes) × ((if a then f ∷ [] else [])
          ++ (if b then g ∷ [] else [])
          ++ (if c then h ∷ [] else [])
          ++ (if d then k ∷ [] else [])
        ≡ x ∷ xs)
first-field true b c d f g h k e = (f, _, refl)
first-field false true c d f g h k e = (g, _, refl)
first-field false false true d f g h k e = (h, _, refl)
first-field false false false true f g h k e = (k, _, refl)
first-field false false false false f g h k e = absurd (ground arith)

-- Whether a field is written in front of the payload.
unfoldable pub header_enabled : EngineConfig → Bool
header_enabled config =
    config.record_timestamp_enabled || config.record_shard_id_enabled
    || config.record_sequence_enabled || config.record_level_enabled

module _ (config : EngineConfig) (shard_id sequence : ℕ) (level : LogLevel)
    (timestamp : Bytes) where
  pub header_fields-IsHeader :
      Lacks b'\t' timestamp → All IsHeader (header_fields config shard_id sequence level timestamp)
  unfolding header_fields
  header_fields-IsHeader h =
      All-append IsHeader _ _
        (All-append IsHeader _ _
          (All-append IsHeader _ _
            (optional-IsHeader config.record_timestamp_enabled _
              (IsHeader-append (codes "ts=") timestamp (omega arith) h))
            (optional-IsHeader config.record_shard_id_enabled _
              (IsHeader-append (codes "shard=") _ (omega arith) (to_decimal-Lacks shard_id))))
          (optional-IsHeader config.record_sequence_enabled _
            (IsHeader-append (codes "seq=") _ (omega arith) (to_decimal-Lacks sequence))))
        (optional-IsHeader config.record_level_enabled _
          (IsHeader-append (codes "level=") _ (omega arith) (level_to_string-Lacks level)))

  pub header_fields-cons :
      header_enabled config ≡ true
      → (f : Bytes) × (fields : List Bytes) × (header_fields config shard_id sequence level
            timestamp
          ≡ f ∷ fields)
  unfolding header_fields header_enabled
  header_fields-cons h =
      first-field config.record_timestamp_enabled config.record_shard_id_enabled
        config.record_sequence_enabled config.record_level_enabled _ _ _ _ h

pub crc_class-cases :
    (c : CrcClass) → (c ≡ header) ⊎ ((c ≡ payload_hash) ⊎ ((c ≡ full) ⊎ (c ≡ CrcClass.none)))
crc_class-cases header = inl refl
crc_class-cases payload_hash = inr (inl refl)
crc_class-cases full = inr (inr (inl refl))
crc_class-cases CrcClass.none = inr (inr (inr refl))

module _ (config : EngineConfig) (head body payload : Bytes)
    (wanted : crc_wanted config ≡ true) where
  pub line-full :
      config.record_crc_class ≡ full
      → record_prefix config head body payload ++ body ≡ full_line (crc32 body) body
  unfolding record_prefix record_crc full_line crc_prefix header_only payload_hash_mode same_class
  line-full h =
      rw (wanted, h) (append_assoc (codes "crc=" ++ hex_text 8 (crc32 body)) (b'\t' ∷ []) body)

  pub crc-full : config.record_crc_class ≡ full → record_crc config head body payload ≡ crc32 body
  unfolding record_crc header_only payload_hash_mode same_class
  crc-full h = rw (wanted, h)

  pub crc-header :
      config.record_crc_class ≡ header → record_crc config head body payload ≡ crc32 head
  unfolding record_crc header_only payload_hash_mode same_class
  crc-header h = rw (wanted, h)

  pub crc-hash :
      config.record_crc_class ≡ payload_hash
      → record_crc config head body payload ≡ hash_crc head (xxh64 (sanitize payload))
  unfolding record_crc header_only payload_hash_mode same_class
  crc-hash h = rw (wanted, h)

  pub line-header :
      config.record_crc_class ≡ header
      → record_prefix config head body payload ++ body ≡ header_line (crc32 head) body
  unfolding record_prefix record_crc header_line crc_prefix header_only payload_hash_mode same_class
  line-header h =
      rw (wanted, h) (append_assoc (codes "crc=h:" ++ hex_text 8 (crc32 head)) (b'\t' ∷ []) body)

  pub line-hash :
      config.record_crc_class ≡ payload_hash
      → record_prefix config head body payload ++ body
        ≡ hash_line (hash_crc head (xxh64 (sanitize payload))) (xxh64 (sanitize payload)) body
  unfolding record_prefix record_crc record_hash hash_line hash_digits crc_prefix header_only
      payload_hash_mode same_class
  line-hash h =
      let hash = xxh64 (sanitize payload) in
      let crc = hex_text 8 (hash_crc head hash) in
      rw (wanted, h)
        (append_assoc (codes "crc=x:" ++ crc ++ codes ":" ++ hex_text 16 hash) (b'\t' ∷ []) body
          ∙ ap (λ r. codes "crc=x:" ++ r ++ b'\t' ∷ body)
              (append_assoc crc (codes ":") (hex_text 16 hash)))

pub any_structured-wanted :
    (config : EngineConfig) → crc_wanted config ≡ true → any_structured config ≡ true
unfolding any_structured
any_structured-wanted config wanted = rw wanted

hex_text-AreBytes : (n v : ℕ) → AreBytes (hex_text n v)
hex_text-AreBytes n v =
    All-mono IsHexDigit (λ b. b < 256) (λ b h. omega (arith, h)) (hex_text n v)
      (hex_text-IsHexDigit n v)

pub hash_crc-lt : (head : Bytes) (hash : ℕ) → AreBytes head → hash_crc head hash < u32_modulus
unfolding hash_crc
hash_crc-lt head hash h =
    bit_xor-lt 32 (crc32_update (crc32_update 0xffffffff head) (hex_text 16 hash)) 0xffffffff
      (crc32_update-lt (crc32_update 0xffffffff head) (hex_text 16 hash)
        (crc32_update-lt 0xffffffff head (omega arith) h) (hex_text-AreBytes 16 hash))
      (omega arith)
