-- ===== src/Codec/Scan/Written.antt =====
-- Scanning what `encode_record_buffer` of src/record_codec.cc writes, with a torn record behind it.
use seastar_log_engine.Prelude.{
  ℕ, ◌≡◌, ◌≢◌, refl, sym, ap, ◌∙◌, ◌⊎◌, inl, inr, Bool, true, false, Bool-cases, List, [], ◌∷◌,
  ◌++◌, map, append_assoc, arith, Bytes, codes, length, is_empty, All, All-append, All-mono,
  if◌then◌else◌, to_decimal,
}
use seastar_log_engine.Config.{
  EngineConfig, CrcClass, header, payload_hash, full, LogLevel, info, warn, error,
}
use seastar_log_engine.Codec.Crc.Word.{AreBytes}
use seastar_log_engine.Codec.Text.{hex_text, crc_prefix, level_to_string}
use seastar_log_engine.Codec.Text.Decimal.{IsDigit, to_decimal-IsDigit}
use seastar_log_engine.Codec.Text.Hex.{IsHexDigit, hex_text-IsHexDigit}
use seastar_log_engine.Codec.Encode.{crc_wanted, is_special, encode_record_buffer}
use seastar_log_engine.Codec.Encode.Join.{join, join-sep, sep, sanitize}
use seastar_log_engine.Codec.Encode.Layout.{header_fields, metadata, record_body, payload_field}
use seastar_log_engine.Codec.Encode.Record.{record_prefix, encode_record_buffer_lem}
use seastar_log_engine.Codec.Record.Find.{Lacks}
use seastar_log_engine.Codec.Record.Written.{header_enabled, any_structured-wanted}
use seastar_log_engine.Codec.Record.RoundTrip.{
  verify_record_line-written, written_head, written_body,
}
use seastar_log_engine.Codec.Scan.{VerifiedLogState, scan_log_content}
use seastar_log_engine.Codec.Scan.Lines.{
  IsRecord, join_lines, sequence_after_lines, scan_log_content-lines,
}

abbrev LacksEnd : Bytes → Type 0
LacksEnd s = Lacks b'\n' s

join_two : (s t : Bytes) → LacksEnd s → LacksEnd t → LacksEnd (s ++ t)
join_two s t h k = All-append (λ b. b ≢ b'\n') s t h k

hex-LacksEnd : (n v : ℕ) → LacksEnd (hex_text n v)
hex-LacksEnd n v =
    All-mono IsHexDigit (λ b. b ≢ b'\n') (λ b h. omega (arith, h)) (hex_text n v)
      (hex_text-IsHexDigit n v)

digits-LacksEnd : (n : ℕ) → LacksEnd (to_decimal n)
digits-LacksEnd n =
    All-mono IsDigit (λ b. b ≢ b'\n') (λ b h. omega (arith, h)) (to_decimal n)
      (to_decimal-IsDigit n)

sanitize-LacksEnd : (payload : Bytes) → LacksEnd (sanitize payload)
unfolding sanitize is_special
sanitize-LacksEnd [] = tt
sanitize-LacksEnd (c ∷ payload) = (ground arith, sanitize-LacksEnd payload)

level-LacksEnd : (level : LogLevel) → LacksEnd (level_to_string level)
unfolding level_to_string
level-LacksEnd info = omega arith
level-LacksEnd warn = omega arith
level-LacksEnd error = omega arith

crc_prefix-LacksEnd : (crc : ℕ) (class : CrcClass) (hash : ℕ) → LacksEnd (crc_prefix crc class hash)
unfolding crc_prefix
crc_prefix-LacksEnd crc header hash =
    join_two (codes "crc=h:" ++ hex_text 8 crc) (b'\t' ∷ [])
      (join_two (codes "crc=h:") (hex_text 8 crc) (omega arith) (hex-LacksEnd 8 crc)) (omega arith)
crc_prefix-LacksEnd crc full hash =
    join_two (codes "crc=" ++ hex_text 8 crc) (b'\t' ∷ [])
      (join_two (codes "crc=") (hex_text 8 crc) (omega arith) (hex-LacksEnd 8 crc)) (omega arith)
crc_prefix-LacksEnd crc payload_hash hash =
    let one = join_two (codes "crc=x:") (hex_text 8 crc) (omega arith) (hex-LacksEnd 8 crc) in
    let two = join_two (codes "crc=x:" ++ hex_text 8 crc) (codes ":") one (omega arith) in
    let three =
      join_two (codes "crc=x:" ++ hex_text 8 crc ++ codes ":") (hex_text 16 hash) two
        (hex-LacksEnd 16 hash) in
    join_two (codes "crc=x:" ++ hex_text 8 crc ++ codes ":" ++ hex_text 16 hash) (b'\t' ∷ []) three
      (omega arith)
crc_prefix-LacksEnd crc CrcClass.none hash = tt

join-LacksEnd : (fields : List Bytes) → All LacksEnd fields → LacksEnd (join fields)
unfolding join
join-LacksEnd [] h = tt
join-LacksEnd (f ∷ []) h = h.0
join-LacksEnd (f ∷ g ∷ fields) h =
    join_two f (b'\t' ∷ join (g ∷ fields)) h.0 (omega arith, join-LacksEnd (g ∷ fields) h.1)

optional-LacksEnd :
    (enabled : Bool) (f : Bytes) → LacksEnd f → All LacksEnd (if enabled then f ∷ [] else [])
optional-LacksEnd true f h = (h, tt)
optional-LacksEnd false f h = tt

record_prefix-LacksEnd :
    (config : EngineConfig) (head body payload : Bytes)
    → LacksEnd (record_prefix config head body payload)
unfolding record_prefix
record_prefix-LacksEnd config head body payload = elim (Bool-cases (crc_wanted config)) [
  | inl wants ↦ rw wants (crc_prefix-LacksEnd _ config.record_crc_class _)
  | inr plain ↦ rw plain tt
]

is_empty-append : (s t : Bytes) → is_empty t ≡ false → is_empty (s ++ t) ≡ false
is_empty-append [] t h = h
is_empty-append (c ∷ s) t h = refl

is_empty-record_body :
    (config : EngineConfig) (shard_id sequence : ℕ) (level : LogLevel) (timestamp payload : Bytes)
    → is_empty (record_body config shard_id sequence level timestamp payload) ≡ false
unfolding record_body payload_field
is_empty-record_body config shard_id sequence level timestamp payload =
    let fields = header_fields config shard_id sequence level timestamp in
    ap is_empty (join-sep fields (payload_field payload))
    ∙ is_empty-append (join fields) (sep fields ++ payload_field payload)
        (is_empty-append (sep fields) (payload_field payload) refl)

-- A message as the shard encodes it.
pub record Message : Type 0 where
  pub sequence : ℕ
  pub level : LogLevel
  pub timestamp : Bytes
  pub payload : Bytes

-- Bytes, with a timestamp in one line and without a tab.
abbrev pub IsMessage : Message → Type 0
IsMessage m =
    Lacks b'\t' m.timestamp × Lacks b'\n' m.timestamp × AreBytes m.timestamp × AreBytes m.payload

-- What a shard writes.
pub written : EngineConfig → ℕ → List Message → Bytes
written config shard_id [] = []
written config shard_id (m ∷ messages) =
    encode_record_buffer config shard_id m.sequence m.level m.timestamp m.payload
    ++ written config shard_id messages

module _ (config : EngineConfig) (shard_id : ℕ) (wanted : crc_wanted config ≡ true)
    (some_field : config.record_crc_class ≢ header ⊎ header_enabled config ≡ true) where
  record_line : Message → Bytes
  record_line m =
      record_prefix config (metadata config shard_id m.sequence m.level m.timestamp)
        (record_body config shard_id m.sequence m.level m.timestamp m.payload) m.payload
      ++ record_body config shard_id m.sequence m.level m.timestamp m.payload

  body-LacksEnd :
      (m : Message)
      → IsMessage m
      → LacksEnd (record_body config shard_id m.sequence m.level m.timestamp m.payload)
  unfolding record_body header_fields payload_field
  body-LacksEnd m h = join-LacksEnd _ (
      All-append LacksEnd _ _
        (All-append LacksEnd _ _
          (All-append LacksEnd _ _
            (All-append LacksEnd _ _
              (optional-LacksEnd config.record_timestamp_enabled _
                (join_two (codes "ts=") m.timestamp (omega arith) h.1))
              (optional-LacksEnd config.record_shard_id_enabled _ (
                join_two (codes "shard=") (to_decimal shard_id) (omega arith)
                  (digits-LacksEnd shard_id))))
            (optional-LacksEnd config.record_sequence_enabled _ (
              join_two (codes "seq=") (to_decimal m.sequence) (omega arith)
                (digits-LacksEnd m.sequence))))
          (optional-LacksEnd config.record_level_enabled _ (
            join_two (codes "level=") (level_to_string m.level) (omega arith)
              (level-LacksEnd m.level))))
        (
          join_two (codes "payload=") (sanitize m.payload) (omega arith)
              (sanitize-LacksEnd m.payload),
          tt,
        ))

  record_line-IsRecord : (m : Message) → IsMessage m → IsRecord (record_line m)
  unfolding record_line written_head written_body
  record_line-IsRecord m h = (
    join_two
        (record_prefix config (metadata config shard_id m.sequence m.level m.timestamp)
          (record_body config shard_id m.sequence m.level m.timestamp m.payload) m.payload)
        _ (record_prefix-LacksEnd config _ _ m.payload) (body-LacksEnd m h),
    is_empty-append
        (record_prefix config (metadata config shard_id m.sequence m.level m.timestamp)
          (record_body config shard_id m.sequence m.level m.timestamp m.payload) m.payload)
        _ (is_empty-record_body config shard_id m.sequence m.level m.timestamp m.payload),
    verify_record_line-written config shard_id m.sequence m.level m.timestamp m.payload h.0 h.2 h.3
        wanted some_field,
  )

  written-join_lines :
      (messages : List Message)
      → All IsMessage messages
      → written config shard_id messages ≡ join_lines (map record_line messages)
  unfolding written join_lines record_line
  written-join_lines [] h = refl
  written-join_lines (m ∷ messages) h =
      let prefix =
        record_prefix config (metadata config shard_id m.sequence m.level m.timestamp)
          (record_body config shard_id m.sequence m.level m.timestamp m.payload) m.payload in
      let body = record_body config shard_id m.sequence m.level m.timestamp m.payload in
      ap (λ s. s ++ written config shard_id messages)
        (encode_record_buffer_lem config shard_id m.sequence m.level m.timestamp m.payload h.0.2
            h.0.3 (any_structured-wanted config wanted)
          ∙ sym (append_assoc prefix body (b'\n' ∷ [])))
      ∙ append_assoc (prefix ++ body) (b'\n' ∷ []) (written config shard_id messages)
      ∙ ap (λ s. (prefix ++ body) ++ b'\n' ∷ s) (written-join_lines messages h.1)

  map-IsRecord :
      (messages : List Message) → All IsMessage messages → All IsRecord (map record_line messages)
  map-IsRecord [] h = tt
  map-IsRecord (m ∷ messages) h = (record_line-IsRecord m h.0, map-IsRecord messages h.1)

  length-map : (messages : List Message) → length (map record_line messages) ≡ length messages
  length-map [] = refl
  length-map (m ∷ messages) = omega (arith, length-map messages)

  -- A shard writes records with a checksum, and a crash leaves a part of one more without its line end:
  -- the scan finds exactly the records that were written whole, and a clean end exactly if there is no
  -- such part. Timestamps are in one line and hold no tab, and records of the header class have some
  -- header field.
  pub scan_log_content-written :
      (messages : List Message) (torn : Bytes)
      → All IsMessage messages
      → Lacks b'\n' torn
      → ((scan_log_content (written config shard_id messages ++ torn)).valid_size
          ≡ length (written config shard_id messages))
        × ((scan_log_content (written config shard_id messages ++ torn)).valid_records
            ≡ length messages)
        × ((scan_log_content (written config shard_id messages ++ torn)).clean_end ≡ is_empty torn)
  scan_log_content-written messages torn h k =
      let lines = map record_line messages in
      let scanned : scan_log_content (written config shard_id messages ++ torn) ≡ record {
        valid_size = length (join_lines lines);
        next_sequence = sequence_after_lines 0 lines;
        valid_records = length lines;
        clean_end = is_empty torn;
      } =
        ap (λ s. scan_log_content (s ++ torn)) (written-join_lines messages h)
        ∙ scan_log_content-lines lines torn (map-IsRecord messages h) k in
      (
        ap (λ (s : VerifiedLogState). s.valid_size) scanned
            ∙ ap length (sym (written-join_lines messages h)),
        ap (λ (s : VerifiedLogState). s.valid_records) scanned ∙ length-map messages,
        ap (λ (s : VerifiedLogState). s.clean_end) scanned,
      )
