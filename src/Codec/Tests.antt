-- ===== src/Codec/Tests.antt =====
-- The theorems on records, at concrete records.
use seastar_log_engine.Prelude.{
  List, ◌≤◌, ◌≡◌, refl, inr, Bool, true, false, some, [], ◌∷◌, ◌++◌, arith, Bytes, codes, length,
  take, ◌==◌,
}
use seastar_log_engine.Config.{EngineConfig, CrcClass, header, payload_hash, full, write_ack, info}
use seastar_log_engine.Codec.Crc.{crc32}
use seastar_log_engine.Codec.Encode.{
  encode_record_buffer, crc_wanted, same_class, any_structured, buffer_size,
}
use seastar_log_engine.Codec.Encode.Layout.{metadata, record_body, payload_field}
use seastar_log_engine.Codec.Encode.Record.{record_prefix, encode_record_buffer_lem}
use seastar_log_engine.Codec.Encode.Bounds.{length-encode_record_buffer}
use seastar_log_engine.Codec.Scan.{scan_log_content}
use seastar_log_engine.Codec.Scan.Written.{Message, written, scan_log_content-written}
use seastar_log_engine.Codec.Scan.Lines.{join_lines, sequence_after_lines, scan_log_content-lines}
use seastar_log_engine.Codec.Scan.Cut.{scan_log_content-take}
use seastar_log_engine.Codec.Record.{
  is_some, parse_fields, optional_field, extract_field, extract_field_loop, verify_record_line,
  parse_record_line, populate_agent_metadata,
}
use seastar_log_engine.Codec.Record.RoundTrip.{verify_record_line-encode_record_buffer}
use seastar_log_engine.Codec.Record.Written.{header_enabled}
use seastar_log_engine.Codec.Record.RoundTrip.Bare.{verify_record_line-bare}
use seastar_log_engine.Codec.Record.RoundTrip.Parse.{
  parse_record_line-encode_record_buffer, read_back, written_crc,
}

-- The default configuration with a class of checksum, and with or without header fields.
abbrev pub sample : CrcClass → Bool → EngineConfig
sample class fields = record {
  log_dir = codes "logs";
  archive_dir = codes "logs/archive";
  shard_file_prefix = codes "shard";
  ack_mode = write_ack;
  routing_virtual_nodes = 64;
  batch_size = 64;
  stream_buffer_size = 65536;
  write_behind = 4;
  write_retry_count = 3;
  max_pending_bytes = 1048576;
  pending_bytes_low_watermark = 524288;
  rotate_size_bytes = 0;
  rotate_interval_seconds = 0;
  archive_retention_seconds = 0;
  max_archived_files_per_shard = 16;
  truncate_on_start = false;
  checkpoint_enabled = true;
  compress_archives = false;
  record_crc_enabled = true;
  record_crc_class = class;
  record_timestamp_enabled = fields;
  record_level_enabled = fields;
  record_shard_id_enabled = fields;
  record_sequence_enabled = fields;
}

abbrev pub stamp : Bytes
stamp = codes "2024-01-02"

abbrev text : Bytes
text = codes "a\tb"

encode_record_buffer_lem_example :
    let config = sample full true in
    encode_record_buffer config 3 41 info stamp text
    ≡ record_prefix config
        (metadata config 3 41 info stamp)
        (record_body config 3 41 info stamp text)
        text
      ++ (record_body config 3 41 info stamp text ++ b'\n' ∷ [])
encode_record_buffer_lem_example =
    encode_record_buffer_lem (sample full true) 3 41 info stamp text (omega arith) (omega arith)
      (unfold any_structured crc_wanted same_class in refl)

verify_record_line-encode_record_buffer_example :
    (line : Bytes) × (encode_record_buffer (sample payload_hash true) 3 41 info stamp text
      ≡ line ++ b'\n' ∷ [])
    × (verify_record_line line ≡ true)
verify_record_line-encode_record_buffer_example =
    verify_record_line-encode_record_buffer (sample payload_hash true) 3 41 info stamp text
      (omega arith) (omega arith) (omega arith) (unfold crc_wanted same_class in refl)
      (inr (unfold header_enabled in refl))

parse_record_line-encode_record_buffer_example :
    let config = sample header true in
    (line : Bytes) × (encode_record_buffer config 3 41 info stamp text ≡ line ++ b'\n' ∷ [])
    × (parse_record_line line
        ≡ some (
            populate_agent_metadata (
              read_back config 3 41 info stamp text line
                (some (written_crc config 3 41 info stamp text)))))
parse_record_line-encode_record_buffer_example =
    parse_record_line-encode_record_buffer (sample header true) 3 41 info stamp text (omega arith)
      (omega arith) (omega arith) (omega arith) (omega arith) (unfold crc_wanted same_class in refl)
      (inr (unfold header_enabled in refl))

verify_record_line-bare_example :
    (line : Bytes) × (encode_record_buffer (sample header false) 3 41 info stamp text
      ≡ line ++ b'\n' ∷ [])
    × (verify_record_line line ≡ (crc32 [] == crc32 (payload_field text)))
verify_record_line-bare_example =
    verify_record_line-bare (sample header false) 3 41 info stamp text (omega arith) (omega arith)
      (unfold crc_wanted same_class in refl) refl (unfold header_enabled in refl)

length-encode_record_buffer_example :
    length (encode_record_buffer (sample payload_hash true) 3 41 info stamp text)
    ≤ buffer_size (sample payload_hash true) 3 41 info stamp text
length-encode_record_buffer_example =
    length-encode_record_buffer (sample payload_hash true) 3 41 info stamp text (omega arith)
      (omega arith) (omega arith) (omega arith)

plain_one : verify_record_line (codes "one") ≡ true
unfolding verify_record_line is_some parse_record_line parse_fields optional_field extract_field
    extract_field_loop
plain_one = refl

plain_two : verify_record_line (codes "two") ≡ true
unfolding verify_record_line is_some parse_record_line parse_fields optional_field extract_field
    extract_field_loop
plain_two = refl

scan_log_content-lines_example :
    scan_log_content (join_lines (codes "one" ∷ codes "two" ∷ []) ++ codes "thr") ≡ record {
      valid_size = length (join_lines (codes "one" ∷ codes "two" ∷ []));
      next_sequence = sequence_after_lines 0 (codes "one" ∷ codes "two" ∷ []);
      valid_records = 2;
      clean_end = false;
    }
scan_log_content-lines_example =
    scan_log_content-lines (codes "one" ∷ codes "two" ∷ []) (codes "thr")
      ((omega arith, refl, plain_one), ((omega arith, refl, plain_two), tt)) (omega arith)

scan_log_content-take_example :
    scan_log_content
      (take (scan_log_content (codes "one\ncrc=\n")).valid_size (codes "one\ncrc=\n"))
    ≡ record (scan_log_content (codes "one\ncrc=\n")) { clean_end = true }
scan_log_content-take_example = scan_log_content-take (codes "one\ncrc=\n")

abbrev messages : List Message
messages =
    record { sequence = 41; level = info; timestamp = stamp; payload = text }
    ∷ record { sequence = 42; level = info; timestamp = stamp; payload = codes "c" }
    ∷ []

scan_log_content-written_example :
    let bytes = written (sample payload_hash true) 3 messages in
    ((scan_log_content (bytes ++ codes "crc=x")).valid_size ≡ length bytes)
    × ((scan_log_content (bytes ++ codes "crc=x")).valid_records ≡ 2)
    × ((scan_log_content (bytes ++ codes "crc=x")).clean_end ≡ false)
scan_log_content-written_example =
    scan_log_content-written (sample payload_hash true) 3 (unfold crc_wanted same_class in refl)
      (inr (unfold header_enabled in refl)) messages (codes "crc=x")
      (
        (omega arith, omega arith, omega arith, omega arith),
        ((omega arith, omega arith, omega arith, omega arith), tt),
      )
      (omega arith)
