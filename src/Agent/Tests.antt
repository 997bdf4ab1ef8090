-- ===== src/Agent/Tests.antt =====
-- The theorems on src/agent_support.cc at concrete inputs.
use mathlib.Core.List.{Perm}
use seastar_log_engine.Prelude.{
  ℕ, map, ◌≡◌, refl, true, false, none, some, List, [], ◌∷◌, arith, Bytes, codes,
}
use seastar_log_engine.Config.{info, full}
use seastar_log_engine.Codec.Encode.{encode_record_buffer}
use seastar_log_engine.Codec.Tests.{sample, stamp}
use seastar_log_engine.Reader.{Reading, File, GzipFile, opens}
use seastar_log_engine.Recovery.Stream.Whole.{join_chunks}
use seastar_log_engine.Agent.{SourceOffset, DeliveryOffset, DeliveryBatch}
use seastar_log_engine.Agent.Base64.{base64_encode, base64_decode, base64_decode-base64_encode}
use seastar_log_engine.Agent.Offsets.Source.{load_source_offset-render}
use seastar_log_engine.Agent.Offsets.{
  render_source_offset, load_source_offset, store_delivery_offset, render_delivery_offsets,
  parse_delivery_offsets_text,
}
use seastar_log_engine.Agent.Offsets.Delivery.{Ascending, parse_delivery_offsets_text-render}
use seastar_log_engine.Agent.Pending.{
  parsed, render_pending_delivery_batch, parse_pending_delivery_batch,
}
use seastar_log_engine.Agent.Pending.RoundTrip.{parse_pending_delivery_batch-render}
use seastar_log_engine.Agent.Tail.{
  TailBatch, same_file, start_offset, tail_file_once, tail_file_once_async,
}
use seastar_log_engine.Agent.Tail.Lines.{Tails, tail_file_once-Tails}
use seastar_log_engine.Agent.Tail.Buffers.{tail_file_once_async-tail_file_once}
use seastar_log_engine.Agent.Delivery.{ReplayOptions}
use seastar_log_engine.Codec.Record.{ParsedRecord, populate_agent_metadata}
use seastar_log_engine.Agent.Json.{extract_json_string, extract_json_records_array}
use seastar_log_engine.Agent.Render.{
  AgentRecordEnvelope, render_agent_record_envelope, render_json_batch,
}
use seastar_log_engine.Agent.Render.RoundTrip.{extract_json_string-render}
use seastar_log_engine.Agent.Render.Batch.{message_of, extract_json_records_array-render_json_batch}

abbrev source : SourceOffset
source = record { path = codes "a.log"; inode = 71; offset = 4 }

abbrev offset_of : ℕ → ℕ → DeliveryOffset
offset_of shard next = record { shard = shard; next_sequence = next }

parse_delivery_offsets_text-render_example :
    (loaded : List DeliveryOffset) × (parse_delivery_offsets_text
        (render_delivery_offsets (offset_of 3 10 ∷ offset_of 1 20 ∷ []))
      ≡ some loaded)
    × Ascending loaded
    × Perm loaded (offset_of 3 10 ∷ offset_of 1 20 ∷ [])
parse_delivery_offsets_text-render_example =
    parse_delivery_offsets_text-render (offset_of 3 10) (offset_of 1 20 ∷ []) (
      record { shard_fits = omega arith; sequence_fits = omega arith },
      (record { shard_fits = omega arith; sequence_fits = omega arith }, tt),
    )

abbrev batch : DeliveryBatch
batch = record {
  shard = 1;
  first_sequence = 4;
  next_sequence = 6;
  records = codes "up" ∷ codes "ok" ∷ [];
}

parse_pending_delivery_batch-render_example :
    parse_pending_delivery_batch (render_pending_delivery_batch batch) ≡ parsed batch
parse_pending_delivery_batch-render_example =
    parse_pending_delivery_batch-render batch (omega arith) (omega arith) (omega arith)
      (omega arith) ((omega arith, (omega arith, tt)), ((omega arith, (omega arith, tt)), tt))

abbrev content : Bytes
content = codes "old\nnew\ncut"

tail_file_once-Tails_example :
    (batch : TailBatch) × (tail_file_once (codes "a.log") 71 11 (some source) 5 (some content)
      ≡ some batch)
    × Tails 5 (start_offset (codes "a.log") 71 11 (some source)) content batch
tail_file_once-Tails_example = tail_file_once-Tails (codes "a.log") 71 (some source) 5 content

tail_file_once_async-tail_file_once_example :
    tail_file_once_async
      (codes "a.log")
      71
      11
      (some source)
      5
      (λ start length. some (codes "ne" ∷ codes "w\ncut" ∷ []))
    ≡ tail_file_once (codes "a.log") 71 11 (some source) 5 (some content)
tail_file_once_async-tail_file_once_example =
    tail_file_once_async-tail_file_once (codes "a.log") 71 11 (some source) 5 content
      (codes "ne" ∷ codes "w\ncut" ∷ []) (refl, (refl, tt))
      (unfold start_offset same_file join_chunks in refl)

-- Two records of the first shard, which begins with number 7.
abbrev file_of : Bytes → File
file_of path =
    let first = encode_record_buffer (sample full true) 0 7 info stamp (codes "one") in
    let second = encode_record_buffer (sample full true) 0 8 info stamp (codes "two") in
    record { exists = true; opening = opens (first ∷ second ∷ []) false }

abbrev no_archive : Bytes → GzipFile
no_archive path = record { gzip_exists = false; gzip_opening = none }

abbrev fresh : Reading
fresh = record {
  stats = record {
    segments_read = 0;
    archive_segments_read = 0;
    active_segments_read = 0;
    records_returned = 0;
    corrupted_segments = 0;
    corrupted_lines = 0;
    gzip_read_errors = 0;
  };
  alerts = [];
  records = [];
  segment_corrupted = false;
}

abbrev replay_all : ReplayOptions
replay_all = record { batch_size = 5; include_archive = false; shard = none }

abbrev log_names : List Bytes
log_names = codes "shard-0.log" ∷ []

-- The file of the first shard says that number 8 is next.
abbrev states : List (Bytes × Bytes)
states = (codes "delivered.0", store_delivery_offset (offset_of 0 8)) ∷ []

abbrev envelope : AgentRecordEnvelope
envelope = record {
  agent_id = codes "node";
  source_id = [];
  source_offset = some 7;
  ingest_timestamp = stamp;
  attributes = (codes "host", codes "a") ∷ [];
  message = codes "say \"agent_id\": x";
}

abbrev enveloped : ParsedRecord
enveloped = record {
  crc = 0;
  timestamp = stamp;
  shard = 1;
  has_sequence = true;
  sequence = 4;
  level = info;
  payload = render_agent_record_envelope envelope;
  raw_line = [];
  agent_id = [];
  source_id = [];
  source_offset = none;
  ingest_timestamp = [];
  attributes = [];
}

extract_json_string-render_example :
    (extract_json_string (render_agent_record_envelope envelope) (codes "message")
      ≡ some envelope.message)
    × ((populate_agent_metadata enveloped).payload ≡ envelope.message)
extract_json_string-render_example = extract_json_string-render envelope enveloped refl

abbrev two_lines : List Bytes
two_lines = codes "a \"quoted\" word" ∷ codes "tab\tand {brace" ∷ []

extract_json_records_array-render_json_batch_example :
    map message_of (extract_json_records_array (render_json_batch two_lines)) ≡ map some two_lines
extract_json_records_array-render_json_batch_example =
    extract_json_records_array-render_json_batch two_lines

base64_decode-base64_encode_example :
    base64_decode (base64_encode (codes "up: 7")) ≡ some (codes "up: 7")
base64_decode-base64_encode_example =
    base64_decode-base64_encode (codes "up: 7")
      (omega arith, (omega arith, (omega arith, (omega arith, (omega arith, tt)))))

load_source_offset-render_example :
    load_source_offset (render_source_offset source) ≡ some (some source)
load_source_offset-render_example =
    load_source_offset-render source
      (omega arith, (omega arith, (omega arith, (omega arith, (omega arith, tt))))) (omega arith)
      (omega arith)
