-- ===== src/Agent/Ingest.antt =====
-- `parse_ingest_record` and `parse_ingest_body` of src/agent_support.cc: the messages in the body of a
-- request.
use seastar_log_engine.Prelude.{
  ℕ, ◌+◌, ◌-◌, ◌&&◌, ◌||◌, Option, none, some, List, [], ◌∷◌, Bytes, codes, bytes_eq, leb,
  if◌then◌else◌,
}
use seastar_log_engine.Config.{LogLevel, LogMessage, info, warn, error}
use seastar_log_engine.Codec.Json.{StringMap, map_assign}
use seastar_log_engine.Agent.Lines.{map_find}
use seastar_log_engine.Agent.Json.{
  extract_json_string, extract_json_object_body, extract_json_records_array,
  parse_flat_json_string_map,
}
use seastar_log_engine.Agent.Render.{AgentRecordEnvelope, render_agent_record_envelope}

pub record IngestParseOptions : Type 0 where
  pub default_agent_id : Bytes
  pub default_source_id : Bytes

pub record IngestParseResult : Type 0 where
  pub messages : List LogMessage
  pub malformed_records : ℕ

pub lower_byte : ℕ → ℕ
lower_byte c = if leb b'A' c && leb c b'Z' then c - b'A' + b'a' else c

pub lower_ascii : Bytes → Bytes
lower_ascii [] = []
lower_ascii (c ∷ value) = lower_byte c ∷ lower_ascii value

-- The value if there is one, or else what stands behind it.
pub first_of {ℓ} : {A : Type ℓ} → Option A → A → A
first_of none other = other
first_of (some value) other = value

pub ingest_message : Bytes → Bytes
ingest_message body =
    first_of (extract_json_string body (codes "payload"))
      (first_of (extract_json_string body (codes "message")) body)

pub ingest_time : Bytes → Bytes
ingest_time body =
    first_of (extract_json_string body (codes "ingest_timestamp"))
      (first_of (extract_json_string body (codes "timestamp")) [])

-- `attributes.try_emplace(key, value)`, when there is a value.
pub try_emplace : Bytes → Option Bytes → StringMap → StringMap
try_emplace key none attributes = attributes
try_emplace key (some value) attributes = elim (map_find key attributes) [
  | none ↦ map_assign key value attributes
  | some present ↦ attributes
]

pub ingest_attributes : Bytes → StringMap
ingest_attributes body =
    let given : StringMap = elim (extract_json_object_body body (codes "attributes")) [
      | none ↦ []
      | some attributes ↦ parse_flat_json_string_map attributes
    ] in
    try_emplace (codes "trace_id") (extract_json_string body (codes "trace_id")) (
      try_emplace (codes "host") (extract_json_string body (codes "host"))
        (try_emplace (codes "service") (extract_json_string body (codes "service")) given))

pub ingest_envelope : Bytes → IngestParseOptions → AgentRecordEnvelope
ingest_envelope body options = record {
  agent_id = first_of (extract_json_string body (codes "agent_id")) options.default_agent_id;
  source_id = first_of (extract_json_string body (codes "source_id")) options.default_source_id;
  source_offset = none;
  ingest_timestamp = ingest_time body;
  attributes = ingest_attributes body;
  message = ingest_message body;
}

pub level_of_word : Bytes → LogLevel
level_of_word lowered =
    if bytes_eq lowered (codes "warn") || bytes_eq lowered (codes "warning")
    then warn
    else if bytes_eq lowered (codes "error") || bytes_eq lowered (codes "err")
    then error
    else info

pub ingest_level : Option Bytes → LogLevel
ingest_level none = info
ingest_level (some level) = level_of_word (lower_ascii level)

pub parse_ingest_record : Bytes → IngestParseOptions → LogMessage
parse_ingest_record body options = record {
  level = ingest_level (extract_json_string body (codes "level"));
  payload = render_agent_record_envelope (ingest_envelope body options);
  route_key =
      first_of (extract_json_string body (codes "route_key"))
        (first_of (extract_json_string body (codes "service")) []);
}

pub parse_ingest_records : List Bytes → IngestParseOptions → List LogMessage
parse_ingest_records [] options = []
parse_ingest_records (body ∷ records) options =
    parse_ingest_record body options ∷ parse_ingest_records records options

-- A body without an array of records is one record. No record throws, so none is counted as malformed.
pub parse_ingest_body : Bytes → IngestParseOptions → IngestParseResult
parse_ingest_body body options = record {
  messages = elim (extract_json_records_array body) [
    | [] ↦ parse_ingest_record body options ∷ []
    | record_text ∷ records ↦ parse_ingest_records (record_text ∷ records) options
  ];
  malformed_records = 0;
}
