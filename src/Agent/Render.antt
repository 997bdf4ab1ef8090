-- ===== src/Agent/Render.antt =====
-- The JSON that src/agent_support.cc writes: the envelope of a record, and the bodies of the sinks.
pub mod RoundTrip
pub mod Batch
use seastar_log_engine.Prelude.{
  ℕ, suc, ◌+◌, ◌%◌, Option, none, some, List, [], ◌∷◌, ◌++◌, Bytes, codes, to_decimal, length,
  is_empty, ◌==◌, if◌then◌else◌, u64_modulus,
}
use seastar_log_engine.Codec.Json.{StringMap}
use seastar_log_engine.Agent.{DeliveryBatch}

pub record AgentRecordEnvelope : Type 0 where
  pub agent_id : Bytes
  pub source_id : Bytes
  pub source_offset : Option ℕ
  pub ingest_timestamp : Bytes
  pub attributes : StringMap
  pub message : Bytes

pub record KafkaSidecarOptions : Type 0 where
  pub topic : Bytes
  pub bootstrap_servers : Bytes

pub record ObjectStoreOptions : Type 0 where
  pub bucket : Bytes
  pub prefix : Bytes
  pub compression : Bytes

pub escape_byte : ℕ → Bytes
escape_byte c =
    if c == b'\\'
    then codes "\\\\"
    else if c == b'"'
    then codes "\\\""
    else if c == b'\n'
    then codes "\\n"
    else if c == b'\r'
    then codes "\\r"
    else if c == b'\t'
    then codes "\\t"
    else c ∷ []

pub json_escape : Bytes → Bytes
json_escape [] = []
json_escape (c ∷ value) = escape_byte c ++ json_escape value

-- What is behind the opening quote of a string, with the closing quote.
pub json_string_then : Bytes → Bytes → Bytes
json_string_then value rest = json_escape value ++ b'"' ∷ rest

-- A member whose value is a string, unless it is empty.
pub string_member : Bytes → Bytes → Bytes → Bytes
string_member opening value rest =
    if is_empty value then rest else opening ++ json_string_then value rest

pub source_offset_member : Option ℕ → Bytes → Bytes
source_offset_member none rest = rest
source_offset_member (some offset) rest = codes ",\"source_offset\":" ++ (to_decimal offset ++ rest)

pub attribute_pair : Bytes × Bytes → Bytes → Bytes
attribute_pair (key, value) rest =
    b'"' ∷ json_string_then key (codes ":\"" ++ json_string_then value rest)

-- The pairs behind the first.
pub more_attributes : StringMap → Bytes → Bytes
more_attributes [] rest = rest
more_attributes (pair ∷ attributes) rest =
    b',' ∷ attribute_pair pair (more_attributes attributes rest)

pub attributes_member : StringMap → Bytes → Bytes
attributes_member [] rest = rest
attributes_member (pair ∷ attributes) rest =
    codes ",\"attributes\":{" ++ attribute_pair pair (more_attributes attributes (b'}' ∷ rest))

-- What follows the message of an envelope.
pub envelope_members : AgentRecordEnvelope → Bytes
envelope_members r = string_member (codes ",\"agent_id\":\"") r.agent_id (
    string_member (codes ",\"source_id\":\"") r.source_id (
      source_offset_member r.source_offset (
        string_member (codes ",\"ingest_timestamp\":\"") r.ingest_timestamp
          (attributes_member r.attributes (codes "}")))))

pub render_agent_record_envelope : AgentRecordEnvelope → Bytes
render_agent_record_envelope r =
    codes "{\"message\":\"" ++ json_string_then r.message (envelope_members r)

pub batch_record : Bytes → Bytes → Bytes
batch_record message rest = codes "{\"message\":\"" ++ json_string_then message (b'}' ∷ rest)

pub more_batch_records : List Bytes → Bytes
more_batch_records [] = codes "]}"
more_batch_records (message ∷ records) = b',' ∷ batch_record message (more_batch_records records)

pub batch_records : List Bytes → Bytes
batch_records [] = codes "]}"
batch_records (message ∷ records) = batch_record message (more_batch_records records)

pub render_json_batch : List Bytes → Bytes
render_json_batch records = codes "{\"records\":[" ++ batch_records records

pub delivery_record : ℕ → Bytes → Bytes → Bytes
delivery_record sequence message rest =
    codes "{\"sequence\":"
    ++ (to_decimal sequence ++ (codes ",\"message\":\"" ++ json_string_then message (b'}' ∷ rest)))

-- The records from number `i` on, of which the first has this number.
pub delivery_records : ℕ → ℕ → List Bytes → Bytes
delivery_records first_sequence i [] = codes "]}"
delivery_records first_sequence i (message ∷ records) =
    let rest =
      delivery_record ((first_sequence + i) % u64_modulus) message
        (delivery_records first_sequence (suc i) records) in
    if i == 0 then rest else b',' ∷ rest

-- The pieces that are appended to `body`, one after the other.
pub appended : List Bytes → Bytes
appended [] = []
appended (piece ∷ pieces) = piece ++ appended pieces

pub render_delivery_batch_json : Bytes → DeliveryBatch → Bytes
render_delivery_batch_json agent_id batch = appended (
    codes "{\"agent_id\":\""
    ∷ json_escape agent_id
    ∷ codes "\",\"shard\":"
    ∷ to_decimal batch.shard
    ∷ codes ",\"first_sequence\":"
    ∷ to_decimal batch.first_sequence
    ∷ codes ",\"next_sequence\":"
    ∷ to_decimal batch.next_sequence
    ∷ codes ",\"records\":["
    ∷ delivery_records batch.first_sequence 0 batch.records
    ∷ [])

pub render_kafka_sidecar_batch_json : Bytes → DeliveryBatch → KafkaSidecarOptions → Bytes
render_kafka_sidecar_batch_json agent_id batch options = appended (
    codes "{\"sink\":\"kafka_sidecar\",\"agent_id\":\""
    ∷ json_escape agent_id
    ∷ codes "\",\"topic\":\""
    ∷ json_escape options.topic
    ∷ codes "\",\"bootstrap_servers\":\""
    ∷ json_escape options.bootstrap_servers
    ∷ codes "\",\"key\":\""
    ∷ json_escape (to_decimal batch.shard ++ b':' ∷ to_decimal batch.first_sequence)
    ∷ codes "\",\"headers\":{\"shard\":\""
    ∷ to_decimal batch.shard
    ∷ codes "\",\"first_sequence\":\""
    ∷ to_decimal batch.first_sequence
    ∷ codes "\",\"next_sequence\":\""
    ∷ to_decimal batch.next_sequence
    ∷ codes "\"},\"payload\":"
    ∷ render_delivery_batch_json agent_id batch
    ∷ codes "}"
    ∷ [])

-- The path of the object of a batch.
pub object_name_of : DeliveryBatch → ObjectStoreOptions → Bytes
object_name_of batch options = appended (
    options.prefix
    ∷ codes "/shard-"
    ∷ to_decimal batch.shard
    ∷ codes "/"
    ∷ to_decimal batch.first_sequence
    ∷ codes "-"
    ∷ to_decimal batch.next_sequence
    ∷ codes ".json"
    ∷ [])

pub render_object_store_manifest_json : Bytes → DeliveryBatch → ObjectStoreOptions → Bytes
render_object_store_manifest_json agent_id batch options =
    let object_name = object_name_of batch options in
    appended (
      codes "{\"sink\":\"object_store\",\"agent_id\":\""
      ∷ json_escape agent_id
      ∷ codes "\",\"bucket\":\""
      ∷ json_escape options.bucket
      ∷ codes "\",\"object_name\":\""
      ∷ json_escape object_name
      ∷ codes "\",\"compression\":\""
      ∷ json_escape options.compression
      ∷ codes "\",\"shard\":"
      ∷ to_decimal batch.shard
      ∷ codes ",\"first_sequence\":"
      ∷ to_decimal batch.first_sequence
      ∷ codes ",\"next_sequence\":"
      ∷ to_decimal batch.next_sequence
      ∷ codes ",\"record_count\":"
      ∷ to_decimal (length batch.records)
      ∷ codes ",\"commit_marker\":\""
      ∷ json_escape (object_name ++ codes ".commit")
      ∷ codes "\"}"
      ∷ [])
