-- ===== src/Agent/Render/Batch.antt =====
-- What is read back from the batches that `render_json_batch` of src/agent_support.cc renders.
use seastar_log_engine.Prelude.{
  map, ℕ, zero, suc, ◌≤◌, ◌≡◌, refl, ap, ◌∙◌, sym, inl, inr, true, false, Option, some, List, [],
  ◌∷◌, ◌++◌, append_assoc, append-nil, arith, Bytes, codes, ◌==◌, length, length-append,
}
use seastar_log_engine.Agent.Json.{
  json_object_end, json_records, json_array_at, extract_json_records_array, skip_json_separators,
  json_member_value, skip_json_spaces, is_json_space, extract_json_string, parse_json_string_at,
}
use seastar_log_engine.Agent.Render.{
  json_escape, json_string_then, batch_record, batch_records, more_batch_records, render_json_batch,
}
use seastar_log_engine.Agent.Render.RoundTrip.{escape_byte-cases, json_string_rest-escaped}

json_object_end-plain :
    (depth : ℕ) (seen : Bytes) (c : ℕ) (s : Bytes)
    → (c == b'"') ≡ false
    → (c == b'\\') ≡ false
    → json_object_end depth true false seen (c ∷ s)
      ≡ json_object_end depth true false (seen ++ c ∷ []) s
unfolding json_object_end
json_object_end-plain depth seen c s quote backslash = rw (json_object_end, backslash, quote) refl

-- Inside of a string, the loop goes to the end of the string.
json_object_end-escaped :
    (depth : ℕ) (seen s rest : Bytes)
    → json_object_end depth true false seen (json_escape s ++ b'"' ∷ rest)
      ≡ json_object_end depth false false (seen ++ (json_escape s ++ b'"' ∷ [])) rest
unfolding json_object_end json_escape
json_object_end-escaped depth seen [] rest = refl
json_object_end-escaped depth seen (c ∷ s) rest = elim (escape_byte-cases c) [
  | inl (x, written, _, _) ↦ rw written (
      json_object_end-escaped depth ((seen ++ b'\\' ∷ []) ++ x ∷ []) s rest
      ∙ ap (λ t. json_object_end depth false false t rest)
          (append_assoc (seen ++ b'\\' ∷ []) (x ∷ []) (json_escape s ++ b'"' ∷ [])
            ∙ append_assoc seen (b'\\' ∷ []) (x ∷ (json_escape s ++ b'"' ∷ []))))
  | inr (written, quote, backslash) ↦ rw written (
      json_object_end-plain depth seen c (json_escape s ++ b'"' ∷ rest) quote backslash
      ∙ json_object_end-escaped depth (seen ++ c ∷ []) s rest
      ∙ ap (λ t. json_object_end depth false false t rest)
          (append_assoc seen (c ∷ []) (json_escape s ++ b'"' ∷ [])))
]

abbrev pub texts : List Bytes → List Bytes
texts [] = []
texts (message ∷ records) = batch_record message [] ∷ texts records

json_object_end-record :
    (message rest : Bytes)
    → json_object_end 0 false false [] (batch_record message rest)
      ≡ some (batch_record message [], rest)
unfolding json_object_end batch_record json_string_then
json_object_end-record message rest =
    json_object_end-escaped 1 (codes "{\"message\":\"") message (b'}' ∷ rest)
    ∙ ap (λ t. some (codes "{\"message\":\"" ++ t, rest))
        (append_assoc (json_escape message) (b'"' ∷ []) (b'}' ∷ []))

json_records-record :
    (rounds : ℕ) (seen : List Bytes) (message rest : Bytes)
    → json_records (suc rounds) seen (batch_record message rest)
      ≡ json_records rounds (seen ++ batch_record message [] ∷ []) rest
unfolding json_records batch_record skip_json_separators is_json_space
json_records-record rounds seen message rest = rw (json_object_end-record message rest) refl

json_records-more :
    (rounds : ℕ) (seen records : List Bytes)
    → length records ≤ rounds
    → json_records rounds seen (more_batch_records records) ≡ seen ++ texts records
unfolding json_records more_batch_records skip_json_separators is_json_space
json_records-more zero seen [] h = sym (append-nil seen)
json_records-more (suc rounds) seen [] h = sym (append-nil seen)
json_records-more zero seen (message ∷ records) h = absurd (omega (arith, h))
json_records-more (suc rounds) seen (message ∷ records) h =
    json_records-record rounds seen message (more_batch_records records)
    ∙ json_records-more rounds (seen ++ batch_record message [] ∷ []) records (omega (arith, h))
    ∙ append_assoc seen (batch_record message [] ∷ []) (texts records)

length-more_batch_records :
    (records : List Bytes) → length records ≤ length (more_batch_records records)
unfolding more_batch_records batch_record json_string_then
length-more_batch_records [] = omega arith
length-more_batch_records (message ∷ records) = omega (
  arith,
  length-more_batch_records records,
  length-append (json_escape message) (b'"' ∷ b'}' ∷ more_batch_records records),
)

length-batch_records : (records : List Bytes) → length records ≤ length (batch_records records)
unfolding batch_records batch_record json_string_then
length-batch_records [] = omega arith
length-batch_records (message ∷ records) = omega (
  arith,
  length-more_batch_records records,
  length-append (json_escape message) (b'"' ∷ b'}' ∷ more_batch_records records),
)

json_records-batch :
    (rounds : ℕ) (records : List Bytes)
    → length records ≤ rounds
    → json_records rounds [] (batch_records records) ≡ texts records
unfolding json_records batch_records skip_json_separators is_json_space
json_records-batch zero [] h = refl
json_records-batch (suc rounds) [] h = refl
json_records-batch zero (message ∷ records) h = absurd (omega (arith, h))
json_records-batch (suc rounds) (message ∷ records) h =
    json_records-record rounds [] message (more_batch_records records)
    ∙ json_records-more rounds (batch_record message [] ∷ []) records (omega (arith, h))

extract_json_records_array-render :
    (records : List Bytes) → extract_json_records_array (render_json_batch records) ≡ texts records
unfolding extract_json_records_array render_json_batch json_member_value skip_json_spaces
    is_json_space json_array_at
extract_json_records_array-render records =
    json_records-batch (length (batch_records records)) records (length-batch_records records)

-- What `extract_json_string` finds in an object for the key "message".
abbrev pub message_of : Bytes → Option Bytes
message_of text = extract_json_string text (codes "message")

batch_record-message :
    (message : Bytes)
    → extract_json_string (batch_record message []) (codes "message") ≡ some message
unfolding batch_record json_string_then extract_json_string json_member_value skip_json_spaces
    is_json_space parse_json_string_at
batch_record-message message = rw (json_string_rest-escaped [] message (b'}' ∷ [])) refl

map-texts : (records : List Bytes) → map message_of (texts records) ≡ map some records
map-texts [] = refl
map-texts (message ∷ records) = rw (batch_record-message message, map-texts records) refl

-- The text of `render_json_batch` is split by `extract_json_records_array` into one object for each record
-- of the batch, in their order, and `extract_json_string` finds the record in each for the key "message".
pub extract_json_records_array-render_json_batch :
    (records : List Bytes)
    → map message_of (extract_json_records_array (render_json_batch records)) ≡ map some records
extract_json_records_array-render_json_batch records =
    ap (map message_of) (extract_json_records_array-render records) ∙ map-texts records
