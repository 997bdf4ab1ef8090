-- ===== src/Agent/Render/RoundTrip.antt =====
-- What is read back from the envelopes that src/agent_support.cc renders, by `extract_json_string` there
-- and by the reader of the log's records in src/record_codec.cc.
use seastar_log_engine.Prelude.{
  ℕ, ◌≡◌, refl, ap, ◌∙◌, inl, inr, false, Bool-cases, some, [], ◌∷◌, ◌++◌, append_assoc, append-nil,
  ◌⊎◌, arith, Bytes, codes, ◌==◌, is_empty,
}
use seastar_log_engine.Codec.Json
use seastar_log_engine.Codec.Record.{ParsedRecord, populate_agent_metadata}
use seastar_log_engine.Agent.Json.{
  json_string_rest, escaped_byte, parse_json_string_at, json_member_value, extract_json_string,
  skip_json_spaces, is_json_space,
}
use seastar_log_engine.Agent.Render.{
  AgentRecordEnvelope, escape_byte, json_escape, json_string_then, envelope_members,
  render_agent_record_envelope,
}

-- How a byte is written: behind a backslash, by the byte that both readers take for it, or as it is.
abbrev EscapeCases : ℕ → Type 0
EscapeCases c =
    ((x : ℕ) × (escape_byte c ≡ b'\\' ∷ x ∷ []) × (escaped_byte x ≡ c) × (Json.unescape x ≡ c))
    ⊎ ((escape_byte c ≡ c ∷ []) × ((c == b'"') ≡ false) × ((c == b'\\') ≡ false))

pub escape_byte-cases : (c : ℕ) → EscapeCases c
unfolding escape_byte escaped_byte Json.unescape
escape_byte-cases c = elim (Bool-cases (c == b'\\')) [
  | inl e ↦ let same : c ≡ b'\\' = ground (arith, e) in rw same (inl (b'\\', refl, refl, refl))
  | inr backslash ↦ elim (Bool-cases (c == b'"')) [
    | inl e ↦ let same : c ≡ b'"' = ground (arith, e) in rw same (inl (b'"', refl, refl, refl))
    | inr quote ↦ elim (Bool-cases (c == b'\n')) [
      | inl e ↦ let same : c ≡ b'\n' = ground (arith, e) in rw same (inl (b'n', refl, refl, refl))
      | inr newline ↦ elim (Bool-cases (c == b'\r')) [
        | inl e ↦ let same : c ≡ b'\r' = ground (arith, e) in rw same (inl (b'r', refl, refl, refl))
        | inr return ↦ elim (Bool-cases (c == b'\t')) [
          | inl e ↦
              let same : c ≡ b'\t' = ground (arith, e) in rw same (inl (b't', refl, refl, refl))
          | inr tab ↦ inr (rw (backslash, quote, newline, return, tab) refl, quote, backslash)
        ]
      ]
    ]
  ]
]

escaped-some : (s rest : Bytes) → is_empty (json_escape s ++ b'"' ∷ rest) ≡ false
unfolding json_escape
escaped-some [] rest = refl
escaped-some (c ∷ s) rest = elim (escape_byte-cases c) [
  | inl (x, written, _, _) ↦ rw written refl
  | inr (written, _, _) ↦ rw written refl
]

json_string_rest-plain :
    (value : Bytes) (c : ℕ) (s : Bytes)
    → (c == b'"') ≡ false
    → (c == b'\\') ≡ false
    → is_empty s ≡ false
    → json_string_rest value (c ∷ s) ≡ json_string_rest (value ++ c ∷ []) s
unfolding json_string_rest
json_string_rest-plain value c [] a b h = absurd (ground (arith, h))
json_string_rest-plain value c (e ∷ s) a b h = rw (json_string_rest, a, b) refl

pub json_string_rest-escaped :
    (value s rest : Bytes)
    → json_string_rest value (json_escape s ++ b'"' ∷ rest) ≡ some (value ++ s, rest)
unfolding json_string_rest json_escape
json_string_rest-escaped value [] [] = rw (append-nil value) refl
json_string_rest-escaped value [] (e ∷ rest) = rw (append-nil value) refl
json_string_rest-escaped value (c ∷ s) rest =
    let later = json_string_rest-escaped (value ++ c ∷ []) s rest in
    elim (escape_byte-cases c) [
      | inl (x, written, read, _) ↦ rw written (
          ap (λ b. json_string_rest (value ++ b ∷ []) (json_escape s ++ b'"' ∷ rest)) read
          ∙ later
          ∙ ap (λ v. some (v, rest)) (append_assoc value (c ∷ []) s))
      | inr (written, quote, backslash) ↦ rw written (
          json_string_rest-plain value c (json_escape s ++ b'"' ∷ rest) quote backslash
            (escaped-some s rest)
          ∙ later
          ∙ ap (λ v. some (v, rest)) (append_assoc value (c ∷ []) s))
    ]

unescape-escaped_byte : (c : ℕ) → Json.unescape c ≡ escaped_byte c
unfolding escaped_byte Json.unescape
unescape-escaped_byte c = ground arith

-- The two copies of the reader of strings give the same.
json_string_tail-json_string_rest :
    (value s : Bytes) → Json.json_string_tail value s ≡ json_string_rest value s
unfolding json_string_rest Json.json_string_tail
json_string_tail-json_string_rest value [] = refl
json_string_tail-json_string_rest value (c ∷ []) = refl
json_string_tail-json_string_rest value (c ∷ e ∷ s) = elim (Bool-cases (c == b'"')) [
  | inl quote ↦ rw (json_string_rest, Json.json_string_tail, quote) refl
  | inr other ↦ elim (Bool-cases (c == b'\\')) [
    | inl backslash ↦
        rw (json_string_rest, Json.json_string_tail, other, backslash)
          (ap (λ b. Json.json_string_tail (value ++ b ∷ []) s) (unescape-escaped_byte e)
            ∙ json_string_tail-json_string_rest (value ++ escaped_byte e ∷ []) s)
    | inr plain ↦
        rw (json_string_rest, Json.json_string_tail, other, plain)
          (json_string_tail-json_string_rest (value ++ c ∷ []) (e ∷ s))
  ]
]

-- Whatever an envelope holds, its message is what `extract_json_string` finds in it for the key
-- "message"; and when the envelope is the payload of a record, the reader of the log makes the message
-- the payload. (The ingest looks for a key "payload" first, which is another search.)
pub extract_json_string-render :
    (envelope : AgentRecordEnvelope) (r : ParsedRecord)
    → r.payload ≡ render_agent_record_envelope envelope
    → (extract_json_string (render_agent_record_envelope envelope) (codes "message")
        ≡ some envelope.message)
      × ((populate_agent_metadata r).payload ≡ envelope.message)
unfolding render_agent_record_envelope json_string_then extract_json_string json_member_value
    skip_json_spaces is_json_space parse_json_string_at populate_agent_metadata
    Json.extract_json_string Json.find_member Json.skip_spaces Json.parse_json_string_at
extract_json_string-render envelope r same =
    let read = json_string_rest-escaped [] envelope.message (envelope_members envelope) in
    let text = json_string_then envelope.message (envelope_members envelope) in
    (rw read refl, rw (same, json_string_tail-json_string_rest [] text, read) refl)
