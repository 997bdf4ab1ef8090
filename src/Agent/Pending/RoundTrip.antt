-- ===== src/Agent/Pending/RoundTrip.antt =====
-- A pending batch of src/agent_support.cc is read back as it was stored.
use native.Mathlib.Nat.{mod-eq_of_lt}
use seastar_log_engine.Prelude.{
  ℕ, ◌<◌, ◌≤◌, ◌≡◌, refl, sym, ap, ◌∙◌, true, false, List, [], ◌∷◌, ◌++◌, append_assoc, append-nil,
  arith, Bytes, codes, to_decimal, u32_modulus, u64_modulus, All, starts_with, length, ltb, ◌==◌,
}
use seastar_log_engine.Codec.Record.Find.{Lacks}
use seastar_log_engine.Agent.{DeliveryBatch}
use seastar_log_engine.Agent.Base64.{
  base64_encode, base64_decode-base64_encode, base64_encode-Lacks,
}
use seastar_log_engine.Agent.Lines.{
  text_lines, text_lines-line, text_lines-nil, split_pair, split_pair-append, parse_u64-to_decimal,
  to_decimal-Lacks_newline, key-Lacks_newline,
}
use seastar_log_engine.Agent.Pending.{
  record_rows, render_pending_delivery_batch, PendingReader, parsed, with_number, with_record,
  read_pair, read_pending_line, read_pending_lines, finish_pending, first_reader,
  parse_pending_delivery_batch,
}

abbrev pub AreBytes : Bytes → Type 0
AreBytes s = All (λ b. b < 256) s

-- A line with a key that is neither empty nor a comment.
read_pending_line-pair :
    (reader : PendingReader) (c : ℕ) (key value : Bytes)
    → starts_with (codes "#") (c ∷ key ++ b'=' ∷ value) ≡ false
    → Lacks b'=' (c ∷ key)
    → read_pending_line reader (c ∷ key ++ b'=' ∷ value) ≡ read_pair reader (c ∷ key) value
unfolding read_pending_line
read_pending_line-pair reader c key value no_comment lacks =
    rw (read_pending_line, no_comment, split_pair-append b'=' (c ∷ key) value lacks) refl

read_pending_lines-next :
    (reader next : PendingReader) (line : Bytes) (lines : List Bytes)
    → read_pending_line reader line ≡ parsed next
    → read_pending_lines reader (line ∷ lines) ≡ read_pending_lines next lines
unfolding read_pending_lines
read_pending_lines-next reader next line lines e = rw (read_pending_lines, e) refl

version_read : PendingReader
version_read = record first_reader { saw_version = true }

read_pending_line-version :
    read_pending_line first_reader (codes "format_version=1") ≡ parsed version_read
unfolding read_pending_line read_pair version_read split_pair
read_pending_line-version = refl

module _ (reader : PendingReader) (n : ℕ) (h : n < u64_modulus) where
  read_pending_line-shard :
      n < u32_modulus
      → read_pending_line reader (codes "shard=" ++ to_decimal n)
        ≡ parsed (record reader { batch = record reader.batch { shard = n }; saw_shard = true })
  unfolding read_pair with_number
  read_pending_line-shard small =
      read_pending_line-pair reader b's' (codes "hard") (to_decimal n) refl (omega arith)
      ∙ rw (read_pair, with_number, parse_u64-to_decimal n h, mod-eq_of_lt small) refl

  read_pending_line-first :
      read_pending_line reader (codes "first_sequence=" ++ to_decimal n)
      ≡ parsed (record reader {
        batch = record reader.batch { first_sequence = n };
        saw_first_sequence = true;
      })
  unfolding read_pair with_number
  read_pending_line-first =
      read_pending_line-pair reader b'f' (codes "irst_sequence") (to_decimal n) refl (omega arith)
      ∙ rw (read_pair, with_number, parse_u64-to_decimal n h) refl

  read_pending_line-next :
      read_pending_line reader (codes "next_sequence=" ++ to_decimal n)
      ≡ parsed (record reader {
        batch = record reader.batch { next_sequence = n };
        saw_next_sequence = true;
      })
  unfolding read_pair with_number
  read_pending_line-next =
      read_pending_line-pair reader b'n' (codes "ext_sequence") (to_decimal n) refl (omega arith)
      ∙ rw (read_pair, with_number, parse_u64-to_decimal n h) refl

with_records : PendingReader → List Bytes → PendingReader
with_records reader records = record reader { batch = record reader.batch { records = records } }

read_pending_line-record :
    (reader : PendingReader) (bytes : Bytes)
    → AreBytes bytes
    → read_pending_line reader (codes "record_b64=" ++ base64_encode bytes)
      ≡ parsed (with_records reader (reader.batch.records ++ bytes ∷ []))
unfolding read_pair with_record with_records
read_pending_line-record reader bytes h =
    read_pending_line-pair reader b'r' (codes "ecord_b64") (base64_encode bytes) refl (omega arith)
    ∙ rw (read_pair, with_record, base64_decode-base64_encode bytes h) refl

read_pending_lines-records :
    (reader : PendingReader) (records : List Bytes)
    → All AreBytes records
    → read_pending_lines reader (text_lines (record_rows records))
      ≡ parsed (with_records reader (reader.batch.records ++ records))
unfolding read_pending_lines record_rows with_records
read_pending_lines-records reader [] h =
    ap (read_pending_lines reader) text_lines-nil
    ∙ ap (λ l. parsed (with_records reader l)) (sym (append-nil reader.batch.records))
read_pending_lines-records reader (bytes ∷ records) h =
    let line = codes "record_b64=" ++ base64_encode bytes in
    let next = with_records reader (reader.batch.records ++ bytes ∷ []) in
    let assoc = append_assoc reader.batch.records (bytes ∷ []) records in
    ap (read_pending_lines reader) (
      text_lines-line line (record_rows records) (
        key-Lacks_newline (codes "record_b64=") (base64_encode bytes) (omega arith)
          (base64_encode-Lacks bytes)))
    ∙ read_pending_lines-next reader next line (text_lines (record_rows records))
        (read_pending_line-record reader bytes h.0)
    ∙ read_pending_lines-records next records h.1
    ∙ ap (λ l. parsed (with_records reader l)) assoc

read_pending_lines-line :
    (reader next : PendingReader) (line rest : Bytes)
    → Lacks b'\n' line
    → read_pending_line reader line ≡ parsed next
    → read_pending_lines reader (text_lines (line ++ b'\n' ∷ rest))
      ≡ read_pending_lines next (text_lines rest)
read_pending_lines-line reader next line rest h e =
    ap (read_pending_lines reader) (text_lines-line line rest h)
    ∙ read_pending_lines-next reader next line (text_lines rest) e

number-Lacks : (key : Bytes) (n : ℕ) → Lacks b'\n' key → Lacks b'\n' (key ++ to_decimal n)
number-Lacks key n h = key-Lacks_newline key (to_decimal n) h (to_decimal-Lacks_newline n)

-- A pending batch that was stored is read back: with at least one record, whose bytes are bytes,
-- sequence numbers of 64 bits that do not fall, and a shard of 32 bits.
pub parse_pending_delivery_batch-render :
    (batch : DeliveryBatch)
    → batch.shard < u32_modulus
    → batch.first_sequence ≤ batch.next_sequence
    → batch.next_sequence < u64_modulus
    → 0 < length batch.records
    → All AreBytes batch.records
    → parse_pending_delivery_batch (render_pending_delivery_batch batch) ≡ parsed batch
unfolding parse_pending_delivery_batch render_pending_delivery_batch finish_pending version_read
    with_records
parse_pending_delivery_batch-render batch shard_ok order next_ok some_records bytes_ok =
    let reading = ap finish_pending (
      read_pending_lines-line first_reader version_read (codes "format_version=1") _ (omega arith)
        read_pending_line-version
      ∙ read_pending_lines-line _ _ (codes "shard=" ++ to_decimal batch.shard) _
          (number-Lacks (codes "shard=") batch.shard (omega arith))
          (read_pending_line-shard _ batch.shard (omega (arith, shard_ok)) shard_ok)
      ∙ read_pending_lines-line _ _ (codes "first_sequence=" ++ to_decimal batch.first_sequence) _
          (number-Lacks (codes "first_sequence=") batch.first_sequence (omega arith))
          (read_pending_line-first _ batch.first_sequence (omega (arith, order, next_ok)))
      ∙ read_pending_lines-line _ _ (codes "next_sequence=" ++ to_decimal batch.next_sequence) _
          (number-Lacks (codes "next_sequence=") batch.next_sequence (omega arith))
          (read_pending_line-next _ batch.next_sequence next_ok)
      ∙ read_pending_lines-records _ batch.records bytes_ok) in
    let several : (length batch.records == 0) ≡ false = ground (arith, some_records) in
    let rising : ltb batch.next_sequence batch.first_sequence ≡ false = ground (arith, order) in
    reading ∙ rw (several, rising) refl
