-- ===== src/Codec/Record/Hash.antt =====
-- The readers' branch for records with a payload hash, in src/record_codec.cc.
use seastar_log_engine.Prelude.{
  ℕ, suc, ◌<◌, ◌≡◌, ◌≢◌, refl, sym, ap, ◌∙◌, true, some, ◌∷◌, ◌++◌, append_assoc, arith, Bytes,
  codes, length, length-append, take, drop, take-length-append, All-append, All-mono, find_byte,
  starts_with, u32_modulus, u64_modulus,
}
use seastar_log_engine.Codec.Crc.{crc32}
use seastar_log_engine.Codec.Xxh.{xxh64, xxh64-lt}
use seastar_log_engine.Codec.Crc.{crc32_update}
use seastar_log_engine.Codec.Encode.Layout.{hash_crc}
use seastar_log_engine.Bits.{bit_xor_cancel}
use seastar_log_engine.Codec.Text.{hex_text}
use seastar_log_engine.Codec.Text.Hex.{
  IsHexDigit, hex_text-IsHexDigit, length-hex_text, parse_whole-hex_text,
}
use seastar_log_engine.Codec.Record.{
  verify_record_line, parse_record_line, parse_fields, check_hash_line, body_after_tab,
  parse_hash_crc_prefix, hash_record_crc, split_payload_field, is_some,
}
use seastar_log_engine.Codec.Record.Find.{Lacks, drop-behind, body_after_tab_lem, find_byte-append}
use seastar_log_engine.Codec.Record.Verify.{hex_text-Lacks, parse_crc_hex-hex_text, ==-refl}

-- The checksum and the hash in a prefix.
unfoldable pub hash_digits : ℕ → ℕ → Bytes
hash_digits crc hash = hex_text 8 crc ++ b':' ∷ hex_text 16 hash

unfoldable pub hash_line : ℕ → ℕ → Bytes → Bytes
hash_line crc hash body = codes "crc=x:" ++ (hash_digits crc hash ++ b'\t' ∷ body)

hash_digits-Lacks : (crc hash : ℕ) → Lacks b'\t' (hash_digits crc hash)
unfolding hash_digits
hash_digits-Lacks crc hash =
    All-append (λ b. b ≢ b'\t') (hex_text 8 crc) (b':' ∷ hex_text 16 hash)
      (hex_text-Lacks b'\t' 8 crc (omega arith))
      (omega arith, hex_text-Lacks b'\t' 16 hash (omega arith))

length-hash_digits : (crc hash : ℕ) → length (hash_digits crc hash) ≡ 25
unfolding hash_digits
length-hash_digits crc hash = omega (
  arith,
  length-append (hex_text 8 crc) (b':' ∷ hex_text 16 hash),
  length-hex_text 8 crc,
  length-hex_text 16 hash,
)

-- A colon behind eight digits.
IsHexDigit-colon : (b : ℕ) → IsHexDigit b → b ≢ b':'
IsHexDigit-colon b h = omega (arith, h)

find_byte-hash_digits : (crc hash : ℕ) → find_byte b':' (hash_digits crc hash) ≡ some 8
unfolding hash_digits
find_byte-hash_digits crc hash =
    find_byte-append b':' (hex_text 8 crc) (hex_text 16 hash)
      (All-mono IsHexDigit _ IsHexDigit-colon (hex_text 8 crc) (hex_text-IsHexDigit 8 crc))
    ∙ ap some (length-hex_text 8 crc)

find_byte-hash_line :
    (crc hash : ℕ) (body : Bytes) → find_byte b'\t' (hash_line crc hash body) ≡ some 31
unfolding hash_line
find_byte-hash_line crc hash body =
    ap (find_byte b'\t') (sym (append_assoc (codes "crc=x:") (hash_digits crc hash) (b'\t' ∷ body)))
    ∙ find_byte-append b'\t' (codes "crc=x:" ++ hash_digits crc hash) body (
        All-append (λ b. b ≢ b'\t') (codes "crc=x:") (hash_digits crc hash) (omega arith)
          (hash_digits-Lacks crc hash))
    ∙ ap some (
        length-append (codes "crc=x:") (hash_digits crc hash)
        ∙ omega (arith, length-hash_digits crc hash))

take-hash_line :
    (crc hash : ℕ) (body : Bytes)
    → take 25 (drop 6 (hash_line crc hash body)) ≡ hash_digits crc hash
unfolding hash_line
take-hash_line crc hash body =
    ap (λ n. take n (hash_digits crc hash ++ b'\t' ∷ body)) (sym (length-hash_digits crc hash))
    ∙ take-length-append (hash_digits crc hash) (b'\t' ∷ body)

pub starts_with-hash_line :
    (crc hash : ℕ) (body : Bytes) → starts_with (codes "crc=x:") (hash_line crc hash body) ≡ true
unfolding hash_line
starts_with-hash_line crc hash body = refl

take-hash_crc : (crc hash : ℕ) → take 8 (hash_digits crc hash) ≡ hex_text 8 crc
unfolding hash_digits
take-hash_crc crc hash =
    ap (λ n. take n (hex_text 8 crc ++ b':' ∷ hex_text 16 hash)) (sym (length-hex_text 8 crc))
    ∙ take-length-append (hex_text 8 crc) (b':' ∷ hex_text 16 hash)

drop-hash_hash : (crc hash : ℕ) → drop 9 (hash_digits crc hash) ≡ hex_text 16 hash
unfolding hash_digits
drop-hash_hash crc hash =
    ap (λ n. drop (suc n) (hex_text 8 crc ++ b':' ∷ hex_text 16 hash)) (sym (length-hex_text 8 crc))
    ∙ drop-behind b':' (hex_text 8 crc) (hex_text 16 hash)

pub parse_hash_crc_prefix-hash_line :
    (crc hash : ℕ) (body : Bytes)
    → crc < u32_modulus
    → hash < u64_modulus
    → parse_hash_crc_prefix (hash_line crc hash body) ≡ some (crc, hash)
unfolding parse_hash_crc_prefix
parse_hash_crc_prefix-hash_line crc hash body h k = rw (
  starts_with-hash_line crc hash body,
  find_byte-hash_line crc hash body,
  take-hash_line crc hash body,
  find_byte-hash_digits crc hash,
  length-hash_digits crc hash,
  take-hash_crc crc hash,
  drop-hash_hash crc hash,
  parse_crc_hex-hex_text crc h,
  parse_whole-hex_text 16 hash u64_modulus (omega arith) (omega (arith, k)) k,
)

body_after_tab-hash_line :
    (crc hash : ℕ) (body : Bytes) → body_after_tab (hash_line crc hash body) ≡ body
unfolding hash_line
body_after_tab-hash_line crc hash body =
    ap body_after_tab (sym (append_assoc (codes "crc=x:") (hash_digits crc hash) (b'\t' ∷ body)))
    ∙ body_after_tab_lem (codes "crc=x:" ++ hash_digits crc hash) body (
        All-append (λ b. b ≢ b'\t') (codes "crc=x:") (hash_digits crc hash) (omega arith)
          (hash_digits-Lacks crc hash))

-- The readers' checksum, which starts again from a finished one, is that of the writer.
hash_record_crc_lem : (head : Bytes) (hash : ℕ) → hash_record_crc head hash ≡ hash_crc head hash
unfolding hash_record_crc hash_crc crc32
hash_record_crc_lem head hash = rw (bit_xor_cancel (crc32_update 0xffffffff head) 0xffffffff)

pub check_hash_line-hash_line :
    (head text body : Bytes)
    → split_payload_field body ≡ some (head, text)
    → hash_crc head (xxh64 text) < u32_modulus
    → check_hash_line (hash_line (hash_crc head (xxh64 text)) (xxh64 text) body)
      ≡ some (hash_crc head (xxh64 text))
unfolding check_hash_line
check_hash_line-hash_line head text body split h = rw (
  parse_hash_crc_prefix-hash_line (hash_crc head (xxh64 text)) (xxh64 text) body h (xxh64-lt text),
  body_after_tab-hash_line (hash_crc head (xxh64 text)) (xxh64 text) body,
  split,
  ==-refl (xxh64 text),
  hash_record_crc_lem head (xxh64 text),
  ==-refl (hash_crc head (xxh64 text)),
)

pub verify_record_line-hash_line :
    (head text body : Bytes)
    → split_payload_field body ≡ some (head, text)
    → hash_crc head (xxh64 text) < u32_modulus
    → verify_record_line (hash_line (hash_crc head (xxh64 text)) (xxh64 text) body) ≡ true
unfolding verify_record_line is_some
verify_record_line-hash_line head text body split h = rw (
  starts_with-hash_line (hash_crc head (xxh64 text)) (xxh64 text) body,
  check_hash_line-hash_line head text body split h,
)

pub parse_record_line-hash_line :
    (head text body : Bytes)
    → split_payload_field body ≡ some (head, text)
    → hash_crc head (xxh64 text) < u32_modulus
    → let line = hash_line (hash_crc head (xxh64 text)) (xxh64 text) body in
      parse_record_line line ≡ parse_fields line (some (hash_crc head (xxh64 text))) body
unfolding parse_record_line
parse_record_line-hash_line head text body split h = rw (
  starts_with-hash_line (hash_crc head (xxh64 text)) (xxh64 text) body,
  check_hash_line-hash_line head text body split h,
  body_after_tab-hash_line (hash_crc head (xxh64 text)) (xxh64 text) body,
)
