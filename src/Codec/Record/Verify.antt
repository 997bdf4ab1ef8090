-- ===== src/Codec/Record/Verify.antt =====
-- `verify_record_line` of src/record_codec.cc on the records that `encode_record_buffer` writes.
use seastar_log_engine.Prelude.{
  ℕ, ◌<◌, ◌≡◌, ◌≢◌, refl, sym, ap, ◌∙◌, true, false, none, some, [], ◌∷◌, ◌++◌, append_assoc, arith,
  Bytes, codes, length, All, All-append, All-mono, starts_with, ◌==◌, if◌then◌else◌, u32_modulus,
}
use seastar_log_engine.Codec.Crc.{crc32}
use seastar_log_engine.Codec.Crc.Slicing.{crc32-lt}
use seastar_log_engine.Codec.Crc.Word.{AreBytes}
use seastar_log_engine.Codec.Text.{hex_text}
use seastar_log_engine.Codec.Text.Hex.{
  IsHexDigit, hex_text-IsHexDigit, length-hex_text, parse_whole-hex_text,
}
use seastar_log_engine.Codec.Record.{
  verify_record_line, parse_record_line, parse_fields, check_full_line, check_header_line,
  body_after_tab, encoded_crc, parse_crc_hex, header_of_body, is_some,
}
use seastar_log_engine.Codec.Record.Find.{Lacks, body_after_tab_lem, encoded_crc_lem}

pub hex_text-Lacks : (c n v : ℕ) → c < b'0' → Lacks c (hex_text n v)
hex_text-Lacks c n v low =
    All-mono IsHexDigit (λ b. b ≢ c) (λ b h. omega (arith, h, low)) (hex_text n v)
      (hex_text-IsHexDigit n v)

pub parse_crc_hex-hex_text :
    (crc : ℕ) → crc < u32_modulus → parse_crc_hex (hex_text 8 crc) ≡ some crc
unfolding parse_crc_hex
parse_crc_hex-hex_text crc h =
    parse_whole-hex_text 8 crc u32_modulus (omega arith) (omega (arith, h)) h

-- A prefix of a hexadecimal checksum.
encoded_crc-prefix :
    (prefix body : Bytes) (crc : ℕ)
    → Lacks b'\t' prefix
    → crc < u32_modulus
    → encoded_crc (length prefix) (prefix ++ (hex_text 8 crc ++ b'\t' ∷ body)) ≡ some crc
encoded_crc-prefix prefix body crc h fits =
    encoded_crc_lem prefix (hex_text 8 crc) body crc h (hex_text-Lacks b'\t' 8 crc (omega arith))
      (omega (arith, length-hex_text 8 crc)) (parse_crc_hex-hex_text crc fits)

body_after_tab-prefix :
    (prefix body : Bytes) (crc : ℕ)
    → Lacks b'\t' prefix
    → body_after_tab (prefix ++ (hex_text 8 crc ++ b'\t' ∷ body)) ≡ body
body_after_tab-prefix prefix body crc h =
    ap body_after_tab (sym (append_assoc prefix (hex_text 8 crc) (b'\t' ∷ body)))
    ∙ body_after_tab_lem (prefix ++ hex_text 8 crc) body (
        All-append (λ b. b ≢ b'\t') prefix (hex_text 8 crc) h
          (hex_text-Lacks b'\t' 8 crc (omega arith)))

pub ==-refl : (a : ℕ) → (a == a) ≡ true
==-refl a = ground arith

unfoldable pub full_line : ℕ → Bytes → Bytes
full_line crc body = codes "crc=" ++ (hex_text 8 crc ++ b'\t' ∷ body)

body_after_tab-full_line : (crc : ℕ) (body : Bytes) → body_after_tab (full_line crc body) ≡ body
unfolding full_line
body_after_tab-full_line crc body = body_after_tab-prefix (codes "crc=") body crc (omega arith)

pub check_full_line-full_line :
    (body : Bytes)
    → AreBytes body
    → check_full_line (full_line (crc32 body) body) ≡ some (crc32 body)
unfolding full_line check_full_line
check_full_line-full_line body h = rw (
  encoded_crc-prefix (codes "crc=") body (crc32 body) (omega arith) (crc32-lt body h),
  body_after_tab-prefix (codes "crc=") body (crc32 body) (omega arith),
  ==-refl (crc32 body),
)

unfoldable pub header_line : ℕ → Bytes → Bytes
header_line crc body = codes "crc=h:" ++ (hex_text 8 crc ++ b'\t' ∷ body)

body_after_tab-header_line : (crc : ℕ) (body : Bytes) → body_after_tab (header_line crc body) ≡ body
unfolding header_line
body_after_tab-header_line crc body = body_after_tab-prefix (codes "crc=h:") body crc (omega arith)

pub check_header_line-header_line :
    (crc : ℕ) (body : Bytes)
    → crc < u32_modulus
    → check_header_line (header_line crc body)
      ≡ (if crc == crc32 (header_of_body body) then some crc else none)
unfolding header_line check_header_line
check_header_line-header_line crc body h = rw (
  encoded_crc-prefix (codes "crc=h:") body crc (omega arith) h,
  body_after_tab-prefix (codes "crc=h:") body crc (omega arith),
)

-- A digit behind "crc=" is not the mark of another class.
starts_with-digits :
    (c : ℕ) (s rest : Bytes)
    → b'f' < c
    → 0 < length s
    → All IsHexDigit s
    → starts_with (c ∷ codes ":") (s ++ rest) ≡ false
starts_with-digits c [] rest h k a = absurd (omega (arith, k))
starts_with-digits c (d ∷ s) rest h k a = let other : c ≢ d = omega (arith, a.0) in ground arith

starts_with-full_line :
    (c crc : ℕ) (body : Bytes)
    → b'f' < c
    → starts_with (codes "crc=" ++ c ∷ codes ":") (full_line crc body) ≡ false
unfolding full_line
starts_with-full_line c crc body h =
    starts_with-digits c (hex_text 8 crc) (b'\t' ∷ body) h (omega (arith, length-hex_text 8 crc))
      (hex_text-IsHexDigit 8 crc)

starts_with-full : (crc : ℕ) (body : Bytes) → starts_with (codes "crc=") (full_line crc body) ≡ true
unfolding full_line
starts_with-full crc body = refl

pub verify_record_line-full_line :
    (body : Bytes) → AreBytes body → verify_record_line (full_line (crc32 body) body) ≡ true
unfolding verify_record_line is_some
verify_record_line-full_line body h = rw (
  starts_with-full_line b'x' (crc32 body) body (omega arith),
  starts_with-full_line b'h' (crc32 body) body (omega arith),
  starts_with-full (crc32 body) body,
  check_full_line-full_line body h,
)

pub starts_with-header_line :
    (crc : ℕ) (body : Bytes)
    → (starts_with (codes "crc=x:") (header_line crc body) ≡ false)
      × (starts_with (codes "crc=h:") (header_line crc body) ≡ true)
unfolding header_line
starts_with-header_line crc body = (refl, refl)

pub verify_record_line-header_line_of :
    (crc : ℕ) (body : Bytes)
    → crc < u32_modulus
    → verify_record_line (header_line crc body) ≡ (crc == crc32 (header_of_body body))
unfolding verify_record_line is_some
verify_record_line-header_line_of crc body h =
    rw
      (
        (starts_with-header_line crc body).0,
        (starts_with-header_line crc body).1,
        check_header_line-header_line crc body h,
      )
      (ground arith)

pub verify_record_line-header_line :
    (head body : Bytes)
    → crc32 head < u32_modulus
    → header_of_body body ≡ head
    → verify_record_line (header_line (crc32 head) body) ≡ true
verify_record_line-header_line head body h e =
    verify_record_line-header_line_of (crc32 head) body h
    ∙ ap (λ b. crc32 head == crc32 b) e
    ∙ ==-refl (crc32 head)

pub parse_record_line-full_line :
    (body : Bytes)
    → AreBytes body
    → parse_record_line (full_line (crc32 body) body)
      ≡ parse_fields (full_line (crc32 body) body) (some (crc32 body)) body
unfolding parse_record_line
parse_record_line-full_line body h = rw (
  starts_with-full_line b'x' (crc32 body) body (omega arith),
  starts_with-full_line b'h' (crc32 body) body (omega arith),
  starts_with-full (crc32 body) body,
  check_full_line-full_line body h,
  body_after_tab-full_line (crc32 body) body,
)

pub parse_record_line-header_line :
    (head body : Bytes)
    → crc32 head < u32_modulus
    → header_of_body body ≡ head
    → parse_record_line (header_line (crc32 head) body)
      ≡ parse_fields (header_line (crc32 head) body) (some (crc32 head)) body
unfolding parse_record_line
parse_record_line-header_line head body h e = rw (
  (starts_with-header_line (crc32 head) body).0,
  (starts_with-header_line (crc32 head) body).1,
  check_header_line-header_line (crc32 head) body h,
  e,
  ==-refl (crc32 head),
  body_after_tab-header_line (crc32 head) body,
)
