-- ===== src/Codec/Text/Hex.antt =====
-- Hexadecimal numbers of a fixed width: their length and bytes, and that reading gives them back.
use mathlib.Core.Path.{ap₂}
use native.Mathlib.Nat.{pow-suc}
use seastar_log_engine.Prelude.{
  ℕ, zero, suc, ◌+◌, ◌*◌, ◌/◌, ◌%◌, ◌^◌, ◌≤◌, ◌<◌, ◌≡◌, refl, sym, ap, ◌∙◌, ◌⊎◌, some, [], ◌∷◌,
  ◌++◌, arith, Bytes, length, length-append, digit_value, scan_digits, from_chars, parse_whole, All,
  All-append, append_assoc, append-nil,
}
use seastar_log_engine.Codec.Text.{hex_digit, hex_text}

abbrev pub IsHexDigit : ℕ → Type 0
IsHexDigit c = ((b'0' ≤ c) × (c ≤ b'9')) ⊎ ((b'a' ≤ c) × (c ≤ b'f'))

hex_digit-IsHexDigit : (d : ℕ) → d < 16 → IsHexDigit (hex_digit d)
unfolding hex_digit
hex_digit-IsHexDigit d h = grind arith

digit_value-hex_digit : (d : ℕ) → d < 16 → digit_value 16 (hex_digit d) ≡ some d
unfolding hex_digit
digit_value-hex_digit d h = ground arith

pub length-hex_text : (n v : ℕ) → length (hex_text n v) ≡ n
unfolding hex_text
length-hex_text zero v = refl
length-hex_text (suc n) v = omega (
  arith,
  length-append (hex_text n (v / 16)) (hex_digit (v % 16) ∷ []),
  length-hex_text n (v / 16),
)

pub hex_text-IsHexDigit : (n v : ℕ) → All IsHexDigit (hex_text n v)
unfolding hex_text
hex_text-IsHexDigit zero v = tt
hex_text-IsHexDigit (suc n) v =
    All-append IsHexDigit (hex_text n (v / 16)) _ (hex_text-IsHexDigit n (v / 16))
      (hex_digit-IsHexDigit (v % 16) (omega arith), tt)

scan_digits-cons :
    (d : ℕ) (rest : Bytes) (count value : ℕ)
    → d < 16
    → scan_digits 16 (hex_digit d ∷ rest) count value
      ≡ scan_digits 16 rest (count + 1) (value * 16 + d)
unfolding scan_digits
scan_digits-cons d rest count value h = ground (arith, digit_value-hex_digit d h)

scan_digits-hex_text :
    (n v : ℕ) (rest : Bytes)
    → v < 16 ^ n
    → scan_digits 16 (hex_text n v ++ rest) 0 0 ≡ scan_digits 16 rest n v
unfolding hex_text
scan_digits-hex_text zero v rest h = ap (scan_digits 16 rest 0) (omega arith)
scan_digits-hex_text (suc n) v rest h =
    rw
      (
        append_assoc (hex_text n (v / 16)) (hex_digit (v % 16) ∷ []) rest,
        scan_digits-hex_text n (v / 16) (hex_digit (v % 16) ∷ rest) (omega (arith, pow-suc 16 n)),
        scan_digits-cons (v % 16) rest n (v / 16) (omega arith),
      )
      (ap₂ (scan_digits 16 rest) (omega arith) (omega arith))

scan_digits-hex_text_whole : (n v : ℕ) → v < 16 ^ n → scan_digits 16 (hex_text n v) 0 0 ≡ (n, v, [])
scan_digits-hex_text_whole n v h =
    ap (λ t. scan_digits 16 t 0 0) (sym (append-nil (hex_text n v)))
    ∙ scan_digits-hex_text n v [] h
    ∙ unfold scan_digits in refl

-- A number printed in hexadecimal with enough digits is read back, if it fits the type read.
pub parse_whole-hex_text :
    (n v modulus : ℕ)
    → 0 < n
    → v < 16 ^ n
    → v < modulus
    → parse_whole 16 modulus (hex_text n v) ≡ some v
unfolding parse_whole from_chars
parse_whole-hex_text n v modulus pos h fits = ground (arith, scan_digits-hex_text_whole n v h)
