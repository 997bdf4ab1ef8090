-- ===== src/Codec/Text/Decimal.antt =====
-- Decimal numbers: their length, and that reading gives the number back.
use seastar_log_engine.Prelude.{
  ℕ, zero, suc, ◌+◌, ◌*◌, ◌/◌, ◌%◌, ◌^◌, ◌≤◌, ◌<◌, ◌≡◌, refl, sym, ap, ◌∙◌, some, [], ◌∷◌, ◌++◌,
  arith, Bytes, length, length-append, decimal_rounds, decimal_digits, to_decimal, digit_value,
  scan_digits, from_chars, parse_whole, All, All-append, u64_modulus, append_assoc, append-nil,
}
use native.Mathlib.Decide.{dec_lt}
use native.Mathlib.Nat.{pow-suc}
use seastar_log_engine.Codec.Text.{decimal_length_loop, decimal_length}

abbrev pub IsDigit : ℕ → Type 0
IsDigit c = (b'0' ≤ c) × (c ≤ b'9')

digit_value_lem : (d : ℕ) → d < 10 → digit_value 10 (b'0' + d) ≡ some d
digit_value_lem d h = ground arith

decimal_digits_small : (rounds n : ℕ) → n < 10 → decimal_digits (suc rounds) n ≡ (b'0' + n) ∷ []
unfolding decimal_digits
decimal_digits_small rounds n h = ground arith

decimal_digits_more :
    (rounds n : ℕ)
    → 10 ≤ n
    → decimal_digits (suc rounds) n ≡ decimal_digits rounds (n / 10) ++ (b'0' + n % 10) ∷ []
unfolding decimal_digits
decimal_digits_more rounds n h = ground arith

tenth-lt : (rounds n : ℕ) → n < 10 ^ suc rounds → n / 10 < 10 ^ rounds
tenth-lt rounds n h = omega (arith, pow-suc 10 rounds)

scan_digits-cons :
    (d : ℕ) (rest : Bytes) (count value : ℕ)
    → d < 10
    → scan_digits 10 ((b'0' + d) ∷ rest) count value
      ≡ scan_digits 10 rest (count + 1) (value * 10 + d)
unfolding scan_digits
scan_digits-cons d rest count value h = ground (arith, digit_value_lem d h)

-- Reading the digits of a number that the rounds are enough for gives the number, and their count.
scan_digits-decimal :
    (rounds n : ℕ) (rest : Bytes)
    → n < 10 ^ rounds
    → scan_digits 10 (decimal_digits rounds n ++ rest) 0 0
      ≡ scan_digits 10 rest (length (decimal_digits rounds n)) n
scan_digits-decimal zero n rest h =
    unfold decimal_digits in ap (scan_digits 10 rest 0) (omega arith)
scan_digits-decimal (suc rounds) n rest h = elim (dec_lt n 10) [
  | yes small ↦
      rw (decimal_digits_small rounds n small, scan_digits-cons n rest 0 0 small)
        (ap (scan_digits 10 rest 1) (omega arith))
  | no large ↦
      let le : 10 ≤ n = omega arith in
      rw
        (
          decimal_digits_more rounds n le,
          append_assoc (decimal_digits rounds (n / 10)) ((b'0' + n % 10) ∷ []) rest,
          scan_digits-decimal rounds (n / 10) ((b'0' + n % 10) ∷ rest) (tenth-lt rounds n h),
          scan_digits-cons (n % 10) rest (length (decimal_digits rounds (n / 10))) (n / 10)
              (omega arith),
          length-append (decimal_digits rounds (n / 10)) ((b'0' + n % 10) ∷ []),
        )
        (ap (scan_digits 10 rest (length (decimal_digits rounds (n / 10)) + 1)) (omega arith))
]

length-decimal_digits_pos : (rounds n : ℕ) → 0 < length (decimal_digits (suc rounds) n)
unfolding decimal_digits
length-decimal_digits_pos rounds n =
    grind (arith, length-append (decimal_digits rounds (n / 10)) ((b'0' + n % 10) ∷ []))

u64-lt : (n : ℕ) → n < u64_modulus → n < 10 ^ decimal_rounds
u64-lt n h = omega arith

scan_digits-to_decimal :
    (n : ℕ) → n < u64_modulus → scan_digits 10 (to_decimal n) 0 0 ≡ (length (to_decimal n), n, [])
unfolding to_decimal
scan_digits-to_decimal n h =
    ap (λ t. scan_digits 10 t 0 0) (sym (append-nil (decimal_digits decimal_rounds n)))
    ∙ scan_digits-decimal decimal_rounds n [] (u64-lt n h)
    ∙ unfold scan_digits in refl

length-to_decimal_pos : (n : ℕ) → 0 < length (to_decimal n)
unfolding to_decimal
length-to_decimal_pos n = length-decimal_digits_pos 19 n

-- Every 64-bit number that fits the type read is read back from its decimal print.
pub parse_whole-to_decimal :
    (modulus n : ℕ) → n < modulus → n < u64_modulus → parse_whole 10 modulus (to_decimal n) ≡ some n
unfolding parse_whole from_chars
parse_whole-to_decimal modulus n fits h =
    ground (arith, scan_digits-to_decimal n h, length-to_decimal_pos n)

to_decimal-All_digits : (rounds n : ℕ) → All IsDigit (decimal_digits rounds n)
to_decimal-All_digits zero n = unfold decimal_digits in tt
to_decimal-All_digits (suc rounds) n = elim (dec_lt n 10) [
  | yes small ↦ rw (decimal_digits_small rounds n small) (omega arith)
  | no large ↦ rw (decimal_digits_more rounds n (omega arith)) (
      All-append IsDigit (decimal_digits rounds (n / 10)) _ (to_decimal-All_digits rounds (n / 10))
        (omega arith))
]

pub to_decimal-IsDigit : (n : ℕ) → All IsDigit (to_decimal n)
unfolding to_decimal
to_decimal-IsDigit n = to_decimal-All_digits decimal_rounds n

-- The last round, which only finds the end, is not needed.
loop_enough :
    (rounds n digits : ℕ)
    → n < 10 ^ suc rounds
    → decimal_length_loop (suc rounds) n digits ≡ decimal_length_loop rounds n digits
unfolding decimal_length_loop
loop_enough zero n digits h = ground arith
loop_enough (suc rounds) n digits h =
    ground (arith, loop_enough rounds (n / 10) (digits + 1) (tenth-lt (suc rounds) n h))

decimal_length_loop_lem :
    (rounds n digits : ℕ)
    → n < 10 ^ suc rounds
    → decimal_length_loop rounds n digits + 1 ≡ length (decimal_digits (suc rounds) n) + digits
unfolding decimal_length_loop
decimal_length_loop_lem zero n digits h =
    rw (decimal_digits_small zero n (omega arith)) (omega arith)
decimal_length_loop_lem (suc rounds) n digits h = elim (dec_lt n 10) [
  | yes small ↦ rw (decimal_digits_small (suc rounds) n small) (ground arith)
  | no large ↦ rw (decimal_digits_more (suc rounds) n (omega arith)) (
      ground (
        arith,
        length-append (decimal_digits (suc rounds) (n / 10)) ((b'0' + n % 10) ∷ []),
        decimal_length_loop_lem rounds (n / 10) (digits + 1) (tenth-lt (suc rounds) n h),
      ))
]

-- `decimal_length` reserves exactly what `append_decimal` writes.
-- The number of digits that is counted for a buffer is the number printed, for a 64-bit number.
pub length-to_decimal : (n : ℕ) → n < u64_modulus → length (to_decimal n) ≡ decimal_length n
length-to_decimal n h =
    let counted = decimal_length_loop_lem 19 n 1 (u64-lt n h) in
    let full = loop_enough 19 n 1 (u64-lt n h) in
    unfold decimal_length to_decimal in omega (arith, counted, full)
