-- ===== src/Codec/Crc/Word.antt =====
-- The bitwise checksum, and four bytes of it taken as one word.
use Prim.Native.Nat.{bit_xor}
use seastar_log_engine.Prelude.{
  ℕ, zero, suc, ◌+◌, ◌*◌, ◌/◌, ◌%◌, ◌^◌, ◌<◌, ◌≡◌, refl, sym, ap, ◌∙◌, [], ◌∷◌, arith, All, Bytes,
  u32_modulus,
}
use seastar_log_engine.Bits.{
  bit_xor_assoc, bit_xor_disjoint, bit_or_disjoint, bit_xor-lt, bit_xor_half, bit_xor-zero,
}
use seastar_log_engine.Codec.Crc.{
  crc_polynomial, crc_bit, crc_bits, crc32_table, crc32_tables, crc32_update_byte, crc32_tail,
  word_le, crc32_slice,
}
use seastar_log_engine.Codec.Crc.Linear.{crc_bits-bit_xor, crc_bits_shift, crc_bits-table}

-- Every element is a byte.
abbrev pub AreBytes : Bytes → Type 0
AreBytes = All (λ b. b < 256)

-- The checksum as it is defined: a byte is added to the low end, then eight single bits are shifted
-- out.
unfoldable pub crc_reference : ℕ → Bytes → ℕ
crc_reference value [] = value
crc_reference value (b ∷ rest) = crc_reference (crc_bits 8 (bit_xor value b)) rest

bit_xor-div : (v b : ℕ) → b < 256 → bit_xor v b / 256 ≡ v / 256
bit_xor-div v b h =
    let low : b / 2 / 2 / 2 / 2 / 2 / 2 / 2 / 2 ≡ 0 = omega arith in
    omega (
      arith,
      bit_xor_half v b,
      bit_xor_half (v / 2) (b / 2),
      bit_xor_half ((v / 2) / 2) ((b / 2) / 2),
      bit_xor_half (((v / 2) / 2) / 2) (((b / 2) / 2) / 2),
      bit_xor_half ((((v / 2) / 2) / 2) / 2) ((((b / 2) / 2) / 2) / 2),
      bit_xor_half (((((v / 2) / 2) / 2) / 2) / 2) (((((b / 2) / 2) / 2) / 2) / 2),
      bit_xor_half ((((((v / 2) / 2) / 2) / 2) / 2) / 2) ((((((b / 2) / 2) / 2) / 2) / 2) / 2),
      bit_xor_half (((((((v / 2) / 2) / 2) / 2) / 2) / 2) / 2)
          (((((((b / 2) / 2) / 2) / 2) / 2) / 2) / 2),
      ap (bit_xor ((((((((v / 2) / 2) / 2) / 2) / 2) / 2) / 2) / 2)) low,
      bit_xor-zero ((((((((v / 2) / 2) / 2) / 2) / 2) / 2) / 2) / 2),
    )

crc32_update_byte_lem : (v b : ℕ) → b < 256 → crc32_update_byte v b ≡ crc_bits 8 (bit_xor v b)
unfolding crc32_update_byte crc32_tables
crc32_update_byte_lem v b h = rw (crc_bits-table (bit_xor v b), bit_xor-div v b h)

pub crc32_tail_lem : (v : ℕ) (s : Bytes) → AreBytes s → crc32_tail v s ≡ crc_reference v s
unfolding crc32_tail crc_reference
crc32_tail_lem v [] h = refl
crc32_tail_lem v (b ∷ s) h =
    rw (crc32_update_byte_lem v b h.0) (crc32_tail_lem (crc_bits 8 (bit_xor v b)) s h.1)

-- `n` bytes shifted out.
pub shift : ℕ → ℕ → ℕ
shift zero x = x
shift (suc n) x = crc_bits 8 (shift n x)

shift-bit_xor : (n x y : ℕ) → shift n (bit_xor x y) ≡ bit_xor (shift n x) (shift n y)
unfolding shift
shift-bit_xor zero x y = refl
shift-bit_xor (suc n) x y = rw (shift-bit_xor n x y) (crc_bits-bit_xor 8 (shift n x) (shift n y))

shift_inner : (n x : ℕ) → shift (suc n) x ≡ shift n (crc_bits 8 x)
unfolding shift
shift_inner zero x = refl
shift_inner (suc n) x = ap (crc_bits 8) (shift_inner n x)

-- A byte that stands one place higher takes one step more.
shift_up : (n w : ℕ) → shift (suc n) (w * 256) ≡ shift n w
shift_up n w = shift_inner n (w * 256) ∙ ap (shift n) (crc_bits_shift 8 w)

crc32_tables_lem : (k b : ℕ) → crc32_tables k b ≡ shift (suc k) b
unfolding crc32_tables shift crc32_table
crc32_tables_lem zero b = refl
crc32_tables_lem (suc k) b = rw (crc32_tables_lem k b) (sym (crc_bits-table (shift (suc k) b)))

-- Four bytes as a word: `|` and exclusive or agree, since the bytes share no digit.
unfoldable pub word_xor : ℕ → ℕ → ℕ → ℕ → ℕ
word_xor b0 b1 b2 b3 =
    bit_xor (bit_xor (bit_xor b0 (b1 * 256)) (b2 * 256 * 256)) (b3 * 256 * 256 * 256)

module _ (b0 b1 b2 b3 : ℕ) (h0 : b0 < 256) (h1 : b1 < 256) (h2 : b2 < 256) (h3 : b3 < 256) where
  word_xor_sum : word_xor b0 b1 b2 b3 ≡ b0 + b1 * 256 + b2 * 256 * 256 + b3 * 256 * 256 * 256
  unfolding word_xor
  word_xor_sum =
      let e2 : b2 * 256 * 256 ≡ b2 * 2 ^ 16 = omega arith in
      let e3 : b3 * 256 * 256 * 256 ≡ b3 * 2 ^ 24 = omega arith in
      rw (
        bit_xor_disjoint 8 b0 b1 h0,
        e2,
        bit_xor_disjoint 16 (b0 + b1 * 256) b2 (omega arith),
        e3,
        bit_xor_disjoint 24 (b0 + b1 * 256 + b2 * 2 ^ 16) b3 (omega arith),
      )

  pub word_le_sum : word_le b0 b1 b2 b3 ≡ b0 + b1 * 2 ^ 8 + b2 * 2 ^ 16 + b3 * 2 ^ 24
  unfolding word_le
  word_le_sum = rw (
    bit_or_disjoint 8 b0 b1 h0,
    bit_or_disjoint 16 (b0 + b1 * 2 ^ 8) b2 (omega arith),
    bit_or_disjoint 24 (b0 + b1 * 2 ^ 8 + b2 * 2 ^ 16) b3 (omega arith),
  )

  pub word_le-word_xor : word_le b0 b1 b2 b3 ≡ word_xor b0 b1 b2 b3
  word_le-word_xor = omega (arith, word_le_sum, word_xor_sum)

-- The four bytes of a word put together again.
word_xor_bytes :
    (w : ℕ)
    → w < u32_modulus
    → w ≡ word_xor (w % 256) (w / 2 ^ 8 % 256) (w / 2 ^ 16 % 256) (w / 2 ^ 24 % 256)
word_xor_bytes w h = omega (
  arith,
  word_xor_sum (w % 256) (w / 2 ^ 8 % 256) (w / 2 ^ 16 % 256) (w / 2 ^ 24 % 256) (omega arith)
      (omega arith) (omega arith) (omega arith),
)

-- Four steps on a word are steps on its bytes.
shift-word_xor :
    (n b0 b1 b2 b3 : ℕ)
    → shift (suc (suc (suc (suc n)))) (word_xor b0 b1 b2 b3)
      ≡ bit_xor
          (bit_xor
            (bit_xor (shift (suc (suc (suc (suc n)))) b0) (shift (suc (suc (suc n))) b1))
            (shift (suc (suc n)) b2))
          (shift (suc n) b3)
unfolding word_xor
shift-word_xor n b0 b1 b2 b3 =
    let m = suc (suc (suc (suc n))) in
    rw (
      shift-bit_xor m (bit_xor (bit_xor b0 (b1 * 256)) (b2 * 256 * 256)) (b3 * 256 * 256 * 256),
      shift-bit_xor m (bit_xor b0 (b1 * 256)) (b2 * 256 * 256),
      shift-bit_xor m b0 (b1 * 256),
      shift_up (suc (suc (suc n))) b1,
      shift_up (suc (suc (suc n))) (b2 * 256),
      shift_up (suc (suc n)) b2,
      shift_up (suc (suc (suc n))) (b3 * 256 * 256),
      shift_up (suc (suc n)) (b3 * 256),
      shift_up (suc n) b3,
    )

unfoldable pub crc_step : ℕ → ℕ → ℕ
crc_step v b = crc_bits 8 (bit_xor v b)

-- Four bytes taken one by one.
crc_step_four :
    (v b0 b1 b2 b3 : ℕ)
    → crc_step (crc_step (crc_step (crc_step v b0) b1) b2) b3
      ≡ bit_xor
          (bit_xor (bit_xor (bit_xor (shift 4 v) (shift 4 b0)) (shift 3 b1)) (shift 2 b2))
          (shift 1 b3)
unfolding crc_step shift
crc_step_four v b0 b1 b2 b3 = simp crc_bits-bit_xor

-- Four bytes taken as one word.
pub crc_step_word :
    (v b0 b1 b2 b3 : ℕ)
    → crc_step (crc_step (crc_step (crc_step v b0) b1) b2) b3
      ≡ shift 4 (bit_xor v (word_xor b0 b1 b2 b3))
crc_step_word v b0 b1 b2 b3 =
    crc_step_four v b0 b1 b2 b3 ∙ sym (shift-bit_xor 4 v (word_xor b0 b1 b2 b3) ∙ spread)
  where
    spread :
        bit_xor (shift 4 v) (shift 4 (word_xor b0 b1 b2 b3))
        ≡ bit_xor
            (bit_xor (bit_xor (bit_xor (shift 4 v) (shift 4 b0)) (shift 3 b1)) (shift 2 b2))
            (shift 1 b3)
    spread = ap (bit_xor (shift 4 v)) (shift-word_xor 0 b0 b1 b2 b3) ∙ simp bit_xor_assoc

pub crc32_slice_lem :
    (w b4 b5 b6 b7 : ℕ)
    → w < u32_modulus
    → b4 < 256
    → b5 < 256
    → b6 < 256
    → b7 < 256
    → crc32_slice w (word_le b4 b5 b6 b7)
      ≡ crc_step (crc_step (crc_step (crc_step (shift 4 w) b4) b5) b6) b7
unfolding crc32_slice
crc32_slice_lem w b4 b5 b6 b7 hw h4 h5 h6 h7 =
    let sum = word_le_sum b4 b5 b6 b7 h4 h5 h6 h7 in
    let second = word_le b4 b5 b6 b7 in
    let e4 : second % 256 ≡ b4 = omega (arith, sum) in
    let e5 : second / 2 ^ 8 % 256 ≡ b5 = omega (arith, sum) in
    let e6 : second / 2 ^ 16 % 256 ≡ b6 = omega (arith, sum) in
    let e7 : second / 2 ^ 24 % 256 ≡ b7 = omega (arith, sum) in
    let whole : shift 8 w
        ≡ bit_xor
            (bit_xor (bit_xor (shift 8 (w % 256)) (shift 7 (w / 2 ^ 8 % 256)))
              (shift 6 (w / 2 ^ 16 % 256)))
            (shift 5 (w / 2 ^ 24 % 256)) =
      ap (shift 8) (word_xor_bytes w hw)
      ∙ shift-word_xor 4 (w % 256) (w / 2 ^ 8 % 256) (w / 2 ^ 16 % 256) (w / 2 ^ 24 % 256) in
    rw
      (
        e4,
        e5,
        e6,
        e7,
        crc_step_four (shift 4 w) b4 b5 b6 b7,
        crc32_tables_lem 7 (w % 256),
        crc32_tables_lem 6 (w / 2 ^ 8 % 256),
        crc32_tables_lem 5 (w / 2 ^ 16 % 256),
        crc32_tables_lem 4 (w / 2 ^ 24 % 256),
        crc32_tables_lem 3 b4,
        crc32_tables_lem 2 b5,
        crc32_tables_lem 1 b6,
        crc32_tables_lem 0 b7,
        ← whole,
      )
      (unfold shift in refl)

crc_bits-lt : (n v : ℕ) → v < u32_modulus → crc_bits n v < u32_modulus
unfolding crc_bits
crc_bits-lt zero v h = h
crc_bits-lt (suc n) v h = crc_bits-lt n (crc_bit v) (crc_bit-lt v h)
  where
    crc_bit-lt : (v : ℕ) → v < u32_modulus → crc_bit v < u32_modulus
    crc_bit-lt v h = unfold crc_bit in ground (arith, bit_xor-lt 32 crc_polynomial (v / 2))

pub crc_step-lt : (v b : ℕ) → v < u32_modulus → b < 256 → crc_step v b < u32_modulus
unfolding crc_step
crc_step-lt v b h k = crc_bits-lt 8 (bit_xor v b) (bit_xor-lt 32 v b h (omega arith))
