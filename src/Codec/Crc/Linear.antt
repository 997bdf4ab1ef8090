-- ===== src/Codec/Crc/Linear.antt =====
-- The step of the checksum is linear for exclusive or.
use Prim.Native.Nat.{bit_xor}
use mathlib.Core.Path.{◌≡⟨◌⟩◌, ◌∎}
use seastar_log_engine.Prelude.{ℕ, zero, suc, ◌*◌, ◌/◌, ◌%◌, ◌^◌, ◌≡◌, refl, ap, arith}
use seastar_log_engine.Bits.{
  two_pow, zero-bit_xor, bit_xor_half, bit_xor_low, bit_xor_assoc, bit_xor_comm, bit_xor_swap,
  bit_xor_self, bit_xor_disjoint,
}
use seastar_log_engine.Codec.Crc.{crc_polynomial, crc_bit, crc_bits, crc32_table}

crc_bit-bit_xor : (x y : ℕ) → crc_bit (bit_xor x y) ≡ bit_xor (crc_bit x) (crc_bit y)
unfolding crc_bit
crc_bit-bit_xor x y =
    let p = crc_polynomial in
    ground (
      arith,
      bit_xor_half x y,
      bit_xor_low x y,
      bit_xor_swap p (x / 2) p (y / 2),
      bit_xor_self p,
      zero-bit_xor (bit_xor (x / 2) (y / 2)),
      bit_xor_assoc p (x / 2) (y / 2),
      bit_xor_assoc (x / 2) p (y / 2),
      bit_xor_comm p (x / 2),
    )

pub crc_bits-bit_xor :
    (n x y : ℕ) → crc_bits n (bit_xor x y) ≡ bit_xor (crc_bits n x) (crc_bits n y)
unfolding crc_bits
crc_bits-bit_xor zero x y = refl
crc_bits-bit_xor (suc n) x y = rw (crc_bit-bit_xor x y) (crc_bits-bit_xor n (crc_bit x) (crc_bit y))

-- Eight zero digits at the low end are shifted out.
crc_bit_even : (w : ℕ) → crc_bit (w * 2) ≡ w
unfolding crc_bit
crc_bit_even w = ground arith

pub crc_bits_shift : (n w : ℕ) → crc_bits n (w * 2 ^ n) ≡ w
unfolding crc_bits
crc_bits_shift zero w = omega arith
crc_bits_shift (suc n) w =
    let e : w * 2 ^ suc n ≡ w * 2 ^ n * 2 = omega (arith, two_pow w n) in
    rw (e, crc_bit_even (w * 2 ^ n)) (crc_bits_shift n w)

-- The table, completed by the bits above the byte, is the step on a word of any width.
pub crc_bits-table : (x : ℕ) → crc_bits 8 x ≡ bit_xor (crc32_table (x % 256)) (x / 256)
unfolding crc32_table
crc_bits-table x =
    crc_bits 8 x
    ≡⟨ ap (crc_bits 8) (omega (arith, bit_xor_disjoint 8 (x % 256) (x / 256) (omega arith))) ⟩
      crc_bits 8 (bit_xor (x % 256) (x / 256 * 2 ^ 8))
    ≡⟨ crc_bits-bit_xor 8 (x % 256) (x / 256 * 2 ^ 8) ⟩
      bit_xor (crc_bits 8 (x % 256)) (crc_bits 8 (x / 256 * 2 ^ 8))
    ≡⟨ ap (bit_xor (crc_bits 8 (x % 256))) (crc_bits_shift 8 (x / 256)) ⟩
      bit_xor (crc_bits 8 (x % 256)) (x / 256) ∎
