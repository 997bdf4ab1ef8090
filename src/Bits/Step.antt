-- ===== src/Bits/Step.antt =====
-- One binary digit of the native bit operations: their meaning without its fuel.
use Prim.Native.Nat.{digits, differ, bitwise, bit_or, bit_xor, bit_or-bitwise, bit_xor-bitwise}
use seastar_log_engine.Prelude.{
  ℕ, zero, suc, ◌+◌, ◌*◌, ◌/◌, ◌%◌, ◌≤◌, ◌<◌, min, max, ◌≡◌, refl, arith,
}

-- A number has at most as many digits as it is large: any such fuel gives the same.
module _ (last : ℕ → ℕ) (op : ℕ → ℕ → ℕ) where
  digits_enough :
      (a b fuel more : ℕ) → a ≤ more → a ≤ fuel → digits last op fuel a b ≡ digits last op more a b
  digits_enough zero b zero zero h k = refl
  digits_enough zero b zero (suc more) h k = refl
  digits_enough zero b (suc fuel) zero h k = refl
  digits_enough zero b (suc fuel) (suc more) h k = refl
  digits_enough (suc a) b fuel zero h k = absurd (omega (arith, h))
  digits_enough (suc a) b zero (suc more) h k = absurd (omega (arith, k))
  digits_enough (suc a) b (suc fuel) (suc more) h k =
      let half : suc a / 2 ≤ min fuel more = omega (arith, h, k) in
      rw (digits_enough (suc a / 2) (b / 2) fuel more (omega (arith, half)) (omega (arith, half)))

  bitwise_low_digit :
      (a b : ℕ)
      → op (suc a % 2) (b % 2) + 2 * bitwise last op (suc a / 2) (b / 2) ≡ bitwise last op (suc a) b
  bitwise_low_digit a b =
      let h : suc a / 2 ≤ a = omega arith in
      omega (arith, digits_enough (suc a / 2) (b / 2) (suc a / 2) a h (omega arith))

-- Disjunction is the larger of two digits, exclusive disjunction their sum.
pub bit_or_digit : (m n : ℕ) → max (m % 2) (n % 2) + 2 * bit_or (m / 2) (n / 2) ≡ bit_or m n
bit_or_digit (suc m) n = simp bit_or-bitwise (bitwise_low_digit (λ last. last) max m n)
bit_or_digit zero n = simp bit_or-bitwise (omega arith)

differ_mod : (x y : ℕ) → x < 2 → y < 2 → differ x y ≡ (x + y) % 2
differ_mod zero y h k = omega arith
differ_mod (suc zero) zero h k = refl
differ_mod (suc zero) (suc zero) h k = refl
differ_mod (suc zero) (suc (suc y)) h k = absurd (omega arith)
differ_mod (suc (suc x)) y h k = absurd (omega arith)

bit_xor_step : (a b : ℕ) → bit_xor a b ≡ bit_xor (a / 2) (b / 2) * 2 + (a + b) % 2
bit_xor_step zero b = simp bit_xor-bitwise (omega arith)
bit_xor_step (suc a) b = simp bit_xor-bitwise (
    omega (
      arith,
      bitwise_low_digit (λ y. y) differ a b,
      differ_mod (suc a % 2) (b % 2) (omega arith) (omega arith),
    ))

pub bit_xor_half : (a b : ℕ) → bit_xor a b / 2 ≡ bit_xor (a / 2) (b / 2)
bit_xor_half a b = omega (arith, bit_xor_step a b)

pub bit_xor_low : (a b : ℕ) → bit_xor a b % 2 ≡ (a + b) % 2
bit_xor_low a b = omega (arith, bit_xor_step a b)
