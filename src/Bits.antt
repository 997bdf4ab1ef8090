-- ===== src/Bits.antt =====
-- Laws of exclusive or and of `|` on disjoint fields, for words of every width.
mod Step
use mathlib.Core.Path.{ap}
use native.Mathlib.Nat.{pow-suc}
use Prim.Native.Nat.{bit_or, bit_xor, bit_or-bitwise, bit_xor-bitwise}
pub use Step.{bit_or_digit, bit_xor_half, bit_xor_low}
use seastar_log_engine.Prelude.{
  ℕ, zero, suc, ◌+◌, ◌*◌, ◌/◌, ◌%◌, ◌^◌, ◌≤◌, ◌<◌, max, ◌≡◌, refl, sym, ◌∙◌, arith,
}

pub zero-bit_xor : (b : ℕ) → bit_xor 0 b ≡ b
zero-bit_xor b = simp bit_xor-bitwise

bit_xor-zero_bound : (n a : ℕ) → a ≤ n → bit_xor a 0 ≡ a
bit_xor-zero_bound zero a h = let e : a ≡ 0 = omega arith in rw e (zero-bit_xor 0)
bit_xor-zero_bound (suc n) a h =
    omega (arith, bit_xor_half a 0, bit_xor_low a 0, bit_xor-zero_bound n (a / 2) (omega arith))

pub bit_xor-zero : (a : ℕ) → bit_xor a 0 ≡ a
bit_xor-zero a = bit_xor-zero_bound a a (omega arith)

bit_xor_self_bound : (n a : ℕ) → a ≤ n → bit_xor a a ≡ 0
bit_xor_self_bound zero a h = let e : a ≡ 0 = omega arith in rw e (zero-bit_xor 0)
bit_xor_self_bound (suc n) a h =
    omega (arith, bit_xor_half a a, bit_xor_low a a, bit_xor_self_bound n (a / 2) (omega arith))

pub bit_xor_self : (a : ℕ) → bit_xor a a ≡ 0
bit_xor_self a = bit_xor_self_bound a a (omega arith)

bit_xor_comm_bound : (n a b : ℕ) → a ≤ n → b ≤ n → bit_xor a b ≡ bit_xor b a
bit_xor_comm_bound zero a b h k =
    let e : a ≡ 0 = omega arith in let d : b ≡ 0 = omega arith in rw (e, d)
bit_xor_comm_bound (suc n) a b h k = omega (
  arith,
  bit_xor_half a b,
  bit_xor_low a b,
  bit_xor_half b a,
  bit_xor_low b a,
  bit_xor_comm_bound n (a / 2) (b / 2) (omega arith) (omega arith),
)

pub bit_xor_comm : (a b : ℕ) → bit_xor a b ≡ bit_xor b a
bit_xor_comm a b = bit_xor_comm_bound (a + b) a b (omega arith) (omega arith)

bit_xor_assoc_bound :
    (n a b c : ℕ) → a ≤ n → b ≤ n → c ≤ n → bit_xor (bit_xor a b) c ≡ bit_xor a (bit_xor b c)
bit_xor_assoc_bound zero a b c h k l =
    let e : a ≡ 0 = omega arith in rw (e, zero-bit_xor b, zero-bit_xor (bit_xor b c))
bit_xor_assoc_bound (suc n) a b c h k l = omega (
  arith,
  bit_xor_half (bit_xor a b) c,
  bit_xor_low (bit_xor a b) c,
  bit_xor_half a (bit_xor b c),
  bit_xor_low a (bit_xor b c),
  bit_xor_low a b,
  bit_xor_low b c,
  ap (λ t. bit_xor t (c / 2)) (bit_xor_half a b),
  ap (λ t. bit_xor (a / 2) t) (bit_xor_half b c),
  bit_xor_assoc_bound n (a / 2) (b / 2) (c / 2) (omega arith) (omega arith) (omega arith),
)

pub bit_xor_assoc : (a b c : ℕ) → bit_xor (bit_xor a b) c ≡ bit_xor a (bit_xor b c)
bit_xor_assoc a b c =
    bit_xor_assoc_bound (a + b + c) a b c (omega arith) (omega arith) (omega arith)

pub bit_xor_swap :
    (a b c d : ℕ) → bit_xor (bit_xor a b) (bit_xor c d) ≡ bit_xor (bit_xor a c) (bit_xor b d)
bit_xor_swap a b c d = rw (
  bit_xor_assoc a b (bit_xor c d),
  ← bit_xor_assoc b c d,
  bit_xor_comm b c,
  bit_xor_assoc c b d,
  ← bit_xor_assoc a c (bit_xor b d),
)

-- Applying the same word twice gives the other one back.
pub bit_xor_cancel : (a b : ℕ) → bit_xor (bit_xor a b) b ≡ a
bit_xor_cancel a b = rw (bit_xor_assoc a b b, bit_xor_self b, bit_xor-zero a)

pub two_pow : (w k : ℕ) → w * 2 ^ suc k ≡ 2 * (w * 2 ^ k)
two_pow w k = omega (arith, ap (λ t. w * t) (pow-suc 2 k))

-- A word below 2 ^ k and one shifted left by k have no digit in common.
pub bit_xor_disjoint : (k a w : ℕ) → a < 2 ^ k → bit_xor a (w * 2 ^ k) ≡ a + w * 2 ^ k
bit_xor_disjoint zero a w h =
    let e : a ≡ 0 = omega arith in rw (e, zero-bit_xor (w * 2 ^ 0)) (omega arith)
bit_xor_disjoint (suc k) a w h = ground (
  arith,
  bit_xor_half a (w * 2 ^ suc k),
  bit_xor_low a (w * 2 ^ suc k),
  two_pow w k,
  pow-suc 2 k,
  bit_xor_disjoint k (a / 2) w (omega (arith, pow-suc 2 k)),
)

zero-bit_or : (b : ℕ) → bit_or 0 b ≡ b
zero-bit_or b = simp bit_or-bitwise

pub bit_or_disjoint : (k a w : ℕ) → a < 2 ^ k → bit_or a (w * 2 ^ k) ≡ a + w * 2 ^ k
bit_or_disjoint zero a w h =
    let e : a ≡ 0 = omega arith in rw (e, zero-bit_or (w * 2 ^ 0)) (omega arith)
bit_or_disjoint (suc k) a w h = ground (
  arith,
  bit_or_digit a (w * 2 ^ suc k),
  two_pow w k,
  pow-suc 2 k,
  bit_or_disjoint k (a / 2) w (omega (arith, pow-suc 2 k)),
)

pub bit_xor-lt : (k a b : ℕ) → a < 2 ^ k → b < 2 ^ k → bit_xor a b < 2 ^ k
bit_xor-lt zero a b h l = let e : a ≡ 0 = omega arith in rw (e, zero-bit_xor b) l
bit_xor-lt (suc k) a b h l = omega (
  arith,
  pow-suc 2 k,
  bit_xor_half a b,
  bit_xor-lt k (a / 2) (b / 2) (omega (arith, pow-suc 2 k)) (omega (arith, pow-suc 2 k)),
)
