-- ===== src/Codec/Xxh.antt =====
-- The 64-bit payload hash of src/record_codec.cc (`xxh64`, with seed 0, as the callers use it).
use Prim.Native.Nat.{bit_or, bit_xor}
use seastar_log_engine.Bits.{bit_xor-lt}
use seastar_log_engine.Prelude.{
  ℕ, zero, suc, ◌+◌, ◌-◌, ◌*◌, ◌/◌, ◌%◌, ◌^◌, ◌<◌, ◌≡◌, refl, Bool, true, false, arith, [], ◌∷◌,
  Bytes, codes, length, drop, leb, if◌then◌else◌, u64_modulus,
}

abbrev xxh64_prime1 : ℕ
xxh64_prime1 = 11400714785074694791

abbrev xxh64_prime2 : ℕ
xxh64_prime2 = 14029467366897019727

abbrev xxh64_prime3 : ℕ
xxh64_prime3 = 1609587929392839161

abbrev xxh64_prime4 : ℕ
xxh64_prime4 = 9650029242287828579

abbrev xxh64_prime5 : ℕ
xxh64_prime5 = 2870177450012600261

rotl64 : ℕ → ℕ → ℕ
rotl64 value count = bit_or (value * 2 ^ count % u64_modulus) (value / 2 ^ (64 - count))

-- `memcpy` of `n` bytes into a little-endian integer.
read_le : ℕ → Bytes → ℕ
read_le zero s = 0
read_le (suc n) [] = 0
read_le (suc n) (b ∷ s) = b + 256 * read_le n s

xxh64_round : ℕ → ℕ → ℕ
unfolding rotl64
xxh64_round acc input =
    rotl64 ((acc + input * xxh64_prime2) % u64_modulus) 31 * xxh64_prime1 % u64_modulus

xxh64_merge_round : ℕ → ℕ → ℕ
unfolding xxh64_round
xxh64_merge_round acc val =
    (bit_xor acc (xxh64_round 0 val) * xxh64_prime1 + xxh64_prime4) % u64_modulus

xxh64_avalanche : ℕ → ℕ
xxh64_avalanche hash =
    let a = bit_xor hash (hash / 2 ^ 33) * xxh64_prime2 % u64_modulus in
    let b = bit_xor a (a / 2 ^ 29) * xxh64_prime3 % u64_modulus in bit_xor b (b / 2 ^ 32)

record Lanes : Type 0 where
  v1 : ℕ
  v2 : ℕ
  v3 : ℕ
  v4 : ℕ

-- The `do … while (current <= limit)` loop runs once for each whole stripe of 32 bytes.
xxh64_stripes : ℕ → Lanes → Bytes → Lanes
unfolding xxh64_round read_le
xxh64_stripes zero v s = v
xxh64_stripes (suc n) v s =
    xxh64_stripes n
      (record {
        v1 = xxh64_round v.v1 (read_le 8 s);
        v2 = xxh64_round v.v2 (read_le 8 (drop 8 s));
        v3 = xxh64_round v.v3 (read_le 8 (drop 16 s));
        v4 = xxh64_round v.v4 (read_le 8 (drop 24 s));
      })
      (drop 32 s)

xxh64_lanes : Bytes → ℕ
unfolding xxh64_stripes xxh64_merge_round rotl64
xxh64_lanes s =
    let v =
      xxh64_stripes (length s / 32)
        (record {
          v1 = (xxh64_prime1 + xxh64_prime2) % u64_modulus;
          v2 = xxh64_prime2;
          v3 = 0;
          v4 = u64_modulus - xxh64_prime1;
        })
        s in
    let mixed = (rotl64 v.v1 1 + rotl64 v.v2 7 + rotl64 v.v3 12 + rotl64 v.v4 18) % u64_modulus in
    xxh64_merge_round
      (xxh64_merge_round (xxh64_merge_round (xxh64_merge_round mixed v.v1) v.v2) v.v3) v.v4

-- The `while (current + 8 <= end)` loop, once for each whole group of eight bytes.
xxh64_eights : ℕ → ℕ → Bytes → ℕ
unfolding xxh64_round rotl64 read_le
xxh64_eights zero hash s = hash
xxh64_eights (suc n) hash s =
    xxh64_eights n
      ((rotl64 (bit_xor hash (xxh64_round 0 (read_le 8 s))) 27 * xxh64_prime1 + xxh64_prime4)
        % u64_modulus)
      (drop 8 s)

-- The `while (current < end)` loop.
xxh64_ones : ℕ → Bytes → ℕ
unfolding rotl64
xxh64_ones hash [] = hash
xxh64_ones hash (b ∷ s) =
    xxh64_ones
      (rotl64 (bit_xor hash (b * xxh64_prime5 % u64_modulus)) 11 * xxh64_prime1 % u64_modulus) s

pub xxh64 : Bytes → ℕ
unfolding xxh64_lanes xxh64_eights xxh64_ones xxh64_avalanche rotl64 read_le
xxh64 s =
    let start = (if leb 32 (length s) then xxh64_lanes s else xxh64_prime5) in
    let rest = drop (length s / 32 * 32) s in
    let eights = length rest / 8 in
    let hash = xxh64_eights eights ((start + length s) % u64_modulus) rest in
    let last = drop (eights * 8) rest in
    if leb 4 (length last)
    then xxh64_avalanche (
        xxh64_ones
          ((rotl64 (bit_xor hash (read_le 4 last * xxh64_prime1 % u64_modulus)) 23 * xxh64_prime2
              + xxh64_prime3)
            % u64_modulus)
          (drop 4 last))
    else xxh64_avalanche (xxh64_ones hash last)

ite-lt :
    (b : Bool) (x y : ℕ) → x < u64_modulus → y < u64_modulus → (if b then x else y) < u64_modulus
ite-lt true x y h k = h
ite-lt false x y h k = k

xxh64_avalanche-lt : (hash : ℕ) → xxh64_avalanche hash < u64_modulus
unfolding xxh64_avalanche
xxh64_avalanche-lt hash =
    let a = bit_xor hash (hash / 2 ^ 33) * xxh64_prime2 % u64_modulus in
    let b = bit_xor a (a / 2 ^ 29) * xxh64_prime3 % u64_modulus in
    bit_xor-lt 64 b (b / 2 ^ 32) (omega arith) (omega arith)

pub xxh64-lt : (s : Bytes) → xxh64 s < u64_modulus
unfolding xxh64
xxh64-lt s = ite-lt _ _ _ (xxh64_avalanche-lt _) (xxh64_avalanche-lt _)

-- Published values of XXH64 with seed 0.
xxh64_empty : xxh64 [] ≡ 0xef46db3751d8e999
unfolding xxh64
xxh64_empty = refl

xxh64_long : xxh64 (codes "Nobody inspects the spammish repetition") ≡ 0xfbcea83c8a378bf1
unfolding xxh64
xxh64_long = refl
