-- ===== src/Codec/Crc/Slicing.antt =====
-- The loop over eight bytes at a time computes the bit by bit checksum.
use Prim.Native.Nat.{bit_xor}
use seastar_log_engine.Prelude.{
  ℕ, ◌<◌, ◌≡◌, refl, [], ◌∷◌, ◌++◌, arith, All-append, Bytes, u32_modulus,
}
use seastar_log_engine.Bits.{bit_xor-lt}
use seastar_log_engine.Codec.Crc.{
  crc_bits, crc32_update_byte, crc32_tail, word_le, crc32_slice, crc32_update, crc32,
}
use seastar_log_engine.Codec.Crc.Word.{
  AreBytes, crc_reference, crc32_tail_lem, word_le_sum, word_le-word_xor, crc_step, crc_step_word,
  crc32_slice_lem, crc_step-lt,
}

-- One round of the loop takes eight bytes.
crc_step_eight :
    (v b0 b1 b2 b3 b4 b5 b6 b7 : ℕ)
    → v < u32_modulus
    → AreBytes (b0 ∷ b1 ∷ b2 ∷ b3 ∷ b4 ∷ b5 ∷ b6 ∷ b7 ∷ [])
    → crc32_slice (bit_xor v (word_le b0 b1 b2 b3)) (word_le b4 b5 b6 b7)
      ≡ crc_step
          (crc_step
            (crc_step (crc_step (crc_step (crc_step (crc_step (crc_step v b0) b1) b2) b3) b4) b5)
            b6)
          b7
crc_step_eight v b0 b1 b2 b3 b4 b5 b6 b7 hv (h0, (h1, (h2, (h3, (h4, (h5, (h6, (h7, _)))))))) =
    let word : word_le b0 b1 b2 b3 < u32_modulus =
      omega (arith, word_le_sum b0 b1 b2 b3 h0 h1 h2 h3) in
    rw (
      crc32_slice_lem (bit_xor v (word_le b0 b1 b2 b3)) b4 b5 b6 b7
          (bit_xor-lt 32 v (word_le b0 b1 b2 b3) hv word) h4 h5 h6 h7,
      word_le-word_xor b0 b1 b2 b3 h0 h1 h2 h3,
      crc_step_word v b0 b1 b2 b3,
    )

crc_step_eight-lt :
    (v b0 b1 b2 b3 b4 b5 b6 b7 : ℕ)
    → v < u32_modulus
    → AreBytes (b0 ∷ b1 ∷ b2 ∷ b3 ∷ b4 ∷ b5 ∷ b6 ∷ b7 ∷ [])
    → crc_step
        (crc_step
          (crc_step (crc_step (crc_step (crc_step (crc_step (crc_step v b0) b1) b2) b3) b4) b5)
          b6)
        b7
      < u32_modulus
crc_step_eight-lt v b0 b1 b2 b3 b4 b5 b6 b7 hv (h0, (h1, (h2, (h3, (h4, (h5, (h6, (h7, _)))))))) =
    crc_step-lt _ b7
      (crc_step-lt _ b6
        (crc_step-lt _ b5
          (crc_step-lt _ b4
            (crc_step-lt _ b3 (crc_step-lt _ b2 (crc_step-lt _ b1 (crc_step-lt v b0 hv h0) h1) h2)
              h3)
            h4)
          h5)
        h6)
      h7

-- On bytes, and from a 32-bit value, the loop over eight bytes at a time gives the bit by bit
-- checksum: the eight tables and the split of the words change nothing.
pub crc32_update_lem :
    (v : ℕ) (s : Bytes) → v < u32_modulus → AreBytes s → crc32_update v s ≡ crc_reference v s
unfolding crc32_update crc_reference crc_step
crc32_update_lem v (b0 ∷ b1 ∷ b2 ∷ b3 ∷ b4 ∷ b5 ∷ b6 ∷ b7 ∷ rest) hv
      (h0, (h1, (h2, (h3, (h4, (h5, (h6, (h7, hr)))))))) =
    let bytes : AreBytes (b0 ∷ b1 ∷ b2 ∷ b3 ∷ b4 ∷ b5 ∷ b6 ∷ b7 ∷ []) =
      (h0, (h1, (h2, (h3, (h4, (h5, (h6, (h7, tt)))))))) in
    rw (crc_step_eight v b0 b1 b2 b3 b4 b5 b6 b7 hv bytes) (
      crc32_update_lem
        (crc_step
          (crc_step
            (crc_step (crc_step (crc_step (crc_step (crc_step (crc_step v b0) b1) b2) b3) b4) b5)
            b6)
          b7)
        rest (crc_step_eight-lt v b0 b1 b2 b3 b4 b5 b6 b7 hv bytes) hr)
crc32_update_lem v s hv h = crc32_tail_lem v s h

crc_reference-append :
    (v : ℕ) (s t : Bytes) → crc_reference v (s ++ t) ≡ crc_reference (crc_reference v s) t
unfolding crc_reference
crc_reference-append v [] t = refl
crc_reference-append v (b ∷ s) t = crc_reference-append (crc_bits 8 (bit_xor v b)) s t

crc_reference-lt :
    (v : ℕ) (s : Bytes) → v < u32_modulus → AreBytes s → crc_reference v s < u32_modulus
unfolding crc_reference crc_step
crc_reference-lt v [] h k = h
crc_reference-lt v (b ∷ s) h k =
    crc_reference-lt (crc_bits 8 (bit_xor v b)) s (crc_step-lt v b h k.0) k.1

pub crc32_update-lt :
    (v : ℕ) (s : Bytes) → v < u32_modulus → AreBytes s → crc32_update v s < u32_modulus
crc32_update-lt v s h k = rw (crc32_update_lem v s h k) (crc_reference-lt v s h k)

-- The checksum can be computed piece by piece: the value after two pieces of bytes is that after
-- their concatenation, wherever the cut falls between the blocks of eight.
pub crc32_update-append :
    (v : ℕ) (s t : Bytes)
    → v < u32_modulus
    → AreBytes s
    → AreBytes t
    → crc32_update v (s ++ t) ≡ crc32_update (crc32_update v s) t
crc32_update-append v s t hv hs ht =
    rw
      (
        crc32_update_lem v s hv hs,
        crc32_update_lem v (s ++ t) hv (All-append (λ b. b < 256) s t hs ht),
        crc32_update_lem (crc_reference v s) t (crc_reference-lt v s hv hs) ht,
      )
      (crc_reference-append v s t)

pub crc32-lt : (s : Bytes) → AreBytes s → crc32 s < u32_modulus
unfolding crc32
crc32-lt s h =
    bit_xor-lt 32 (crc32_update 0xffffffff s) 0xffffffff
      (crc32_update-lt 0xffffffff s (omega arith) h) (omega arith)

pub crc32_update-one : (v c : ℕ) → crc32_update v (c ∷ []) ≡ crc32_update_byte v c
unfolding crc32_update crc32_tail
crc32_update-one v c = refl

pub crc32_update-nil : (v : ℕ) → crc32_update v [] ≡ v
unfolding crc32_update crc32_tail
crc32_update-nil v = refl

pub AreBytes-append : (s t : Bytes) → AreBytes s → AreBytes t → AreBytes (s ++ t)
AreBytes-append s t hs ht = All-append (λ b. b < 256) s t hs ht
