-- ===== src/Append/Retry.antt =====
-- The attempts of `write_aligned_buffer` of src/append_writer.cc.
use seastar_log_engine.Prelude.{
  ℕ, zero, suc, ◌≤◌, ◌<◌, ◌≡◌, refl, inl, inr, Bool, true, false, Bool-cases, arith,
}
use seastar_log_engine.Append.{retry}

module _ {D : Type 0} (attempt : D → Bool × D) where
  -- The file after some attempts.
  unfoldable pub after_attempts : ℕ → D → D
  after_attempts zero file = file
  after_attempts (suc n) file = after_attempts n (attempt file).1

  -- When one of the attempts would succeed on the file that the ones before it leave, the loop
  -- returns within them; it is then the first such attempt that ends it.
  retry-success :
      (count k : ℕ) (file : D)
      → k < count
      → (attempt (after_attempts k file)).0 ≡ true
      → (j : ℕ) × (j ≤ k)
        × (retry attempt count file ≡ (true, after_attempts (suc j) file))
        × ((attempt (after_attempts j file)).0 ≡ true)
  unfolding retry after_attempts
  retry-success zero k file h good = absurd (omega (arith, h))
  retry-success (suc count) zero file h good = (0, omega arith, rw (retry, good), good)
  retry-success (suc count) (suc k) file h good = elim (Bool-cases (attempt file).0) [
    | inl done ↦ (0, omega arith, rw (retry, done), done)
    | inr failed ↦
        let (j, le, result, first) =
          retry-success count k (attempt file).1 (omega (arith, h)) good in
        (suc j, omega (arith, le), rw (retry, failed) result, first)
  ]

  -- When every attempt fails, so does the loop, and it has made exactly the attempts allowed.
  pub retry-failure :
      (count : ℕ) (file : D)
      → ((k : ℕ) → k < count → (attempt (after_attempts k file)).0 ≡ false)
      → retry attempt count file ≡ (false, after_attempts count file)
  unfolding retry after_attempts
  retry-failure zero file bad = refl
  retry-failure (suc count) file bad =
      rw (retry, bad 0 (omega arith))
        (retry-failure count (attempt file).1 (λ k h. bad (suc k) (omega (arith, h))))
