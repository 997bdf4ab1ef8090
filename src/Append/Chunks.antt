-- ===== src/Append/Chunks.antt =====
-- The visits of chunks in src/append_writer.cc, as cuts of the bytes that the chunks hold together.
use seastar_log_engine.Prelude.{
  ℕ, zero, suc, ◌-◌, ◌≤◌, ◌<◌, ◌≡◌, refl, sym, ap, ◌∙◌, inl, inr, Bool-cases, List, [], ◌∷◌, ◌++◌,
  append_assoc, min, arith, Bytes, length, length-append, take, drop, leb, ◌==◌,
}
use seastar_log_engine.Recovery.Stream.Whole.{join_chunks}
use seastar_log_engine.Append.{
  visit_prefix, for_each_chunk_prefix, consume, collect_remaining_chunks, batch_bytes,
}

pub join_chunks-append : (a b : List Bytes) → join_chunks (a ++ b) ≡ join_chunks a ++ join_chunks b
unfolding join_chunks
join_chunks-append [] b = refl
join_chunks-append (s ∷ a) b =
    ap (λ r. s ++ r) (join_chunks-append a b) ∙ sym (append_assoc s (join_chunks a) (join_chunks b))

pub batch_bytes_lem : (batch : List Bytes) → batch_bytes batch ≡ length (join_chunks batch)
unfolding batch_bytes join_chunks
batch_bytes_lem [] = refl
batch_bytes_lem (s ∷ batch) =
    omega (arith, batch_bytes_lem batch, length-append s (join_chunks batch))

pub take-append : (n : ℕ) (s t : Bytes) → take n (s ++ t) ≡ take n s ++ take (n - length s) t
take-append n [] t = ap (λ k. take k t) {x = n} {y = n - 0} (omega arith) ∙ nil-take n
  where
    nil-take : (k : ℕ) → take (k - 0) t ≡ take k [] ++ take (k - 0) t
    nil-take zero = refl
    nil-take (suc k) = refl
take-append zero (c ∷ s) t = ap (λ k. take k t) {x = 0} (omega arith)
take-append (suc n) (c ∷ s) t =
    ap (λ r. c ∷ r) (take-append n s t)
    ∙ ap (λ k. c ∷ (take n s ++ take k t)) {x = n - length s} (omega arith)

pub drop-append : (n : ℕ) (s t : Bytes) → drop n (s ++ t) ≡ drop n s ++ drop (n - length s) t
drop-append n [] t = ap (λ k. drop k t) {x = n} {y = n - 0} (omega arith) ∙ nil-drop n
  where
    nil-drop : (k : ℕ) → drop (k - 0) t ≡ drop k [] ++ drop (k - 0) t
    nil-drop zero = refl
    nil-drop (suc k) = refl
drop-append zero (c ∷ s) t = ap (λ k. c ∷ (s ++ drop k t)) {x = 0} (omega arith)
drop-append (suc n) (c ∷ s) t =
    drop-append n s t ∙ ap (λ k. drop n s ++ drop k t) {x = n - length s} (omega arith)

take-nil : (n : ℕ) → take {A = ℕ} n [] ≡ []
take-nil zero = refl
take-nil (suc n) = refl

drop-nil : (n : ℕ) → drop {A = ℕ} n [] ≡ []
drop-nil zero = refl
drop-nil (suc n) = refl

pub take-min : (n : ℕ) (s : Bytes) → take (min n (length s)) s ≡ take n s
take-min n [] = take-nil (min n 0) ∙ sym (take-nil n)
take-min zero (c ∷ s) = ap (λ k. take k (c ∷ s)) {y = 0} (omega arith)
take-min (suc n) (c ∷ s) =
    ap (λ k. take k (c ∷ s)) {y = suc (min n (length s))} (omega arith)
    ∙ ap (λ r. c ∷ r) (take-min n s)

pub take-all : (n : ℕ) (s : Bytes) → length s ≤ n → take n s ≡ s
take-all n [] h = take-nil n
take-all zero (c ∷ s) h = absurd (omega (arith, h))
take-all (suc n) (c ∷ s) h = ap (λ r. c ∷ r) (take-all n s (omega (arith, h)))

pub drop-all : (n : ℕ) (s : Bytes) → length s ≤ n → drop n s ≡ []
drop-all n [] h = drop-nil n
drop-all zero (c ∷ s) h = absurd (omega (arith, h))
drop-all (suc n) (c ∷ s) h = drop-all n s (omega (arith, h))

visit_prefix_lem :
    (chunks : List Bytes) (bytes : ℕ)
    → ((visit_prefix chunks bytes).0 ≡ take bytes (join_chunks chunks))
      × ((visit_prefix chunks bytes).1 ≡ bytes - length (join_chunks chunks))
unfolding visit_prefix join_chunks
visit_prefix_lem [] bytes = (sym (take-nil bytes), omega arith)
visit_prefix_lem (s ∷ chunks) bytes =
    let ih = visit_prefix_lem chunks (bytes - min bytes (length s)) in
    elim (Bool-cases (bytes == 0)) [
      | inl zeroed ↦
          let e : bytes ≡ 0 = ground arith in
          rw zeroed (
            ap (λ n. take n (s ++ join_chunks chunks)) {x = 0} (omega (arith, e)),
            omega (arith, e),
          )
      | inr more ↦ rw more (
        ap (λ r. take (min bytes (length s)) s ++ r) ih.0
            ∙ ap (λ r. r ++ take (bytes - min bytes (length s)) (join_chunks chunks))
                (take-min bytes s)
            ∙ ap (λ n. take bytes s ++ take n (join_chunks chunks)) (omega arith)
            ∙ sym (take-append bytes s (join_chunks chunks)),
        omega (arith, ih.1, length-append s (join_chunks chunks)),
      )
    ]

-- The visitor is shown the first bytes of all chunks.
pub for_each_chunk_prefix_lem :
    (first second : List Bytes) (bytes : ℕ)
    → for_each_chunk_prefix first second bytes
      ≡ take bytes (join_chunks first ++ join_chunks second)
unfolding for_each_chunk_prefix
for_each_chunk_prefix_lem first second bytes =
    let ahead = visit_prefix_lem first bytes in
    let left = (visit_prefix first bytes).1 in
    ap (λ r. (visit_prefix first bytes).0 ++ r) (visit_prefix_lem second left).0
    ∙ ap (λ r. r ++ take left (join_chunks second)) ahead.0
    ∙ ap (λ n. take bytes (join_chunks first) ++ take n (join_chunks second)) ahead.1
    ∙ sym (take-append bytes (join_chunks first) (join_chunks second))

consume_lem :
    (chunks : List Bytes) (consumed : ℕ)
    → (join_chunks (consume chunks consumed).0 ≡ drop consumed (join_chunks chunks))
      × ((consume chunks consumed).1 ≡ consumed - length (join_chunks chunks))
unfolding consume join_chunks
consume_lem [] consumed = (sym (drop-nil consumed), omega arith)
consume_lem (s ∷ chunks) consumed = elim (Bool-cases (leb (length s) consumed)) [
  | inl all ↦
      let le : length s ≤ consumed = ground arith in
      let ih = consume_lem chunks (consumed - length s) in
      rw all (
        ih.0
            ∙ ap (λ r. r ++ drop (consumed - length s) (join_chunks chunks))
                (sym (drop-all consumed s le))
            ∙ sym (drop-append consumed s (join_chunks chunks)),
        omega (arith, ih.1, length-append s (join_chunks chunks)),
      )
  | inr part ↦
      let lt : consumed < length s = ground arith in
      let ih = consume_lem chunks 0 in
      rw part (
        ap (λ r. drop consumed s ++ r) ih.0
            ∙ ap (λ n. drop consumed s ++ drop n (join_chunks chunks)) {x = 0} (omega (arith, lt))
            ∙ sym (drop-append consumed s (join_chunks chunks)),
        omega (arith, ih.1, lt, length-append s (join_chunks chunks)),
      )
]

-- What remains is what stands behind the bytes that were consumed.
pub collect_remaining_chunks_lem :
    (first second : List Bytes) (consumed : ℕ)
    → join_chunks (collect_remaining_chunks first second consumed)
      ≡ drop consumed (join_chunks first ++ join_chunks second)
unfolding collect_remaining_chunks
collect_remaining_chunks_lem first second consumed =
    let ahead = consume_lem first consumed in
    let left = (consume first consumed).1 in
    join_chunks-append (consume first consumed).0 (consume second left).0
    ∙ ap (λ r. join_chunks (consume first consumed).0 ++ r) (consume_lem second left).0
    ∙ ap (λ r. r ++ drop left (join_chunks second)) ahead.0
    ∙ ap (λ n. drop consumed (join_chunks first) ++ drop n (join_chunks second)) ahead.1
    ∙ sym (drop-append consumed (join_chunks first) (join_chunks second))
