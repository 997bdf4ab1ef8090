-- ===== src/Recovery/Stream/LastBytes.antt =====
-- The last bytes of a text, and how `append_to_trailing` of src/log_manager.cc keeps them.
use seastar_log_engine.Prelude.{
  ℕ, zero, suc, ◌+◌, ◌-◌, ◌≤◌, ◌<◌, ◌≡◌, refl, sym, ap, ◌∙◌, ◌⊎◌, inl, inr, [], ◌∷◌, ◌++◌,
  append-nil, append_assoc, arith, Bytes, length, length-append, length-drop, take, drop, ltb,
  if◌then◌else◌,
}
use seastar_log_engine.Recovery.Stream.{append_to_trailing, append_line}

-- The last bytes, at most `capacity` of them.
unfoldable pub last_bytes : ℕ → Bytes → Bytes
last_bytes capacity s = drop (length s - capacity) s

length-last_bytes : (capacity : ℕ) (s : Bytes) → length (last_bytes capacity s) ≤ capacity
unfolding last_bytes
length-last_bytes capacity s = omega (arith, length-drop (length s - capacity) s)

drop-append : (n : ℕ) (s rest : Bytes) → n ≤ length s → drop n (s ++ rest) ≡ drop n s ++ rest
drop-append zero s rest h = refl
drop-append (suc n) [] rest h = absurd (omega (arith, h))
drop-append (suc n) (c ∷ s) rest h = drop-append n s rest (omega (arith, h))

pub drop-past : (n : ℕ) (s rest : Bytes) → drop (length s + n) (s ++ rest) ≡ drop n rest
drop-past n [] rest = ap (λ k. drop k rest) (omega arith)
drop-past n (c ∷ s) rest =
    ap (λ k. drop k (c ∷ (s ++ rest))) {y = suc (length s + n)} (omega arith) ∙ drop-past n s rest

drop-nil : (n : ℕ) → drop {A = ℕ} n [] ≡ []
drop-nil zero = refl
drop-nil (suc n) = refl

pub drop-drop : (m n : ℕ) (s : Bytes) → drop m (drop n s) ≡ drop (n + m) s
drop-drop m zero s = ap (λ k. drop k s) (omega arith)
drop-drop m (suc n) [] = drop-nil m ∙ sym (drop-nil (suc n + m))
drop-drop m (suc n) (c ∷ s) =
    drop-drop m n s ∙ ap (λ k. drop k (c ∷ s)) {x = suc (n + m)} (omega arith)

-- Cutting early changes nothing.
last_bytes-append :
    (capacity : ℕ) (s rest : Bytes)
    → last_bytes capacity (last_bytes capacity s ++ rest) ≡ last_bytes capacity (s ++ rest)
unfolding last_bytes
last_bytes-append capacity s rest =
    let cut = length s - capacity in
    let early : drop cut s ++ rest ≡ drop cut (s ++ rest) =
      sym (drop-append cut s rest (omega arith)) in
    rw early (
      drop-drop (length (drop cut (s ++ rest)) - capacity) cut (s ++ rest)
      ∙ ap (λ k. drop k (s ++ rest))
          (omega (arith, length-drop cut (s ++ rest), length-append s rest)))

drop-all : (s : Bytes) → drop (length s) s ≡ []
drop-all [] = refl
drop-all (c ∷ s) = drop-all s

pub last_bytes-zero : (s : Bytes) → last_bytes 0 s ≡ []
unfolding last_bytes
last_bytes-zero s = ap (λ k. drop k s) {y = length s} (omega arith) ∙ drop-all s

last_bytes-few : (capacity : ℕ) (s : Bytes) → length s ≤ capacity → last_bytes capacity s ≡ s
unfolding last_bytes
last_bytes-few capacity s h = ap (λ k. drop k s) {y = 0} (omega (arith, h))

≤-cases : (a b : ℕ) → (a ≤ b) ⊎ (b < a)
≤-cases a b = omega arith

append_to_trailing-none :
    (capacity : ℕ) (trailing : Bytes) → append_to_trailing capacity trailing [] ≡ trailing
unfolding append_to_trailing
append_to_trailing-none capacity trailing = ground arith

append_to_trailing-many :
    (capacity : ℕ) (trailing bytes : Bytes)
    → 0 < capacity
    → capacity ≤ length bytes
    → append_to_trailing capacity trailing bytes ≡ drop (length bytes - capacity) bytes
unfolding append_to_trailing
append_to_trailing-many capacity trailing [] pos h = absurd (omega (arith, pos, h))
append_to_trailing-many capacity trailing (b ∷ bytes) pos h = ground arith

append_to_trailing-few :
    (capacity : ℕ) (trailing : Bytes) (b : ℕ) (bytes : Bytes)
    → length (b ∷ bytes) < capacity
    → append_to_trailing capacity trailing (b ∷ bytes)
      ≡ drop (length trailing + length (b ∷ bytes) - capacity) trailing ++ b ∷ bytes
unfolding append_to_trailing
append_to_trailing-few capacity trailing b bytes h =
    let overflow : (if ltb capacity (length trailing + length (b ∷ bytes))
          then length trailing + length (b ∷ bytes) - capacity
          else 0)
        ≡ length trailing + length (b ∷ bytes) - capacity =
      ground arith in
    rw (append_to_trailing, overflow) (ground arith)

append_to_trailing-zero :
    (capacity : ℕ) (trailing bytes : Bytes)
    → capacity ≡ 0
    → length trailing ≤ capacity
    → append_to_trailing capacity trailing bytes ≡ last_bytes capacity (trailing ++ bytes)
unfolding append_to_trailing
append_to_trailing-zero capacity [] bytes e h = rw e (sym (last_bytes-zero bytes))
append_to_trailing-zero capacity (c ∷ trailing) bytes e h = absurd (omega (arith, e, h))

append_to_trailing_lem :
    (capacity : ℕ) (trailing bytes : Bytes)
    → length trailing ≤ capacity
    → append_to_trailing capacity trailing bytes ≡ last_bytes capacity (trailing ++ bytes)
append_to_trailing_lem capacity trailing [] h =
    append_to_trailing-none capacity trailing
    ∙ sym (ap (last_bytes capacity) (append-nil trailing) ∙ last_bytes-few capacity trailing h)
append_to_trailing_lem capacity trailing (b ∷ bytes) h =
    elim (≤-cases capacity (length (b ∷ bytes))) [
      | inr little ↦
          append_to_trailing-few capacity trailing b bytes little
          ∙ sym (
              drop-append (length trailing + length (b ∷ bytes) - capacity) trailing (b ∷ bytes)
                (omega (arith, little)))
          ∙ unfold last_bytes in
            ap (λ k. drop k (trailing ++ b ∷ bytes))
              (omega (arith, length-append trailing (b ∷ bytes)))
      | inl much ↦ elim (≤-cases 1 capacity) [
        | inl pos ↦
            append_to_trailing-many capacity trailing (b ∷ bytes) pos much
            ∙ sym (drop-past (length (b ∷ bytes) - capacity) trailing (b ∷ bytes))
            ∙ unfold last_bytes in
              ap (λ k. drop k (trailing ++ b ∷ bytes))
                (omega (arith, much, length-append trailing (b ∷ bytes)))
        | inr none_kept ↦
            append_to_trailing-zero capacity trailing (b ∷ bytes) (omega (arith, none_kept)) h
      ]
    ]

-- A line and its line end, appended in two steps or in one.
append_line_lem :
    (capacity : ℕ) (trailing pending_line run : Bytes)
    → length trailing ≤ capacity
    → append_line capacity trailing pending_line run
      ≡ last_bytes capacity (trailing ++ ((pending_line ++ run) ++ b'\n' ∷ []))
unfolding append_line
append_line_lem capacity trailing [] run h =
    append_to_trailing_lem capacity trailing (run ++ b'\n' ∷ []) h
append_line_lem capacity trailing (c ∷ pending_line) run h =
    let line = c ∷ (pending_line ++ run) in
    rw (append_to_trailing_lem capacity trailing line h) (
      append_to_trailing_lem capacity (last_bytes capacity (trailing ++ line)) (b'\n' ∷ [])
        (length-last_bytes capacity (trailing ++ line))
      ∙ last_bytes-append capacity (trailing ++ line) (b'\n' ∷ [])
      ∙ ap (last_bytes capacity) (append_assoc trailing line (b'\n' ∷ [])))

pub append_line-seen :
    (capacity : ℕ) (trailing pending_line run seen : Bytes)
    → trailing ≡ last_bytes capacity seen
    → append_line capacity trailing pending_line run
      ≡ last_bytes capacity (seen ++ ((pending_line ++ run) ++ b'\n' ∷ []))
append_line-seen capacity trailing pending_line run seen h = rw h (
    append_line_lem capacity (last_bytes capacity seen) pending_line run
      (length-last_bytes capacity seen)
    ∙ last_bytes-append capacity seen ((pending_line ++ run) ++ b'\n' ∷ []))

pub last_bytes-nil : (capacity : ℕ) → last_bytes capacity [] ≡ []
last_bytes-nil capacity = last_bytes-few capacity [] (omega arith)

pub take-zero : (n : ℕ) (s : Bytes) → n ≡ 0 → take n s ≡ []
take-zero n s h = rw h
