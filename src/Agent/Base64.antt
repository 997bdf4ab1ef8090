-- ===== src/Agent/Base64.antt =====
-- `base64_encode` and `base64_decode` of src/agent_support.cc. The parts of a byte have no bit in common,
-- so that `|` is a sum.
use seastar_log_engine.Prelude.{
  ℕ, zero, suc, ◌+◌, ◌-◌, ◌*◌, ◌/◌, ◌%◌, ◌<◌, ◌≢◌, ◌≡◌, refl, ap, ◌∙◌, Bool, true, false, not, ◌&&◌,
  Option, none, some, [], ◌∷◌, ◌++◌, Bytes, codes, get_or, leb, ◌==◌, if◌then◌else◌, ◌>>=◌, arith,
  All,
}

pub alphabet : Bytes
alphabet = codes "ABCDEFGHIJKLMNOPQRSTUVWXYZabcdefghijklmnopqrstuvwxyz0123456789+/"

-- `kBase64Alphabet[k]`.
pub symbol : ℕ → ℕ
symbol k = get_or alphabet k 0

-- The value of a symbol, `none` for -1.
pub base64_value : ℕ → Option ℕ
base64_value ch =
    if leb b'A' ch && leb ch b'Z'
    then some (ch - b'A')
    else if leb b'a' ch && leb ch b'z'
    then some (ch - b'a' + 26)
    else if leb b'0' ch && leb ch b'9'
    then some (ch - b'0' + 52)
    else if ch == b'+'
    then some 62
    else if ch == b'/'
    then some 63
    else none

-- The four symbols of three bytes.
pub first_symbol : ℕ → ℕ
first_symbol b0 = symbol (b0 / 4 % 64)

pub second_symbol : ℕ → ℕ → ℕ
second_symbol b0 b1 = symbol (b0 % 4 * 16 + b1 / 16 % 16)

pub third_symbol : ℕ → ℕ → ℕ
third_symbol b1 b2 = symbol (b1 % 16 * 4 + b2 / 64 % 4)

pub fourth_symbol : ℕ → ℕ
fourth_symbol b2 = symbol (b2 % 64)

pub base64_encode : Bytes → Bytes
base64_encode [] = []
base64_encode (b0 ∷ []) = first_symbol b0 ∷ second_symbol b0 0 ∷ b'=' ∷ b'=' ∷ []
base64_encode (b0 ∷ b1 ∷ []) = first_symbol b0 ∷ second_symbol b0 b1 ∷ third_symbol b1 0 ∷ b'=' ∷ []
base64_encode (b0 ∷ b1 ∷ b2 ∷ input) =
    first_symbol b0
    ∷ second_symbol b0 b1
    ∷ third_symbol b1 b2
    ∷ fourth_symbol b2
    ∷ base64_encode input

-- The value of a symbol that may be the padding, which counts as 0.
pub padded_value : ℕ → Option ℕ
padded_value ch = if ch == b'=' then some 0 else base64_value ch

-- The bytes of four symbols; `none` is the exception.
pub decode_group : ℕ → ℕ → ℕ → ℕ → Option Bytes
decode_group s0 s1 s2 s3 = do
  v0 ← base64_value s0
  v1 ← base64_value s1
  v2 ← padded_value s2
  v3 ← padded_value s3
  let pad2 = s2 == b'='
  let pad3 = s3 == b'='
  if pad2 && not pad3
      then none
      else some (
          ((v0 * 4 + v1 / 16) % 256 ∷ [])
          ++ (if pad2 then [] else (v1 % 16 * 16 + v2 / 4) % 256 ∷ [])
          ++ (if pad3 then [] else (v2 % 4 * 64 + v3) % 256 ∷ []))

pub base64_decode : Bytes → Option Bytes
base64_decode [] = some []
base64_decode (s0 ∷ s1 ∷ s2 ∷ s3 ∷ input) =
    let rest = base64_decode input in
    decode_group s0 s1 s2 s3 >>= (λ bytes. rest >>= (λ output. some (bytes ++ output)))
base64_decode _ = none

-- What holds of all numbers below a bound can be tested.
holds_below : (ℕ → Bool) → ℕ → Bool
holds_below test zero = true
holds_below test (suc n) = test n && holds_below test n

holds_below-test : (test : ℕ → Bool) (n k : ℕ) → holds_below test n ≡ true → k < n → test k ≡ true
unfolding holds_below
holds_below-test test zero k h l = absurd (omega (arith, l))
holds_below-test test (suc n) k h l =
    let first : test n ≡ true = ground (arith, h) in
    let below : holds_below test n ≡ true = ground (arith, h) in
    elim (k == n) as (λ b. (k == n) ≡ b → test k ≡ true) [
      | true ↦ λ e. let same : k ≡ n = ground (arith, e) in ap test same ∙ first
      | false ↦ λ e. holds_below-test test n k below (ground (arith, e, l))
    ]
      refl

symbol_test : ℕ → Bool
symbol_test k =
    (elim (base64_value (symbol k)) [ none ↦ false | some v ↦ v == k ])
    && (not (symbol k == b'=') && not (symbol k == b'\n'))

symbols_tested : holds_below symbol_test 64 ≡ true
unfolding holds_below symbol_test base64_value symbol alphabet
symbols_tested = refl

symbol_test-true : (k : ℕ) → k < 64 → symbol_test k ≡ true
symbol_test-true k h = holds_below-test symbol_test 64 k symbols_tested h

base64_value-symbol : (k : ℕ) → k < 64 → base64_value (symbol k) ≡ some k
unfolding symbol_test
base64_value-symbol k h = ground (arith, symbol_test-true k h)

symbol-pad : (k : ℕ) → k < 64 → (symbol k == b'=') ≡ false
unfolding symbol_test
symbol-pad k h = ground (arith, symbol_test-true k h)

symbol-line : (k : ℕ) → k < 64 → symbol k ≢ b'\n'
unfolding symbol_test
symbol-line k h = ground (arith, symbol_test-true k h)

padded_value-symbol : (k : ℕ) → k < 64 → padded_value (symbol k) ≡ some k
unfolding padded_value
padded_value-symbol k h = rw (symbol-pad k h) (base64_value-symbol k h)

-- Four symbols of three bytes give them back, and so do the shorter groups.
decode_group-three :
    (b0 b1 b2 : ℕ)
    → b0 < 256
    → b1 < 256
    → b2 < 256
    → decode_group (first_symbol b0) (second_symbol b0 b1) (third_symbol b1 b2) (fourth_symbol b2)
      ≡ some (b0 ∷ b1 ∷ b2 ∷ [])
unfolding decode_group first_symbol second_symbol third_symbol fourth_symbol
decode_group-three b0 b1 b2 h0 h1 h2 =
    let k0 = b0 / 4 % 64 in
    let k1 = b0 % 4 * 16 + b1 / 16 % 16 in
    let k2 = b1 % 16 * 4 + b2 / 64 % 4 in
    let k3 = b2 % 64 in
    let l0 : k0 < 64 = omega arith in
    let l1 : k1 < 64 = omega arith in
    let l2 : k2 < 64 = omega arith in
    let l3 : k3 < 64 = omega arith in
    let e0 : (k0 * 4 + k1 / 16) % 256 ≡ b0 = omega arith in
    let e1 : (k1 % 16 * 16 + k2 / 4) % 256 ≡ b1 = omega arith in
    let e2 : (k2 % 4 * 64 + k3) % 256 ≡ b2 = omega arith in
    rw
      (
        base64_value-symbol k0 l0,
        base64_value-symbol k1 l1,
        padded_value-symbol k2 l2,
        padded_value-symbol k3 l3,
        symbol-pad k2 l2,
        symbol-pad k3 l3,
        e0,
        e1,
        e2,
      )
      refl

decode_group-two :
    (b0 b1 : ℕ)
    → b0 < 256
    → b1 < 256
    → decode_group (first_symbol b0) (second_symbol b0 b1) (third_symbol b1 0) b'='
      ≡ some (b0 ∷ b1 ∷ [])
unfolding decode_group first_symbol second_symbol third_symbol padded_value
decode_group-two b0 b1 h0 h1 =
    let k0 = b0 / 4 % 64 in
    let k1 = b0 % 4 * 16 + b1 / 16 % 16 in
    let k2 = b1 % 16 * 4 + 0 / 64 % 4 in
    let l0 : k0 < 64 = omega arith in
    let l1 : k1 < 64 = omega arith in
    let l2 : k2 < 64 = omega arith in
    let e0 : (k0 * 4 + k1 / 16) % 256 ≡ b0 = omega arith in
    let e1 : (k1 % 16 * 16 + k2 / 4) % 256 ≡ b1 = omega arith in
    rw
      (
        base64_value-symbol k0 l0,
        base64_value-symbol k1 l1,
        symbol-pad k2 l2,
        base64_value-symbol k2 l2,
        e0,
        e1,
      )
      refl

decode_group-one :
    (b0 : ℕ)
    → b0 < 256
    → decode_group (first_symbol b0) (second_symbol b0 0) b'=' b'=' ≡ some (b0 ∷ [])
unfolding decode_group first_symbol second_symbol padded_value
decode_group-one b0 h0 =
    let k0 = b0 / 4 % 64 in
    let k1 = b0 % 4 * 16 + 0 / 16 % 16 in
    let l0 : k0 < 64 = omega arith in
    let l1 : k1 < 64 = omega arith in
    let e0 : (k0 * 4 + k1 / 16) % 256 ≡ b0 = omega arith in
    rw (base64_value-symbol k0 l0, base64_value-symbol k1 l1, e0) refl

-- A text whose elements are bytes is decoded to the same text after it was encoded.
pub base64_decode-base64_encode :
    (input : Bytes) → All (λ b. b < 256) input → base64_decode (base64_encode input) ≡ some input
unfolding base64_decode base64_encode
base64_decode-base64_encode [] h = refl
base64_decode-base64_encode (b0 ∷ []) h = rw (decode_group-one b0 h.0) refl
base64_decode-base64_encode (b0 ∷ b1 ∷ []) h = rw (decode_group-two b0 b1 h.0 h.1.0) refl
base64_decode-base64_encode (b0 ∷ b1 ∷ b2 ∷ input) h =
    rw (decode_group-three b0 b1 b2 h.0 h.1.0 h.1.1.0)
      (rw (base64_decode-base64_encode input h.1.1.1) refl)

-- Nothing in the encoded text ends a line.
pub base64_encode-Lacks : (input : Bytes) → All (λ c. c ≢ b'\n') (base64_encode input)
unfolding base64_encode first_symbol second_symbol third_symbol fourth_symbol
base64_encode-Lacks [] = tt
base64_encode-Lacks (b0 ∷ []) =
    (symbol-line _ (omega arith), (symbol-line _ (omega arith), omega arith))
base64_encode-Lacks (b0 ∷ b1 ∷ []) = (
  symbol-line _ (omega arith),
  (symbol-line _ (omega arith), (symbol-line _ (omega arith), omega arith)),
)
base64_encode-Lacks (b0 ∷ b1 ∷ b2 ∷ input) = (
  symbol-line _ (omega arith),
  (
    symbol-line _ (omega arith),
    (symbol-line _ (omega arith), (symbol-line _ (omega arith), base64_encode-Lacks input)),
  ),
)
