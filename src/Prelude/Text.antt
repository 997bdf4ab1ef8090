-- ===== src/Prelude/Text.antt =====
-- Byte strings: literals, and what the program uses of std::string_view, std::to_chars and
-- std::from_chars.
use Prim.Native.Nat.{ℕ, zero, suc, ◌+◌, ◌-◌, ◌*◌, ◌/◌, ◌%◌, ◌^◌}
use Prim.Native.Char.{code}
use Prim.Native.String.{String}
use mathlib.Core.Bool.{Bool, true, false, ◌&&◌}
use mathlib.Core.Option
use mathlib.Core.Option.{Option, none, some}
use mathlib.Core.List.{List, [], ◌∷◌, ◌++◌}
use seastar_log_engine.Prelude.Tests.{◌==◌, ltb, leb, if◌then◌else◌}

abbrev pub Bytes : Type 0
Bytes = List ℕ

-- The code points of a literal, which are its bytes when it is ASCII.
abbrev pub codes : String → Bytes
codes String.[] = []
codes (String.◌∷◌ c s) = code c ∷ codes s

abbrev pub bytes_eq : Bytes → Bytes → Bool
bytes_eq [] [] = true
bytes_eq [] (b ∷ bs) = false
bytes_eq (a ∷ s) [] = false
bytes_eq (a ∷ s) (b ∷ t) = a == b && bytes_eq s t

-- `std::string::operator<`.
abbrev pub bytes_lt : Bytes → Bytes → Bool
bytes_lt s [] = false
bytes_lt [] (b ∷ bs) = true
bytes_lt (a ∷ s) (b ∷ t) = if a == b then bytes_lt s t else ltb a b

abbrev pub is_empty : Bytes → Bool
is_empty [] = true
is_empty (b ∷ bs) = false

-- `s.rfind(prefix, 0) == 0`.
abbrev pub starts_with : Bytes → Bytes → Bool
starts_with [] s = true
starts_with (p ∷ ps) [] = false
starts_with (p ∷ ps) (c ∷ s) = p == c && starts_with ps s

-- `s.find(c)`; `none` is npos.
abbrev pub find_byte : ℕ → Bytes → Option ℕ
find_byte c [] = none
find_byte c (d ∷ s) = if d == c then some 0 else Option.map suc (find_byte c s)

-- `s.find(needle)` for a needle with at least one byte.
abbrev pub find_text : Bytes → Bytes → Option ℕ
find_text needle [] = none
find_text needle (d ∷ s) =
    if starts_with needle (d ∷ s) then some 0 else Option.map suc (find_text needle s)

-- `std::to_chars(…, 10)` and `std::to_string`, with the rounds that a number of 64 bits can need.
abbrev pub decimal_rounds : ℕ
decimal_rounds = 20

unfoldable pub decimal_digits : ℕ → ℕ → Bytes
decimal_digits zero n = []
decimal_digits (suc rounds) n =
    let rest = decimal_digits rounds (n / 10) in
    if ltb n 10 then (b'0' + n) ∷ [] else rest ++ (b'0' + n % 10) ∷ []

unfoldable pub to_decimal : ℕ → Bytes
to_decimal n = decimal_digits decimal_rounds n

-- The value of a digit of `std::from_chars`, in base 10 or 16.
abbrev pub digit_value : ℕ → ℕ → Option ℕ
digit_value base c =
    let v =
      if leb b'0' c && leb c b'9'
      then c - b'0'
      else if leb b'a' c && leb c b'f'
      then c - b'a' + 10
      else if leb b'A' c && leb c b'F'
      then c - b'A' + 10
      else 16 in
    if ltb v base then some v else none

-- The digits in front, with their number so far, and what follows them. The value grows without
-- bound here; the caller tests it against the type's largest value.
unfoldable pub scan_digits : ℕ → Bytes → ℕ → ℕ → ℕ × ℕ × Bytes
scan_digits base [] count value = (count, value, [])
scan_digits base (c ∷ s) count value = elim (digit_value base c) [
  | none ↦ (count, value, c ∷ s)
  | some d ↦ scan_digits base s (count + 1) (value * base + d)
]

-- `std::from_chars` into an unsigned type below `modulus`: the value with the unread rest, or `none`
-- where the error code is set (no digit, or a value out of range).
unfoldable pub from_chars : ℕ → ℕ → Bytes → Option (ℕ × Bytes)
from_chars base modulus s =
    let (count, value, rest) = scan_digits base s 0 0 in
    if count == 0 then none else if ltb value modulus then some (value, rest) else none

-- The test `ec == std::errc{} && ptr == end`, which all callers but one make.
unfoldable pub parse_whole : ℕ → ℕ → Bytes → Option ℕ
parse_whole base modulus s = elim (from_chars base modulus s) [
  | none ↦ none
  | some (value, rest) ↦ if is_empty rest then some value else none
]

abbrev pub u32_modulus : ℕ
u32_modulus = 2 ^ 32

abbrev pub u64_modulus : ℕ
u64_modulus = 2 ^ 64
