-- ===== src/Queue/Timestamp.antt =====
-- `format_timestamp` of src/async_writer.cc. The local time of a second, as `localtime_r` and `snprintf`
-- write it, is a parameter.
use native.Mathlib.Nat.{pow-suc}
use seastar_log_engine.Prelude.{
  ℕ, zero, suc, ◌+◌, ◌-◌, ◌*◌, ◌/◌, ◌%◌, ◌^◌, ◌<◌, ◌≡◌, refl, ap, ◌∙◌, inl, inr, Bool, true,
  Bool-cases, not, ◌||◌, [], ◌∷◌, ◌++◌, arith, Bytes, length, length-append, take, ltb, ◌==◌,
  if◌then◌else◌,
}

-- The last digit is written first, at the end.
pub write_fixed_width_decimal : ℕ → ℕ → Bytes
write_fixed_width_decimal value zero = []
write_fixed_width_decimal value (suc width) =
    write_fixed_width_decimal (value / 10) width ++ (b'0' + value % 10) ∷ []

pub record TimestampCache : Type 0 where
  pub second : ℕ
  pub prefix : Bytes
  pub initialized : Bool

abbrev pub prefix_size : ℕ
prefix_size = 20

-- The cache after the second of the clock is looked up.
pub refresh : (ℕ → Bytes) → ℕ → TimestampCache → TimestampCache
refresh local_time current_second cache =
    if not cache.initialized || not (cache.second == current_second)
    then record {
      second = current_second;
      prefix = take prefix_size (local_time current_second);
      initialized = ltb 0 (length (local_time current_second));
    }
    else cache

pub format_timestamp : (ℕ → Bytes) → ℕ → TimestampCache → Bytes × TimestampCache
format_timestamp local_time epoch_micros cache =
    let cache' = refresh local_time (epoch_micros / 1_000_000) cache in
    (
      take prefix_size cache'.prefix ++ write_fixed_width_decimal (epoch_micros % 1_000_000) 6,
      cache',
    )

-- The number that decimal digits stand for.
pub decimal_value : ℕ → Bytes → ℕ
decimal_value acc [] = acc
decimal_value acc (c ∷ s) = decimal_value (10 * acc + (c - b'0')) s

decimal_value-append :
    (acc : ℕ) (s t : Bytes) → decimal_value acc (s ++ t) ≡ decimal_value (decimal_value acc s) t
unfolding decimal_value
decimal_value-append acc [] t = refl
decimal_value-append acc (c ∷ s) t = decimal_value-append (10 * acc + (c - b'0')) s t

pub length-write_fixed_width_decimal :
    (value width : ℕ) → length (write_fixed_width_decimal value width) ≡ width
unfolding write_fixed_width_decimal
length-write_fixed_width_decimal value zero = refl
length-write_fixed_width_decimal value (suc width) = omega (
  arith,
  length-append (write_fixed_width_decimal (value / 10) width) ((b'0' + value % 10) ∷ []),
  length-write_fixed_width_decimal (value / 10) width,
)

-- The digits are those of the number, when it fits.
pub decimal_value-write_fixed_width_decimal :
    (value width : ℕ)
    → value < 10 ^ width
    → decimal_value 0 (write_fixed_width_decimal value width) ≡ value
unfolding write_fixed_width_decimal decimal_value
decimal_value-write_fixed_width_decimal value zero h = omega (arith, h)
decimal_value-write_fixed_width_decimal value (suc width) h =
    let front = write_fixed_width_decimal (value / 10) width in
    let ih =
      decimal_value-write_fixed_width_decimal (value / 10) width
        (omega (arith, h, pow-suc 10 width)) in
    decimal_value-append 0 front ((b'0' + value % 10) ∷ []) ∙ omega (arith, ih)

-- A cache that was filled for its second.
abbrev pub IsFresh : (ℕ → Bytes) → TimestampCache → Type 0
IsFresh local_time cache =
    cache.initialized ≡ true → cache.prefix ≡ take prefix_size (local_time cache.second)

-- The cache is never seen: the text is the local time of the second and the microseconds in it.
format_timestamp_lem :
    (local_time : ℕ → Bytes) (epoch_micros : ℕ) (cache : TimestampCache)
    → IsFresh local_time cache
    → let result = format_timestamp local_time epoch_micros cache in
      (result.0
        ≡ take prefix_size (take prefix_size (local_time (epoch_micros / 1_000_000)))
          ++ write_fixed_width_decimal (epoch_micros % 1_000_000) 6)
      × IsFresh local_time result.1
unfolding format_timestamp refresh
format_timestamp_lem local_time epoch_micros cache fresh =
    let second = epoch_micros / 1_000_000 in
    let digits = write_fixed_width_decimal (epoch_micros % 1_000_000) 6 in
    elim (Bool-cases (not cache.initialized || not (cache.second == second))) [
      | inl stale ↦ rw stale (refl, λ _. refl)
      | inr hit ↦
          let known : cache.initialized ≡ true = ground arith in
          let same : cache.second ≡ second = ground arith in
          rw hit (
            ap (λ p. take prefix_size p ++ digits)
                (fresh known ∙ ap (λ n. take prefix_size (local_time n)) same),
            fresh,
          )
    ]
