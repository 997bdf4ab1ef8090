-- ===== src/Health/Window.antt =====
-- `SlidingWindowCounter` against the list of the events that it was told.
use mathlib.Core.Path.{subst}
use native.Mathlib.Decide.{ℕ_discrete}
use seastar_log_engine.Prelude.{
  ℕ, zero, suc, ◌+◌, ◌%◌, ◌≤◌, ◌<◌, ◌≡◌, ◌≢◌, refl, sym, ◌∙◌, ap, ◌⊎◌, inr, List, [], ◌∷◌, arith,
  length, get_or, set, u64_modulus,
}
use seastar_log_engine.Health.{
  SlidingWindowCounter, num_windows, next_bucket, rotate_current_bucket, record_for_minute,
  recent_loop, recent_sum_for_minute,
}
use seastar_log_engine.Health.Buckets.{
  run, latest, IsChronological, total, recent_total, shares, recent_loop-shares, shares-set,
  shares-set_value, bucket_share_recent, bucket_share_old, Buckets-get_or, Buckets-set, get_or-le,
  set-le, Tracks-fresh, Event, Tracks,
}

-- The bucket that a minute is given is always the minute's residue.
next_bucket-mod :
    (history : List Event) (c : SlidingWindowCounter) (minute : ℕ)
    → Tracks history c
    → next_bucket c minute ≡ minute % num_windows
unfolding next_bucket
next_bucket-mod history c minute t = ground (arith, t.bucket, t.last)

get_or-set_self : (xs : List ℕ) (i v : ℕ) → i < length xs → get_or (set xs i v) i 0 ≡ v
get_or-set_self [] i v h = absurd (omega arith)
get_or-set_self (x ∷ xs) zero v h = refl
get_or-set_self (x ∷ xs) (suc i) v h = get_or-set_self xs i v (omega arith)

length-set : (xs : List ℕ) (i v : ℕ) → length (set xs i v) ≡ length xs
length-set [] i v = refl
length-set (x ∷ xs) zero v = refl
length-set (x ∷ xs) (suc i) v = ap suc (length-set xs i v)

set-set : (xs : List ℕ) (i v w : ℕ) → set (set xs i v) i w ≡ set xs i w
set-set [] i v w = refl
set-set (x ∷ xs) zero v w = refl
set-set (x ∷ xs) (suc i) v w = ap (λ r. x ∷ r) (set-set xs i v w)

set-get_or : (xs : List ℕ) (i : ℕ) → set xs i (get_or xs i 0) ≡ xs
set-get_or [] i = refl
set-get_or (x ∷ xs) zero = refl
set-get_or (x ∷ xs) (suc i) = ap (λ r. x ∷ r) (set-get_or xs i)

-- An event in the minute of the last one adds to its bucket.
record_for_minute_same :
    (c : SlidingWindowCounter) (minute delta : ℕ)
    → c.last_minute ≡ minute
    → record_for_minute c minute delta ≡ record c {
      windows =
          set c.windows c.current_bucket
            ((get_or c.windows c.current_bucket 0 + delta) % u64_modulus);
      lifetime = (c.lifetime + delta) % u64_modulus;
    }
unfolding record_for_minute rotate_current_bucket
record_for_minute_same c minute delta e = ground arith

-- Any other event starts its bucket afresh.
record_for_minute_new :
    (c : SlidingWindowCounter) (minute delta : ℕ)
    → c.last_minute ≢ minute
    → next_bucket c minute < length c.windows
    → record_for_minute c minute delta ≡ record c {
      windows = set c.windows (next_bucket c minute) (delta % u64_modulus);
      window_minutes = set c.window_minutes (next_bucket c minute) minute;
      lifetime = (c.lifetime + delta) % u64_modulus;
      last_minute = minute;
      current_bucket = next_bucket c minute;
    }
unfolding record_for_minute rotate_current_bucket
record_for_minute_new c minute delta ne lt = ground (
  arith,
  get_or-set_self c.windows (next_bucket c minute) 0 lt,
  set-set c.windows (next_bucket c minute) 0 (delta % u64_modulus),
)

module _ (e : Event) (history : List Event) (c : SlidingWindowCounter) (t : Tracks history c)
    (pos : 0 < e.minute) (order : latest history ≤ e.minute)
    (small : total history + e.delta < u64_modulus) where
  in_range : (n : ℕ) → n % num_windows < length c.window_minutes
  in_range n = omega (arith, t.minutes_length)

  -- The value that the current bucket gets, without the wrap.
  no_wrap :
      (get_or c.windows c.current_bucket 0 + e.delta) % u64_modulus
      ≡ get_or c.windows c.current_bucket 0 + e.delta
  no_wrap = omega (arith, get_or-le (total history) c.windows c.current_bucket t.fits)

  IsCurrent : ℕ → Type 0
  IsCurrent k = (k ≡ 0) ⊎ (get_or c.window_minutes (k % num_windows) 0 ≡ k)

  IsCurrent-now : latest history ≡ e.minute → IsCurrent e.minute
  unfolding IsCurrent
  IsCurrent-now now = subst IsCurrent now t.current

  Tracks-same_sums :
      latest history ≡ e.minute
      → (m : ℕ) → e.minute ≤ m
      → shares m c.window_minutes (
          set c.windows c.current_bucket
            ((get_or c.windows c.current_bucket 0 + e.delta) % u64_modulus))
        ≡ recent_total (e ∷ history) m
  unfolding IsCurrent
  Tracks-same_sums now m h =
      let i = c.current_bucket in
      let w = get_or c.windows i 0 in
      let at : get_or c.window_minutes i 0 ≡ e.minute =
        rw (t.bucket, now) (omega (arith, IsCurrent-now now)) in
      rw no_wrap (
        ground (
          arith,
          shares-set_value m c.window_minutes c.windows i (w + e.delta)
              (rw t.bucket (in_range (latest history))) (t.windows_length ∙ sym t.minutes_length),
          at,
          bucket_share_recent m e.minute w pos h,
          bucket_share_recent m e.minute (w + e.delta) pos h,
          t.sums m (omega arith),
        ))

  Tracks-same :
      latest history ≡ e.minute → Tracks (e ∷ history) (record_for_minute c e.minute e.delta)
  unfolding IsCurrent
  Tracks-same now = rw (record_for_minute_same c e.minute e.delta (t.last ∙ now)) record {
    windows_length = rw (length-set, t.windows_length);
    minutes_length = t.minutes_length;
    bucket = omega (arith, t.bucket);
    last = t.last ∙ now;
    buckets = rw (← now) t.buckets;
    current = IsCurrent-now now;
    fits =
        set-le (total history) _ c.windows c.current_bucket _ (omega arith)
          (omega (arith, get_or-le (total history) c.windows c.current_bucket t.fits)) t.fits;
    sums = λ m h. Tracks-same_sums now m h;
    lifetime_total = omega (arith, t.lifetime_total);
  }

  Tracks-new :
      latest history ≢ e.minute → Tracks (e ∷ history) (record_for_minute c e.minute e.delta)
  Tracks-new ne =
      let i = e.minute % num_windows in
      let old = get_or c.window_minutes i 0 in
      let was : next_bucket c e.minute ≡ i = next_bucket-mod history c e.minute t in
      let unused : (old ≡ 0) ⊎ ((old % num_windows ≡ i) × (old < e.minute)) =
        omega (arith, Buckets-get_or 0 (latest history) c.window_minutes i t.buckets) in
      rw
        (
          record_for_minute_new c e.minute e.delta (rw t.last ne)
              (rw (was, t.windows_length) (omega arith)),
          was,
        )
        record {
          windows_length = length-set c.windows i _ ∙ t.windows_length;
          minutes_length = length-set c.window_minutes i _ ∙ t.minutes_length;
          bucket = refl;
          last = refl;
          buckets =
              Buckets-set 0 (latest history) e.minute c.window_minutes i order (λ _. omega arith)
                t.buckets;
          current = inr (get_or-set_self c.window_minutes i e.minute (in_range e.minute));
          fits = set-le (total history) _ c.windows i _ (omega arith) (omega arith) t.fits;
          sums = λ m h. ground (
            arith,
            shares-set m c.window_minutes c.windows i e.minute (e.delta % u64_modulus)
                (in_range e.minute) (t.windows_length ∙ sym t.minutes_length),
            bucket_share_old m e.minute old (get_or c.windows i 0) h unused,
            bucket_share_recent m e.minute (e.delta % u64_modulus) pos h,
            t.sums m (omega arith),
          );
          lifetime_total = omega (arith, t.lifetime_total);
        }

run-Tracks :
    (history : List Event)
    → IsChronological history
    → total history < u64_modulus
    → Tracks history (run history)
unfolding run
run-Tracks [] h small = Tracks-fresh
run-Tracks (e ∷ history) h small =
    let t = run-Tracks history h.2 (omega arith) in
    elim (ℕ_discrete (latest history) e.minute) [
      | yes same ↦ Tracks-same e history (run history) t h.0 h.1 small same
      | no new ↦ Tracks-new e history (run history) t h.0 h.1 small new
    ]

recent_total-le : (history : List Event) (minute : ℕ) → recent_total history minute ≤ total history
recent_total-le [] minute = omega arith
recent_total-le (e ∷ history) minute = ground (arith, recent_total-le history minute)

recent_loop-lt :
    (minute : ℕ) (minutes windows : List ℕ) (sum : ℕ)
    → sum < u64_modulus
    → recent_loop minute minutes windows sum < u64_modulus
unfolding recent_loop
recent_loop-lt minute [] windows sum h = h
recent_loop-lt minute (m ∷ minutes) [] sum h = h
recent_loop-lt minute (m ∷ minutes) (w ∷ windows) sum h =
    recent_loop-lt minute minutes windows _ (omega arith)

-- After any events, in the order of the clock and with a total below 2 ^ 64, the recent sum read at
-- a minute that is not before the last event is exactly what was recorded in the five minutes that
-- end with it, and the lifetime total is all that was recorded.
pub recent_sum-run :
    (history : List Event) (minute : ℕ)
    → IsChronological history
    → total history < u64_modulus
    → latest history ≤ minute
    → (recent_sum_for_minute (run history) minute ≡ recent_total history minute)
      × ((run history).lifetime ≡ total history)
unfolding recent_sum_for_minute
recent_sum-run history minute h small le =
    let c = run history in
    let t = run-Tracks history h small in
    omega (
      arith,
      t.lifetime_total,
      t.sums minute le,
      recent_total-le history minute,
      recent_loop-lt minute c.window_minutes c.windows 0 (omega arith),
      recent_loop-shares minute c.window_minutes c.windows 0,
    )
