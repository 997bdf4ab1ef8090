-- ===== src/Health/Buckets.antt =====
-- The buckets of a `SlidingWindowCounter` (src/health_monitor.cc) and the minutes that they stand for.
use seastar_log_engine.Prelude.{
  ℕ, zero, suc, ◌+◌, ◌%◌, ◌≤◌, ◌<◌, ◌≡◌, refl, ◌⊎◌, inl, inr, List, [], ◌∷◌, arith, All, All-mono,
  length, get_or, set, ltb, if◌then◌else◌, u64_modulus,
}
use seastar_log_engine.Health.{
  SlidingWindowCounter, fresh, num_windows, record_for_minute, bucket_share, recent_loop,
}

-- An event: the minute at which it was recorded, and how much.
pub record Event : Type 0 where
  pub minute : ℕ
  pub delta : ℕ

-- The counter after some events, the newest first.
unfoldable pub run : List Event → SlidingWindowCounter
run [] = fresh
run (e ∷ history) = record_for_minute (run history) e.minute e.delta

-- The minute of the newest event.
abbrev pub latest : List Event → ℕ
latest [] = 0
latest (e ∷ history) = e.minute

-- The wall clock stands at a positive minute, and does not go back between events.
abbrev pub IsChronological : List Event → Type 0
IsChronological [] = Unit
IsChronological (e ∷ history) =
    (0 < e.minute) × (latest history ≤ e.minute) × IsChronological history

abbrev pub total : List Event → ℕ
total [] = 0
total (e ∷ history) = total history + e.delta

-- What was recorded in the five minutes that end with `minute`.
abbrev pub recent_total : List Event → ℕ → ℕ
recent_total [] minute = 0
recent_total (e ∷ history) minute =
    recent_total history minute + (if ltb minute (e.minute + num_windows) then e.delta else 0)

pub shares : ℕ → List ℕ → List ℕ → ℕ
shares minute (m ∷ minutes) (w ∷ windows) = shares minute minutes windows + bucket_share minute m w
shares minute minutes windows = 0

pub recent_loop-shares :
    (minute : ℕ) (minutes windows : List ℕ) (sum : ℕ)
    → recent_loop minute minutes windows sum % u64_modulus
      ≡ (sum + shares minute minutes windows) % u64_modulus
unfolding recent_loop shares
recent_loop-shares minute [] windows sum = omega arith
recent_loop-shares minute (m ∷ minutes) [] sum = omega arith
recent_loop-shares minute (m ∷ minutes) (w ∷ windows) sum = omega (
  arith,
  recent_loop-shares minute minutes windows ((sum + bucket_share minute m w) % u64_modulus),
)

pub shares-set :
    (minute : ℕ) (minutes windows : List ℕ) (i m w : ℕ)
    → i < length minutes
    → length windows ≡ length minutes
    → shares minute (set minutes i m) (set windows i w)
        + bucket_share minute (get_or minutes i 0) (get_or windows i 0)
      ≡ shares minute minutes windows + bucket_share minute m w
unfolding shares
shares-set minute [] windows i m w h e = absurd (omega arith)
shares-set minute (a ∷ minutes) [] i m w h e = absurd (omega arith)
shares-set minute (a ∷ minutes) (b ∷ windows) zero m w h e = omega arith
shares-set minute (a ∷ minutes) (b ∷ windows) (suc i) m w h e =
    omega (arith, shares-set minute minutes windows i m w (omega arith) (omega arith))

pub shares-set_value :
    (minute : ℕ) (minutes windows : List ℕ) (i w : ℕ)
    → i < length minutes
    → length windows ≡ length minutes
    → shares minute minutes (set windows i w)
        + bucket_share minute (get_or minutes i 0) (get_or windows i 0)
      ≡ shares minute minutes windows + bucket_share minute (get_or minutes i 0) w
unfolding shares
shares-set_value minute [] windows i w h e = absurd (omega arith)
shares-set_value minute (a ∷ minutes) [] i w h e = absurd (omega arith)
shares-set_value minute (a ∷ minutes) (b ∷ windows) zero w h e = omega arith
shares-set_value minute (a ∷ minutes) (b ∷ windows) (suc i) w h e =
    omega (arith, shares-set_value minute minutes windows i w (omega arith) (omega arith))

pub bucket_share_recent :
    (minute m w : ℕ)
    → 0 < m
    → m ≤ minute
    → bucket_share minute m w ≡ (if ltb minute (m + num_windows) then w else 0)
unfolding bucket_share
bucket_share_recent minute m w pos le = ground arith

-- A bucket that a later minute of the same residue takes over counted for nothing.
pub bucket_share_old :
    (minute now m w : ℕ)
    → now ≤ minute
    → (m ≡ 0) ⊎ ((m % num_windows ≡ now % num_windows) × (m < now))
    → bucket_share minute m w ≡ 0
unfolding bucket_share
bucket_share_old minute now m w le old = ground arith

-- Bucket `i` is unused, or holds a minute that falls into it and is not after `last`.
pub Buckets : ℕ → ℕ → List ℕ → Type 0
Buckets i last [] = Unit
Buckets i last (m ∷ minutes) =
    ((m ≡ 0) ⊎ ((m % num_windows ≡ i) × (m ≤ last))) × Buckets (suc i) last minutes

pub Buckets-get_or :
    (k last : ℕ) (minutes : List ℕ) (i : ℕ)
    → Buckets k last minutes
    → let m = get_or minutes i 0 in (m ≡ 0) ⊎ ((m % num_windows ≡ k + i) × (m ≤ last))
unfolding Buckets
Buckets-get_or k last [] i h = inl refl
Buckets-get_or k last (m ∷ minutes) zero h = omega (arith, h.0)
Buckets-get_or k last (m ∷ minutes) (suc i) h =
    omega (arith, Buckets-get_or (suc k) last minutes i h.1)

pub Buckets-set :
    (k last now : ℕ) (minutes : List ℕ) (i : ℕ)
    → last ≤ now
    → (i < length minutes → now % num_windows ≡ k + i)
    → Buckets k last minutes
    → Buckets k now (set minutes i now)
unfolding Buckets
Buckets-set k last now [] i le e h = tt
Buckets-set k last now (m ∷ minutes) zero le e h =
    (inr (omega (arith, e (omega arith)), omega arith), Buckets-le (suc k) minutes h.1)
  where
    Buckets-le : (k : ℕ) (minutes : List ℕ) → Buckets k last minutes → Buckets k now minutes
    Buckets-le k [] h = tt
    Buckets-le k (m ∷ minutes) h = (omega (arith, h.0), Buckets-le (suc k) minutes h.1)
Buckets-set k last now (m ∷ minutes) (suc i) le e h = (
  omega (arith, h.0),
  Buckets-set (suc k) last now minutes i le (λ lt. omega (arith, e (omega arith))) h.1,
)

Buckets-fresh : Buckets 0 0 fresh.window_minutes
unfolding Buckets
Buckets-fresh = omega arith

pub get_or-le : (bound : ℕ) (xs : List ℕ) (i : ℕ) → All (λ x. x ≤ bound) xs → get_or xs i 0 ≤ bound
get_or-le bound [] i h = omega arith
get_or-le bound (x ∷ xs) zero h = h.0
get_or-le bound (x ∷ xs) (suc i) h = get_or-le bound xs i h.1

pub set-le :
    (old new : ℕ) (xs : List ℕ) (i v : ℕ)
    → old ≤ new
    → v ≤ new
    → All (λ x. x ≤ old) xs
    → All (λ x. x ≤ new) (set xs i v)
set-le old new [] i v le lv h = tt
set-le old new (x ∷ xs) zero v le lv h =
    (lv, All-mono (λ (y : ℕ). y ≤ old) _ (λ y l. omega arith) xs h.1)
set-le old new (x ∷ xs) (suc i) v le lv h = (omega (arith, h.0), set-le old new xs i v le lv h.1)

-- How the counter's fields stand to the events so far.
pub record Tracks (history : List Event) (c : SlidingWindowCounter) : Type 0 where
  pub windows_length : length c.windows ≡ num_windows
  pub minutes_length : length c.window_minutes ≡ num_windows
  pub bucket : c.current_bucket ≡ latest history % num_windows
  pub last : c.last_minute ≡ latest history
  pub buckets : Buckets 0 (latest history) c.window_minutes
  pub current :
      (latest history ≡ 0)
      ⊎ (get_or c.window_minutes (latest history % num_windows) 0 ≡ latest history)
  pub fits : All (λ w. w ≤ total history) c.windows
  pub sums :
      (m : ℕ) → latest history ≤ m → shares m c.window_minutes c.windows ≡ recent_total history m
  pub lifetime_total : c.lifetime ≡ total history

pub Tracks-fresh : Tracks [] fresh
Tracks-fresh = record {
  windows_length = refl;
  minutes_length = refl;
  bucket = refl;
  last = refl;
  buckets = Buckets-fresh;
  current = inl refl;
  fits = omega arith;
  sums = λ m h. unfold shares bucket_share in refl;
  lifetime_total = refl;
}
