-- ===== src/Engine/Routed.antt =====
-- The shards that src/log_engine.cc computes for a batch, against the shard of each message alone.
use native.Mathlib.Nat.{mod-eq_of_lt, mod-add-mod}
use seastar_log_engine.Prelude.{
  ℕ, suc, ◌+◌, ◌%◌, ◌<◌, ◌≤◌, ◌≡◌, refl, sym, ap, ◌∙◌, inl, inr, true, false, ◌&&◌, Bool-cases,
  List, [], ◌∷◌, Bytes, bytes_eq, is_empty, arith, length, ltb, if◌then◌else◌, u64_modulus,
}
use seastar_log_engine.Config.{LogMessage}
use seastar_log_engine.Routing.{is_round_robin, route}
use seastar_log_engine.Routing.Keys.{route-key, route-empty}
use seastar_log_engine.Engine.{
  LogEngine, fetch_add, next_empty_route_index, route_to_shard, all_have_key, all_empty,
  empty_count, cyclic_shards, route_one, route_all, all_same_shard,
}

bytes_eq-path : (s t : Bytes) → bytes_eq s t ≡ true → s ≡ t
bytes_eq-path [] [] h = refl
bytes_eq-path [] (c ∷ t) h = absurd (cc h)
bytes_eq-path (c ∷ s) [] h = absurd (cc h)
bytes_eq-path (c ∷ s) (d ∷ t) h =
    let same : c ≡ d = ground (arith, h) in cc (same, bytes_eq-path s t (ground (arith, h)))

-- The shard of a message: of its key; or, without one, the calling shard or the next shard of the
-- round, `turn` being the turns of the round that were taken in front of it.
pub destination : ℕ → ℕ → ℕ → LogEngine → LogMessage → ℕ
destination this_shard base turn e m =
    if is_empty m.route_key
    then (if is_round_robin e.empty_route_policy
        then ((base + turn) % u64_modulus) % e.smp_count
        else this_shard)
    else (route e.router m.route_key this_shard e.empty_route_policy 0).shard

pub next_turn : LogEngine → LogMessage → ℕ → ℕ
next_turn e m turn =
    if is_round_robin e.empty_route_policy && is_empty m.route_key then suc turn else turn

unfoldable pub destinations : ℕ → ℕ → ℕ → LogEngine → List LogMessage → List ℕ
destinations this_shard base turn e [] = []
destinations this_shard base turn e (m ∷ messages) =
    destination this_shard base turn e m
    ∷ destinations this_shard base (next_turn e m turn) e messages

pub length-destinations :
    (this_shard base turn : ℕ) (e : LogEngine) (messages : List LogMessage)
    → length (destinations this_shard base turn e messages) ≡ length messages
unfolding destinations
length-destinations this_shard base turn e [] = refl
length-destinations this_shard base turn e (m ∷ messages) =
    ap suc (length-destinations this_shard base (next_turn e m turn) e messages)

-- An engine that has started, called on one of its shards.
pub record IsReady (this_shard : ℕ) (e : LogEngine) : Type 0 where
  pub counted : e.router.shard_count ≡ e.smp_count
  pub here : this_shard < e.smp_count

abbrev pub counter : LogEngine → ℕ → LogEngine
counter e n = record e { rr_counter = n }

module _ (this_shard : ℕ) (e : LogEngine) (ready : IsReady this_shard e) where
  route_to_shard-key :
      (m : LogMessage) (n base turn : ℕ)
      → is_empty m.route_key ≡ false
      → (route_to_shard this_shard m.route_key (counter e n)).0
        ≡ destination this_shard base turn e m
  unfolding route_to_shard destination
  route_to_shard-key m n base turn h =
      route-key e.router m.route_key this_shard (next_empty_route_index (counter e n)).0 0
        e.empty_route_policy h
      ∙ rw h refl

  route_to_shard-local :
      (m : LogMessage) (n base turn : ℕ)
      → is_empty m.route_key ≡ true
      → is_round_robin e.empty_route_policy ≡ false
      → (route_to_shard this_shard m.route_key (counter e n)).0
        ≡ destination this_shard base turn e m
  unfolding route_to_shard destination
  route_to_shard-local m n base turn h k =
      route-empty e.router m.route_key this_shard (next_empty_route_index (counter e n)).0
        e.empty_route_policy h (omega (arith, ready.counted, ready.here))
      ∙ rw (h, k, ready.counted) (mod-eq_of_lt ready.here)

  next_empty_route_index-counter :
      (n : ℕ) → (n' : ℕ) × ((next_empty_route_index (counter e n)).1 ≡ counter e n')
  unfolding next_empty_route_index fetch_add
  next_empty_route_index-counter n = elim (Bool-cases (is_round_robin e.empty_route_policy)) [
    | inl k ↦ ((n + 1) % u64_modulus, rw (next_empty_route_index, k) refl)
    | inr k ↦ (n, rw (next_empty_route_index, k) refl)
  ]

  -- One round of the loop: the shard of the message, the next turn, and the counter.
  route_one-destination :
      (m : LogMessage) (n base turn : ℕ)
      → (n' : ℕ) × (route_one this_shard base turn m (counter e n)
          ≡ (destination this_shard base turn e m, next_turn e m turn, counter e n'))
  unfolding route_one next_turn route_to_shard destination
  route_one-destination m n base turn =
      let (n', after) = next_empty_route_index-counter n in
      let whole : (is_round_robin e.empty_route_policy && is_empty m.route_key) ≡ false
          → (route_to_shard this_shard m.route_key (counter e n)).0
            ≡ destination this_shard base turn e m
          → route_one this_shard base turn m (counter e n)
            ≡ (destination this_shard base turn e m, next_turn e m turn, counter e n') =
        λ off here.
          rw (route_one, next_turn, off)
            (ap (λ s. (s, turn, (next_empty_route_index (counter e n)).1)) here
              ∙ ap (λ f. (destination this_shard base turn e m, turn, f)) after) in
      elim (Bool-cases (is_empty m.route_key)) [
        | inr keyed ↦ (n', whole (ground (arith, keyed)) (route_to_shard-key m n base turn keyed))
        | inl bare ↦ elim (Bool-cases (is_round_robin e.empty_route_policy)) [
          | inl rr ↦ (n, rw (route_one, next_turn, destination, rr, bare) refl)
          | inr own ↦
              (n', whole (ground (arith, own)) (route_to_shard-local m n base turn bare own))
        ]
      ]

  -- The loop over the messages computes their destinations.
  pub route_all-destinations :
      (messages : List LogMessage) (n base turn : ℕ)
      → (route_all this_shard base turn messages (counter e n)).0
        ≡ destinations this_shard base turn e messages
  unfolding route_all destinations
  route_all-destinations [] n base turn = refl
  route_all-destinations (m ∷ messages) n base turn =
      let (n', one) = route_one-destination m n base turn in
      rw (route_all, one)
        (ap (λ l. destination this_shard base turn e m ∷ l)
          (route_all-destinations messages n' base (next_turn e m turn)))

  destination-base :
      (m : LogMessage) (base base' turn : ℕ)
      → (is_round_robin e.empty_route_policy && is_empty m.route_key) ≡ false
      → destination this_shard base turn e m ≡ destination this_shard base' turn e m
  unfolding destination
  destination-base m base base' turn h = elim (Bool-cases (is_empty m.route_key)) [
    | inr keyed ↦ rw (destination, keyed) refl
    | inl bare ↦
        let own : is_round_robin e.empty_route_policy ≡ false = ground (arith, h, bare) in
        rw (destination, bare, own) refl
  ]

  -- Without a message that takes a turn, the base is of no account.
  pub destinations-base :
      (messages : List LogMessage) (base base' turn : ℕ)
      → (is_round_robin e.empty_route_policy && ltb 0 (empty_count messages)) ≡ false
      → destinations this_shard base turn e messages ≡ destinations this_shard base' turn e messages
  unfolding destinations empty_count
  destinations-base [] base base' turn h = refl
  destinations-base (m ∷ messages) base base' turn h = cc (
    destination-base m base base' turn (ground (arith, h)),
    destinations-base messages base base' (next_turn e m turn) (ground (arith, h)),
  )

  empty_count-le : (messages : List LogMessage) → empty_count messages ≤ length messages
  unfolding empty_count
  empty_count-le [] = omega arith
  empty_count-le (m ∷ messages) = ground (arith, empty_count-le messages)

  pub cyclic_shards-destinations :
      (messages : List LogMessage) (base turn : ℕ)
      → is_round_robin e.empty_route_policy ≡ true
      → empty_count messages ≡ length messages
      → base + turn + length messages ≤ u64_modulus
      → cyclic_shards e.smp_count (base % e.smp_count) turn messages
        ≡ destinations this_shard base turn e messages
  unfolding cyclic_shards destinations empty_count destination next_turn
  cyclic_shards-destinations [] base turn rr all fits = refl
  cyclic_shards-destinations (m ∷ messages) base turn rr all fits =
      let bare : is_empty m.route_key ≡ true = ground (arith, all, empty_count-le messages) in
      let small : base + turn < u64_modulus = omega (arith, fits) in
      let next : next_turn e m turn ≡ suc turn = rw (next_turn, rr, bare) refl in
      let first : (base % e.smp_count + turn) % e.smp_count ≡ destination this_shard base turn e m =
        rw (destination, bare, rr)
          (mod-add-mod base e.smp_count turn
            ∙ ap (λ x. x % e.smp_count) (sym (mod-eq_of_lt small))) in
      let rest =
        cyclic_shards-destinations messages base (suc turn) rr
          (ground (arith, all, bare, empty_count-le messages)) (omega (arith, fits)) in
      cc (first, rest, next)

  -- All messages without a key, with the calling shard as their destination.
  pub all_empty-destinations :
      (messages : List LogMessage) (base turn : ℕ)
      → is_round_robin e.empty_route_policy ≡ false
      → all_empty messages ≡ true
      → all_same_shard this_shard (destinations this_shard base turn e messages) ≡ true
  unfolding all_empty all_same_shard destinations destination
  all_empty-destinations [] base turn own all = refl
  all_empty-destinations (m ∷ messages) base turn own all =
      let bare : is_empty m.route_key ≡ true = ground (arith, all) in
      let here : destination this_shard base turn e m ≡ this_shard =
        rw (destination, bare, own) refl in
      let rest =
        all_empty-destinations messages base (next_turn e m turn) own (ground (arith, all)) in
      ground (arith, here, rest)

  -- All messages with one key.
  pub all_have_key-destinations :
      (key : Bytes) (messages : List LogMessage) (first base turn : ℕ)
      → is_empty key ≡ false
      → all_have_key key messages ≡ true
      → first ≡ (route e.router key this_shard e.empty_route_policy 0).shard
      → all_same_shard first (destinations this_shard base turn e messages) ≡ true
  unfolding all_have_key all_same_shard destinations destination
  all_have_key-destinations key [] first base turn h all same = refl
  all_have_key-destinations key (m ∷ messages) first base turn h all same =
      let equal : m.route_key ≡ key = bytes_eq-path m.route_key key (ground (arith, all)) in
      let keyed : is_empty m.route_key ≡ false = rw equal h in
      let here : destination this_shard base turn e m ≡ first =
        rw (destination, keyed, equal) (sym same) in
      let rest =
        all_have_key-destinations key messages first base (next_turn e m turn) h
          (ground (arith, all)) same in
      ground (arith, here, rest)
