-- ===== src/Routing/Bounds.antt =====
-- What `ShardRouter::route` decides on a router that `configure` made.
use mathlib.Core.Path.{subst}
use native.Mathlib.Nat.{mod-lt}
use seastar_log_engine.Prelude.{
  ltb, sym, ℕ, zero, suc, ◌+◌, ◌*◌, ◌<◌, max, ◌≡◌, refl, inl, inr, Bool-cases, some, List, [], ◌∷◌,
  arith, All, All-append, All-mono, length, Bytes,
}
use seastar_log_engine.Routing.{
  RoutingStrategy, hash_modulo, consistent_hashing, EmptyRoutePolicy, RingEntry, ShardRouter,
  stable_hash, sort_entries, shard_entries, ring_entries, find_owner, lower_bound, configure,
  route_hash, route,
}
use seastar_log_engine.Routing.Ring.{
  IsSorted, sort_entries-All, sort_entries-IsSorted, length-sort_entries, length-ring_entries,
}

pub shard_entries-shard :
    (shard vnode n : ℕ) → All (λ e. e.shard ≡ shard) (shard_entries shard vnode n)
unfolding shard_entries
shard_entries-shard shard vnode zero = tt
shard_entries-shard shard vnode (suc n) = (refl, shard_entries-shard shard (vnode + 1) n)

ring_entries-shard : (count vnodes : ℕ) → All (λ e. e.shard < count) (ring_entries count vnodes)
unfolding ring_entries
ring_entries-shard zero vnodes = tt
ring_entries-shard (suc count) vnodes =
    All-append (λ (e : RingEntry). e.shard < suc count) (ring_entries count vnodes) _
      (All-mono (λ (e : RingEntry). e.shard < count) _ (λ e h. omega arith) _
        (ring_entries-shard count vnodes))
      (All-mono (λ (e : RingEntry). e.shard ≡ count) _ (λ e h. omega arith) _
        (shard_entries-shard count 0 vnodes))

pub configure-ring_eq :
    (virtual_nodes shard_count : ℕ)
    → (configure consistent_hashing virtual_nodes shard_count).ring
      ≡ sort_entries [] (ring_entries shard_count (max virtual_nodes 1))
unfolding configure ring_entries sort_entries
configure-ring_eq virtual_nodes zero = refl
configure-ring_eq virtual_nodes (suc n) = ground arith

-- A sorted ring of tokens that belong to the shards below `shard_count`, `size` tokens in all.
abbrev pub IsRing : ℕ → ℕ → List RingEntry → Type 0
IsRing shard_count size ring =
    IsSorted ring × All (λ e. e.shard < shard_count) ring × (length ring ≡ size)

-- `configure` leaves a sorted ring with a token for each virtual node of each shard if it was given
-- consistent hashing, and an empty one otherwise.
pub configure-IsRing :
    (strategy : RoutingStrategy) (virtual_nodes shard_count : ℕ)
    → IsRing shard_count
        (elim strategy [ hash_modulo ↦ 0 | consistent_hashing ↦ shard_count * max virtual_nodes 1 ])
        (configure strategy virtual_nodes shard_count).ring
configure-IsRing hash_modulo virtual_nodes shard_count = unfold configure in (tt, tt, refl)
configure-IsRing consistent_hashing virtual_nodes n =
    let vnodes = max virtual_nodes 1 in
    let entries = ring_entries n vnodes in
    subst (IsRing n (n * vnodes)) (sym (configure-ring_eq virtual_nodes n)) (
      sort_entries-IsSorted [] entries tt,
      sort_entries-All (λ (e : RingEntry). e.shard < n) [] entries tt (ring_entries-shard n vnodes),
      omega (arith, length-sort_entries [] entries, length-ring_entries n vnodes),
    )

lower_bound-All {κ} :
    (P : RingEntry → Type κ) (hash : ℕ) (f : RingEntry) (ring : List RingEntry)
    → P f
    → All P ring
    → P (lower_bound hash f ring)
unfolding lower_bound
lower_bound-All P hash f [] p h = p
lower_bound-All P hash f (x ∷ ring) p h = elim (Bool-cases (ltb x.token hash)) [
  | inl below ↦ rw below (lower_bound-All P hash f ring p h.1)
  | inr above ↦ rw above h.0
]

find_owner-shard :
    (n hash : ℕ) (ring : List RingEntry) (e : RingEntry)
    → All (λ x. x.shard < n) ring
    → find_owner hash ring ≡ some e
    → e.shard < n
unfolding find_owner
find_owner-shard n hash [] e h k = absurd (cc)
find_owner-shard n hash (x ∷ ring) e h k =
    let owner : lower_bound hash x (x ∷ ring) ≡ e = cc in
    rw (← owner) (lower_bound-All (λ (y : RingEntry). y.shard < n) hash x (x ∷ ring) h.0 h)

pub configure-shard_count :
    (strategy : RoutingStrategy) (v n : ℕ) → (configure strategy v n).shard_count ≡ n
unfolding configure
configure-shard_count strategy v n = refl

route_hash-lt :
    (router : ShardRouter) (hash : ℕ)
    → 0 < router.shard_count
    → All (λ x. x.shard < router.shard_count) router.ring
    → (route_hash router hash).shard < router.shard_count
unfolding route_hash
route_hash-lt router hash pos h =
    grind (arith, find_owner-shard router.shard_count hash router.ring, mod-lt)

-- A configured router sends every message to one of its shards, whatever the key, the strategy and
-- the policy for empty keys, if it has a shard.
route-lt :
    (strategy : RoutingStrategy) (virtual_nodes shard_count : ℕ) (key : Bytes) (local_shard : ℕ)
    (policy : EmptyRoutePolicy) (index : ℕ)
    → 0 < shard_count
    → (route (configure strategy virtual_nodes shard_count) key local_shard policy index).shard
      < shard_count
unfolding route
route-lt strategy virtual_nodes shard_count key local_shard policy index pos =
    let router = configure strategy virtual_nodes shard_count in
    ground (
      arith,
      configure-shard_count strategy virtual_nodes shard_count,
      route_hash-lt router (stable_hash key)
          (rw (configure-shard_count strategy virtual_nodes shard_count) pos)
          (rw (configure-shard_count strategy virtual_nodes shard_count)
            (configure-IsRing strategy virtual_nodes shard_count).1),
      mod-lt index pos,
      mod-lt local_shard pos,
    )
