-- ===== src/Routing/Stability.antt =====
-- Consistent hashing: which shard owns a key, and what a new shard changes.
use mathlib.Core.Path.{subst}
use seastar_log_engine.Prelude.{
  ℕ, suc, ◌<◌, max, ◌≡◌, ◌≢◌, refl, sym, ◌∙◌, ◌⊎◌, inl, inr, false, Option, some, none,
  Option-cases, List, [], ◌∷◌, ◌++◌, arith, All, length, Bytes, is_empty,
}
use seastar_log_engine.Routing.{
  consistent_hashing, EmptyRoutePolicy, RingEntry, stable_hash, sort_entries, insert_entry,
  shard_entries, ring_entries, find_owner, configure, route_hash, route, RouteDecision,
}
use seastar_log_engine.Routing.Ring.{Owns, find_owner-insert_entry, find_owner-Owns}
use seastar_log_engine.Routing.Bounds.{configure-ring_eq, configure-IsRing, shard_entries-shard}

sort_entries-append :
    (sorted xs ys : List RingEntry)
    → sort_entries sorted (xs ++ ys) ≡ sort_entries (sort_entries sorted xs) ys
unfolding sort_entries
sort_entries-append sorted [] ys = refl
sort_entries-append sorted (x ∷ xs) ys = sort_entries-append (insert_entry x sorted) xs ys

-- More entries of one shard change the owner of a hash to an entry of that shard, or not at all.
abbrev Moves : ℕ → Option RingEntry → Option RingEntry → Type 0
Moves shard old new = ((e : RingEntry) × (new ≡ some e) × (e.shard ≡ shard)) ⊎ (new ≡ old)

find_owner-sort_entries :
    (hash shard : ℕ) (sorted entries : List RingEntry)
    → All (λ e. e.shard ≡ shard) entries
    → Moves shard (find_owner hash sorted) (find_owner hash (sort_entries sorted entries))
unfolding sort_entries
find_owner-sort_entries hash shard sorted [] h = inr refl
find_owner-sort_entries hash shard sorted (x ∷ entries) h =
    elim (find_owner-sort_entries hash shard (insert_entry x sorted) entries h.1) [
      | inl moved ↦ inl moved
      | inr stays ↦ elim (find_owner-insert_entry hash x sorted) [
        | inl new ↦ inl (x, stays ∙ new, h.0)
        | inr same ↦ inr (stays ∙ same)
      ]
    ]

find_owner-suc :
    (hash virtual_nodes n : ℕ)
    → Moves n
        (find_owner hash (configure consistent_hashing virtual_nodes n).ring)
        (find_owner hash (configure consistent_hashing virtual_nodes (suc n)).ring)
unfolding ring_entries
find_owner-suc hash v n =
    let vnodes = max v 1 in
    rw
      (
        configure-ring_eq v n,
        configure-ring_eq v (suc n),
        sort_entries-append [] (ring_entries n vnodes) (shard_entries n 0 vnodes),
      )
      (find_owner-sort_entries hash n (sort_entries [] (ring_entries n vnodes))
        (shard_entries n 0 vnodes) (shard_entries-shard n 0 vnodes))

find_owner-ne-none :
    (hash : ℕ) (ring : List RingEntry) → 0 < length ring → find_owner hash ring ≢ none
unfolding find_owner
find_owner-ne-none hash [] h = absurd (omega arith)
find_owner-ne-none hash (x ∷ ring) h = cc

find_owner-some :
    (hash virtual_nodes n : ℕ)
    → 0 < n
    → (e : RingEntry) × (find_owner hash (configure consistent_hashing virtual_nodes n).ring
        ≡ some e)
find_owner-some hash v n h =
    let ring = (configure consistent_hashing v n).ring in
    elim (Option-cases (find_owner hash ring)) [
      | inl nothing ↦ absurd (
          find_owner-ne-none hash ring (grind (arith, (configure-IsRing consistent_hashing v n).2))
            nothing)
      | inr found ↦ found
    ]

route_to_owner :
    (virtual_nodes n : ℕ) (key : Bytes) (local_shard : ℕ) (policy : EmptyRoutePolicy) (index : ℕ)
    (e : RingEntry)
    → 0 < n
    → is_empty key ≡ false
    → find_owner (stable_hash key) (configure consistent_hashing virtual_nodes n).ring ≡ some e
    → route (configure consistent_hashing virtual_nodes n) key local_shard policy index ≡ record {
      shard = e.shard;
      hash = stable_hash key;
      token = e.token;
      used_local_fallback = false;
    }
unfolding route route_hash configure
route_to_owner v n key local_shard policy index e pos nonempty owner = ground arith

-- A decision that names the owner of the key's hash on the ring, and was made from the hash.
abbrev pub FollowsRing : Bytes → List RingEntry → RouteDecision → Type 0
FollowsRing key ring d =
    Owns (stable_hash key) ring (record { token = d.token; shard = d.shard })
    × (d.hash ≡ stable_hash key)
    × (d.used_local_fallback ≡ false)

-- With at least one shard, a key that is not empty goes to the owner of its hash on the sorted
-- ring: the first token at or above the hash, or the lowest token if the hash is past all of them;
-- the decision carries that token and the hash, and is no fallback.
pub route-FollowsRing :
    (virtual_nodes shard_count : ℕ) (key : Bytes) (local_shard : ℕ) (policy : EmptyRoutePolicy)
    (index : ℕ)
    → 0 < shard_count
    → is_empty key ≡ false
    → let router = configure consistent_hashing virtual_nodes shard_count in
      FollowsRing key router.ring (route router key local_shard policy index)
route-FollowsRing v n key local_shard policy index pos nonempty =
    let ring = (configure consistent_hashing v n).ring in
    let (e, owner) = find_owner-some (stable_hash key) v n pos in
    subst (FollowsRing key ring)
      (sym (route_to_owner v n key local_shard policy index e pos nonempty owner))
      (
        find_owner-Owns (stable_hash key) ring (configure-IsRing consistent_hashing v n).0 owner,
        refl,
        refl,
      )

-- Adding shard `n` to `n` shards moves a key that is not empty to the new shard or leaves it on the
-- shard that it had: no key moves between old shards.
pub route_stable :
    (virtual_nodes n : ℕ) (key : Bytes) (local_shard : ℕ) (policy : EmptyRoutePolicy) (index : ℕ)
    → 0 < n
    → is_empty key ≡ false
    → let before =
        route (configure consistent_hashing virtual_nodes n) key local_shard policy index in
      let after =
        route (configure consistent_hashing virtual_nodes (suc n)) key local_shard policy index in
      (after.shard ≡ n) ⊎ (after.shard ≡ before.shard)
route_stable v n key local_shard policy index pos nonempty =
    let hash = stable_hash key in
    let (old, owner) = find_owner-some hash v n pos in
    let (new, owner') = find_owner-some hash v (suc n) (omega arith) in
    ground (
      arith,
      find_owner-suc hash v n,
      route_to_owner v n key local_shard policy index old pos nonempty owner,
      route_to_owner v (suc n) key local_shard policy index new (omega arith) nonempty owner',
    )
