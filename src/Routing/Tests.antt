-- ===== src/Routing/Tests.antt =====
-- Runs of the router, and its theorems at concrete inputs.
use seastar_log_engine.Prelude.{◌≡◌, refl, ◌⊎◌, true, false, [], arith, codes}
use seastar_log_engine.Routing.{
  hash_modulo, consistent_hashing, local, round_robin, stable_hash, configure, route,
}
use seastar_log_engine.Routing.Stability.{FollowsRing, route-FollowsRing, route_stable}

-- The published FNV-1a value of "a".
stable_hash_a : stable_hash (codes "a") ≡ 0xaf63dc4c8601ec8c
unfolding stable_hash
stable_hash_a = refl

round_robin_route :
    route (configure hash_modulo 1 3) [] 7 round_robin 5
    ≡ record { shard = 2; hash = 0; token = 0; used_local_fallback = false }
unfolding route configure
round_robin_route = refl

no_shards :
    route (configure hash_modulo 1 0) (codes "k") 7 local 5
    ≡ record { shard = 0; hash = 0; token = 0; used_local_fallback = true }
unfolding route configure
no_shards = refl

route-FollowsRing_example :
    FollowsRing
      (codes "tenant-7")
      (configure consistent_hashing 2 3).ring
      (route (configure consistent_hashing 2 3) (codes "tenant-7") 1 local 0)
route-FollowsRing_example = route-FollowsRing 2 3 (codes "tenant-7") 1 local 0 (omega arith) refl

route_stable_example :
    let before = route (configure consistent_hashing 2 3) (codes "tenant-7") 1 local 0 in
    let after = route (configure consistent_hashing 2 4) (codes "tenant-7") 1 local 0 in
    (after.shard ≡ 3) ⊎ (after.shard ≡ before.shard)
route_stable_example = route_stable 2 3 (codes "tenant-7") 1 local 0 (omega arith) refl
