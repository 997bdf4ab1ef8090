-- ===== src/Routing/Keys.antt =====
-- `ShardRouter::route` of src/routing.cc by the kind of key.
use seastar_log_engine.Prelude.{
  ℕ, ◌%◌, ◌<◌, ◌≡◌, refl, true, false, Bytes, is_empty, ◌==◌, if◌then◌else◌, arith,
}
use seastar_log_engine.Routing.{EmptyRoutePolicy, ShardRouter, is_round_robin, route}

-- A message with a key is routed by its key alone.
pub route-key :
    (router : ShardRouter) (key : Bytes) (local_shard index index' : ℕ) (policy : EmptyRoutePolicy)
    → is_empty key ≡ false
    → (route router key local_shard policy index).shard
      ≡ (route router key local_shard policy index').shard
unfolding route
route-key router key local_shard index index' policy h = rw h refl

-- A message without one goes to the calling shard, or to the next one.
pub route-empty :
    (router : ShardRouter) (key : Bytes) (local_shard index : ℕ) (policy : EmptyRoutePolicy)
    → is_empty key ≡ true
    → 0 < router.shard_count
    → (route router key local_shard policy index).shard ≡ (
        if is_round_robin policy
        then index % router.shard_count
        else local_shard % router.shard_count)
unfolding route
route-empty router key local_shard index policy h pos =
    let counted : (router.shard_count == 0) ≡ false = ground (arith, pos) in rw (counted, h) refl
