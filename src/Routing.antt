-- ===== src/Routing.antt =====
-- src/routing.cc and include/log_engine/routing.hh: the hash of route keys, the ring of virtual
-- nodes, and `ShardRouter`.
use Prim.Native.Nat.{bit_xor}
use seastar_log_engine.Prelude.{
  ℕ, zero, suc, ◌+◌, ◌*◌, ◌%◌, max, Bool, true, false, not, Option, none, some, List, [], ◌∷◌, ◌++◌,
  Bytes, is_empty, ltb, ◌==◌, if◌then◌else◌, to_decimal, u64_modulus,
}
pub mod Bounds
pub mod Keys
pub mod Ring
pub mod Stability
mod Tests

pub data RoutingStrategy : Type 0 where
  hash_modulo consistent_hashing : RoutingStrategy

pub data EmptyRoutePolicy : Type 0 where
  local round_robin : EmptyRoutePolicy

pub record RouteDecision : Type 0 where
  pub shard : ℕ
  pub hash : ℕ
  pub token : ℕ
  pub used_local_fallback : Bool

-- A token on the ring and the shard that owns it.
pub record RingEntry : Type 0 where
  pub token : ℕ
  pub shard : ℕ

pub record ShardRouter : Type 0 where
  pub strategy : RoutingStrategy
  pub virtual_nodes : ℕ
  pub shard_count : ℕ
  pub ring : List RingEntry

abbrev pub fnv_offset_basis : ℕ
fnv_offset_basis = 14695981039346656037

abbrev pub fnv_prime : ℕ
fnv_prime = 1099511628211

-- `hash ^= ch; hash *= kFnvPrime;` in uint64_t.
pub fnv_step : ℕ → ℕ → ℕ
fnv_step hash ch = bit_xor hash ch * fnv_prime % u64_modulus

pub fnv_bytes : ℕ → Bytes → ℕ
unfolding fnv_step
fnv_bytes hash [] = hash
fnv_bytes hash (ch ∷ part) = fnv_bytes (fnv_step hash ch) part

pub hash_parts : Bytes → Bytes → ℕ
unfolding fnv_bytes fnv_step
hash_parts first second =
    fnv_step (fnv_bytes (fnv_step (fnv_bytes fnv_offset_basis first) 0xff) second) 0xff

pub stable_hash : Bytes → ℕ
unfolding fnv_bytes
stable_hash value = fnv_bytes fnv_offset_basis value

-- The comparator of the `std::sort` call.
pub entry_lt : RingEntry → RingEntry → Bool
entry_lt lhs rhs =
    if not (lhs.token == rhs.token) then ltb lhs.token rhs.token else ltb lhs.shard rhs.shard

-- `std::sort`, by insertion: the comparator tells all different entries apart, so every sort gives
-- this list.
pub insert_entry : RingEntry → List RingEntry → List RingEntry
insert_entry e [] = e ∷ []
insert_entry e (x ∷ ring) = if entry_lt e x then e ∷ x ∷ ring else x ∷ insert_entry e ring

-- The entries are inserted in turn into those sorted so far.
pub sort_entries : List RingEntry → List RingEntry → List RingEntry
sort_entries sorted [] = sorted
sort_entries sorted (e ∷ entries) = sort_entries (insert_entry e sorted) entries

-- The inner loop, from virtual node `vnode` on with `n` left.
pub shard_entries : ℕ → ℕ → ℕ → List RingEntry
shard_entries shard vnode zero = []
shard_entries shard vnode (suc n) =
    record { token = hash_parts (to_decimal shard) (to_decimal vnode); shard = shard }
    ∷ shard_entries shard (vnode + 1) n

-- The outer loop over the shards below `count`, in the order in which `emplace_back` appends.
pub ring_entries : ℕ → ℕ → List RingEntry
unfolding shard_entries
ring_entries zero vnodes = []
ring_entries (suc count) vnodes = ring_entries count vnodes ++ shard_entries count 0 vnodes

pub configure : RoutingStrategy → ℕ → ℕ → ShardRouter
configure strategy virtual_nodes shard_count =
    let vnodes = max virtual_nodes 1 in
    record {
      strategy = strategy;
      virtual_nodes = vnodes;
      shard_count = shard_count;
      ring = elim strategy [
        | hash_modulo ↦ []
        | consistent_hashing ↦
            if shard_count == 0 then [] else sort_entries [] (ring_entries shard_count vnodes)
      ];
    }

-- `std::lower_bound` on the sorted ring, and the wrap to `_ring.front()` when it meets the end.
pub lower_bound : ℕ → RingEntry → List RingEntry → RingEntry
lower_bound hash front [] = front
lower_bound hash front (e ∷ ring) = if ltb e.token hash then lower_bound hash front ring else e

-- The entry that owns a hash, if the ring is not empty.
pub find_owner : ℕ → List RingEntry → Option RingEntry
unfolding lower_bound
find_owner hash [] = none
find_owner hash (e ∷ rest) = some (lower_bound hash e (e ∷ rest))

pub is_round_robin : EmptyRoutePolicy → Bool
is_round_robin local = false
is_round_robin round_robin = true

-- The branch for a key that is not empty.
pub route_hash : ShardRouter → ℕ → RouteDecision
unfolding find_owner
route_hash router hash =
    let modulo : RouteDecision = record {
      shard = hash % router.shard_count;
      hash = hash;
      token = hash;
      used_local_fallback = false;
    } in
    elim router.strategy [
      | hash_modulo ↦ modulo
      | consistent_hashing ↦ elim (find_owner hash router.ring) [
        | none ↦ modulo
        | some hit ↦ record {
          shard = hit.shard;
          hash = hash;
          token = hit.token;
          used_local_fallback = false;
        }
      ]
    ]

pub route : ShardRouter → Bytes → ℕ → EmptyRoutePolicy → ℕ → RouteDecision
unfolding is_round_robin
route router route_key local_shard policy empty_route_index =
    if router.shard_count == 0
    then record { shard = 0; hash = 0; token = 0; used_local_fallback = true }
    else if is_empty route_key
    then record {
      shard =
          if is_round_robin policy
          then empty_route_index % router.shard_count
          else local_shard % router.shard_count;
      hash = 0;
      token = 0;
      used_local_fallback = not (is_round_robin policy);
    }
    else route_hash router (stable_hash route_key)
