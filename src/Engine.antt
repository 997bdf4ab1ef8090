-- ===== src/Engine.antt =====
-- src/log_engine.cc: `LogEngine`, which shares messages out to the writers of the shards. What it hands
-- to the writers is a list of submissions, a shard and its messages each, in the order of the calls.
pub mod Share
pub mod Routed
pub mod Batch
mod Tests
use seastar_log_engine.Prelude.{
  ℕ, zero, suc, ◌+◌, ◌%◌, Bool, true, false, not, ◌&&◌, Option, none, some, List, [], ◌∷◌, ◌++◌,
  Bytes, bytes_eq, is_empty, length, replicate, ltb, ◌==◌, if◌then◌else◌, u64_modulus,
}
use seastar_log_engine.Config.{EngineConfig, LogLevel, LogMessage, ConfigError, validate}
use seastar_log_engine.Routing.{
  RoutingStrategy, hash_modulo, consistent_hashing, EmptyRoutePolicy, ShardRouter, is_round_robin,
  configure, route,
}

-- `_config` in three parts, the counter `_rr_counter`, and `seastar::smp::count`.
pub record LogEngine : Type 0 where
  pub config : EngineConfig
  pub routing_strategy : RoutingStrategy
  pub empty_route_policy : EmptyRoutePolicy
  pub router : ShardRouter
  pub rr_counter : ℕ
  pub started : Bool
  pub smp_count : ℕ

abbrev pub Submission : Type 0
Submission = ℕ × List LogMessage

-- `fetch_add`.
pub fetch_add : ℕ → LogEngine → ℕ × LogEngine
fetch_add n e = (e.rr_counter, record e { rr_counter = (e.rr_counter + n) % u64_modulus })

pub next_empty_route_index : LogEngine → ℕ × LogEngine
next_empty_route_index e = if is_round_robin e.empty_route_policy then fetch_add 1 e else (0, e)

pub route_to_shard : ℕ → Bytes → LogEngine → ℕ × LogEngine
route_to_shard this_shard route_key e =
    let next = next_empty_route_index e in
    ((route e.router route_key this_shard e.empty_route_policy next.0).shard, next.1)

pub append : ℕ → LogMessage → LogEngine → ℕ × LogEngine
append this_shard message e = route_to_shard this_shard message.route_key e

-- `info`, `warn` and `error`.
pub append_text : LogLevel → ℕ → Bytes → Bytes → LogEngine → ℕ × LogEngine
append_text level this_shard payload route_key e =
    append this_shard (record { level = level; payload = payload; route_key = route_key }) e

pub all_have_key : Bytes → List LogMessage → Bool
all_have_key key [] = true
all_have_key key (m ∷ messages) = bytes_eq m.route_key key && all_have_key key messages

pub all_empty : List LogMessage → Bool
all_empty [] = true
all_empty (m ∷ messages) = is_empty m.route_key && all_empty messages

pub empty_count : List LogMessage → ℕ
empty_count [] = 0
empty_count (m ∷ messages) = (if is_empty m.route_key then 1 else 0) + empty_count messages

-- `per_shard[shard].push_back(message)`.
pub push_at : ℕ → LogMessage → List (List LogMessage) → List (List LogMessage)
push_at shard m [] = []
push_at zero m (batch ∷ per_shard) = (batch ++ m ∷ []) ∷ per_shard
push_at (suc shard) m (batch ∷ per_shard) = batch ∷ push_at shard m per_shard

pub distribute : List ℕ → List LogMessage → List (List LogMessage) → List (List LogMessage)
distribute (shard ∷ shards) (m ∷ messages) per_shard =
    distribute shards messages (push_at shard m per_shard)
distribute [] messages per_shard = per_shard
distribute (shard ∷ shards) [] per_shard = per_shard

-- The loop over the shards; a shard without messages is passed over.
pub submissions : ℕ → List (List LogMessage) → List Submission
submissions shard [] = []
submissions shard (batch ∷ per_shard) =
    let rest = submissions (suc shard) per_shard in
    if length batch == 0 then rest else (shard, batch) ∷ rest

pub submit_shares : ℕ → List ℕ → List LogMessage → List Submission
submit_shares smp_count shards messages =
    submissions 0 (distribute shards messages (replicate smp_count []))

-- The shards of the branch for a batch without keys, from the message with this index on.
pub cyclic_shards : ℕ → ℕ → ℕ → List LogMessage → List ℕ
cyclic_shards smp_count base_shard index [] = []
cyclic_shards smp_count base_shard index (m ∷ messages) =
    (base_shard + index) % smp_count ∷ cyclic_shards smp_count base_shard (suc index) messages

-- The shard of a message in the loop of the last branch, and the next `empty_route_index`.
pub route_one : ℕ → ℕ → ℕ → LogMessage → LogEngine → ℕ × ℕ × LogEngine
route_one this_shard base index m e =
    if is_round_robin e.empty_route_policy && is_empty m.route_key
    then (((base + index) % u64_modulus) % e.smp_count, suc index, e)
    else (
      (route_to_shard this_shard m.route_key e).0,
      index,
      (route_to_shard this_shard m.route_key e).1,
    )

pub route_all : ℕ → ℕ → ℕ → List LogMessage → LogEngine → List ℕ × LogEngine
route_all this_shard base index [] e = ([], e)
route_all this_shard base index (m ∷ messages) e =
    let (shard, index', e') = route_one this_shard base index m e in
    let rest = route_all this_shard base index' messages e' in (shard ∷ rest.0, rest.1)

-- `all_same_shard`: no shard differs from the first.
pub all_same_shard : ℕ → List ℕ → Bool
all_same_shard first [] = true
all_same_shard first (shard ∷ shards) = shard == first && all_same_shard first shards

pub submit_routed : ℕ → List ℕ → List LogMessage → List Submission
submit_routed smp_count [] messages = submit_shares smp_count [] messages
submit_routed smp_count (first ∷ shards) messages =
    if all_same_shard first shards
    then (first, messages) ∷ []
    else submit_shares smp_count (first ∷ shards) messages

-- `empty_route_base`, when the policy is round robin.
pub take_base : List LogMessage → LogEngine → ℕ × LogEngine
take_base messages e =
    if is_round_robin e.empty_route_policy && ltb 0 (empty_count messages)
    then fetch_add (empty_count messages) e
    else (0, e)

-- From `per_shard_counts` on.
pub spread : ℕ → List LogMessage → LogEngine → List Submission × LogEngine
spread this_shard messages e =
    let base = take_base messages e in
    let routed = route_all this_shard base.0 0 messages base.1 in
    if is_round_robin e.empty_route_policy && empty_count messages == length messages
    then (
      submit_shares e.smp_count (cyclic_shards e.smp_count (base.0 % e.smp_count) 0 messages)
          messages,
      base.1,
    )
    else (submit_routed e.smp_count routed.0 messages, routed.1)

pub is_consistent : RoutingStrategy → Bool
is_consistent hash_modulo = false
is_consistent consistent_hashing = true

pub submit_local_or_spread : ℕ → List LogMessage → LogEngine → List Submission × LogEngine
submit_local_or_spread this_shard messages e =
    if not (is_round_robin e.empty_route_policy) && all_empty messages
    then ((this_shard, messages) ∷ [], e)
    else spread this_shard messages e

pub append_batch : ℕ → List LogMessage → LogEngine → List Submission × LogEngine
append_batch this_shard [] e = ([], e)
append_batch this_shard (m ∷ messages) e =
    let routed = route_to_shard this_shard m.route_key e in
    if is_consistent e.routing_strategy
      && (not (is_empty m.route_key) && all_have_key m.route_key messages)
    then ((routed.0, m ∷ messages) ∷ [], routed.1)
    else submit_local_or_spread this_shard (m ∷ messages) e

-- The calls of the writers of all shards; the Boolean says whether they return.
pub record Writers (W : Type 0) : Type 0 where
  pub start_all : EngineConfig → W → Bool × W
  pub stop_all : W → Bool × W

-- `_config = std::move(config)`.
pub set_config : EngineConfig → RoutingStrategy → EmptyRoutePolicy → LogEngine → LogEngine
set_config config strategy policy e = record e {
  config = config;
  routing_strategy = strategy;
  empty_route_policy = policy;
}

pub start_writers : {W : Type 0} → Writers W → LogEngine → W → Bool × LogEngine × W
start_writers writers e w =
    let began = writers.start_all e.config w in
    if began.0
    then (
      true,
      record e {
        router = configure e.routing_strategy e.config.routing_virtual_nodes e.smp_count;
        started = true;
      },
      began.1,
    )
    else (false, e, began.1)

-- The configuration is stored before it is tested.
pub start :
    {W : Type 0}
    → Writers W
    → EngineConfig
    → RoutingStrategy
    → EmptyRoutePolicy
    → LogEngine
    → W
    → Bool × LogEngine × W
start writers config strategy policy e w = elim (validate config) [
  | some error ↦ (false, set_config config strategy policy e, w)
  | none ↦
      if e.started
      then (true, set_config config strategy policy e, w)
      else start_writers writers (set_config config strategy policy e) w
]

pub stop : {W : Type 0} → Writers W → LogEngine → W → Bool × LogEngine × W
stop writers e w =
    let ended = writers.stop_all w in
    if not e.started
    then (true, e, w)
    else if ended.0
    then (true, record e { started = false }, ended.1)
    else (false, e, ended.1)
