-- ===== src/Engine/Tests.antt =====
-- The theorems on `LogEngine` of src/log_engine.cc at a concrete batch.
use seastar_log_engine.Prelude.{◌≡◌, true, List, [], ◌∷◌, arith, codes}
use seastar_log_engine.Config.{LogMessage, info, full}
use seastar_log_engine.Codec.Tests.{sample}
use seastar_log_engine.Routing.{consistent_hashing, round_robin, configure}
use seastar_log_engine.Routing.Bounds.{configure-shard_count}
use seastar_log_engine.Engine.{LogEngine, append_batch}
use seastar_log_engine.Engine.Share.{sent}
use seastar_log_engine.Engine.Routed.{IsReady}
use seastar_log_engine.Engine.Batch.{due, append_batch-due}

abbrev two_shards : LogEngine
two_shards = record {
  config = sample full true;
  routing_strategy = consistent_hashing;
  empty_route_policy = round_robin;
  router = configure consistent_hashing 2 2;
  rr_counter = 7;
  started = true;
  smp_count = 2;
}

abbrev mixed_batch : List LogMessage
mixed_batch =
    record { level = info; payload = codes "one"; route_key = [] }
    ∷ record { level = info; payload = codes "two"; route_key = codes "user" }
    ∷ record { level = info; payload = codes "three"; route_key = [] }
    ∷ []

two_shards-IsReady : IsReady 0 two_shards
two_shards-IsReady = record {
  counted = configure-shard_count consistent_hashing 2 2;
  here = omega arith;
}

append_batch-due_example :
    sent 1 (append_batch 0 mixed_batch two_shards).0 ≡ due 1 0 two_shards mixed_batch
append_batch-due_example =
    append_batch-due 0 1 two_shards two_shards-IsReady (omega arith) mixed_batch (omega arith)
