-- ===== src/Engine/Batch.antt =====
-- `LogEngine::append_batch` of src/log_engine.cc: what the writer of each shard is sent.
use seastar_log_engine.Prelude.{
  ℕ, ◌+◌, ◌%◌, ◌<◌, ◌≤◌, ◌≡◌, refl, ap, ◌∙◌, inl, inr, true, false, not, ◌&&◌, Bool-cases, List, [],
  ◌∷◌, Bytes, bytes_eq, is_empty, arith, length, ltb, ◌==◌, u64_modulus,
}
use seastar_log_engine.Config.{LogMessage}
use seastar_log_engine.Routing.{is_round_robin}
use seastar_log_engine.Routing.Keys.{route-key}
use seastar_log_engine.Engine.{
  LogEngine, fetch_add, next_empty_route_index, route_to_shard, all_have_key, all_empty,
  empty_count, submit_routed, submit_shares, route_all, take_base, spread, is_consistent,
  submit_local_or_spread, append_batch, cyclic_shards,
}
use seastar_log_engine.Engine.Share.{
  sent, routed_to, sent-same, sent-submit_routed, sent-submit_shares,
}
use seastar_log_engine.Engine.Routed.{
  destinations, length-destinations, IsReady, counter, route_all-destinations, destinations-base,
  cyclic_shards-destinations, all_empty-destinations, all_have_key-destinations,
}

-- What a shard gets of a batch when every message goes to its own destination.
pub due : ℕ → ℕ → LogEngine → List LogMessage → List LogMessage
due shard this_shard e messages =
    routed_to shard (destinations this_shard e.rr_counter 0 e messages) messages

bytes_eq_refl : (s : Bytes) → bytes_eq s s ≡ true
bytes_eq_refl [] = refl
bytes_eq_refl (c ∷ s) = ground (arith, bytes_eq_refl s)

module _ (this_shard shard : ℕ) (e : LogEngine) (ready : IsReady this_shard e)
    (target : shard < e.smp_count) where
  spread-routed :
      (messages : List LogMessage) (n base : ℕ)
      → destinations this_shard base 0 e messages
        ≡ destinations this_shard e.rr_counter 0 e messages
      → sent shard (
          submit_routed e.smp_count (route_all this_shard base 0 messages (counter e n)).0 messages)
        ≡ due shard this_shard e messages
  unfolding due
  spread-routed messages n base same =
      let goal = destinations this_shard e.rr_counter 0 e messages in
      ap (λ l. sent shard (submit_routed e.smp_count l messages))
        (route_all-destinations this_shard e ready messages n base 0 ∙ same)
      ∙ sent-submit_routed e.smp_count shard goal messages target
          (length-destinations this_shard e.rr_counter 0 e messages)

  spread-cyclic :
      (messages : List LogMessage)
      → is_round_robin e.empty_route_policy ≡ true
      → empty_count messages ≡ length messages
      → e.rr_counter + length messages ≤ u64_modulus
      → sent shard (
          submit_shares e.smp_count
            (cyclic_shards e.smp_count (e.rr_counter % e.smp_count) 0 messages)
            messages)
        ≡ due shard this_shard e messages
  unfolding due
  spread-cyclic messages rr all fits =
      sent-submit_shares e.smp_count shard
        (cyclic_shards e.smp_count (e.rr_counter % e.smp_count) 0 messages) messages target
      ∙ ap (λ l. routed_to shard l messages)
          (cyclic_shards-destinations this_shard e ready messages e.rr_counter 0 rr all
            (omega (arith, fits)))

  spread-due :
      (m : LogMessage) (messages : List LogMessage)
      → e.rr_counter + length (m ∷ messages) ≤ u64_modulus
      → sent shard (spread this_shard (m ∷ messages) e).0 ≡ due shard this_shard e (m ∷ messages)
  unfolding spread take_base fetch_add
  spread-due m messages fits =
      let batch = m ∷ messages in
      let rr = is_round_robin e.empty_route_policy in
      elim (Bool-cases (rr && ltb 0 (empty_count batch))) [
        | inr off ↦
            let mixed : (rr && empty_count batch == length batch) ≡ false = ground (arith, off) in
            rw (spread, take_base, off, mixed)
              (spread-routed batch e.rr_counter 0
                (destinations-base this_shard e ready batch 0 e.rr_counter 0 off))
        | inl on ↦ elim (Bool-cases (rr && empty_count batch == length batch)) [
          | inl all ↦
              rw (spread, take_base, on, all)
                (spread-cyclic batch (ground (arith, all)) (ground (arith, all)) fits)
          | inr mixed ↦
              rw (spread, take_base, on, mixed)
                (spread-routed batch ((e.rr_counter + empty_count batch) % u64_modulus) e.rr_counter
                  refl)
        ]
      ]

  local-due :
      (messages : List LogMessage)
      → is_round_robin e.empty_route_policy ≡ false
      → all_empty messages ≡ true
      → sent shard ((this_shard, messages) ∷ []) ≡ due shard this_shard e messages
  unfolding due
  local-due messages own all =
      sent-same shard this_shard (destinations this_shard e.rr_counter 0 e messages) messages
        (all_empty-destinations this_shard e ready messages e.rr_counter 0 own all)
        (length-destinations this_shard e.rr_counter 0 e messages)

  submit_local_or_spread-due :
      (m : LogMessage) (messages : List LogMessage)
      → e.rr_counter + length (m ∷ messages) ≤ u64_modulus
      → sent shard (submit_local_or_spread this_shard (m ∷ messages) e).0
        ≡ due shard this_shard e (m ∷ messages)
  unfolding submit_local_or_spread
  submit_local_or_spread-due m messages fits =
      let batch = m ∷ messages in
      elim (Bool-cases (not (is_round_robin e.empty_route_policy) && all_empty batch)) [
        | inl own ↦ rw own (local-due batch (ground (arith, own)) (ground (arith, own)))
        | inr other ↦ rw other (spread-due m messages fits)
      ]

  keyed-due :
      (m : LogMessage) (messages : List LogMessage)
      → is_empty m.route_key ≡ false
      → all_have_key m.route_key messages ≡ true
      → sent shard (((route_to_shard this_shard m.route_key e).0, m ∷ messages) ∷ [])
        ≡ due shard this_shard e (m ∷ messages)
  unfolding due route_to_shard all_have_key
  keyed-due m messages keyed all =
      let batch = m ∷ messages in
      sent-same shard (route_to_shard this_shard m.route_key e).0
        (destinations this_shard e.rr_counter 0 e batch) batch
        (all_have_key-destinations this_shard e ready m.route_key batch
          (route_to_shard this_shard m.route_key e).0 e.rr_counter 0 keyed
          (ground (arith, all, bytes_eq_refl m.route_key))
          (route-key e.router m.route_key this_shard (next_empty_route_index e).0 0
            e.empty_route_policy keyed))
        (length-destinations this_shard e.rr_counter 0 e batch)

-- Whichever way a batch is handed to the writers, each shard is sent exactly the messages whose
-- destination it is, in their order: those with its key, and of those without a key the calling
-- shard gets all, or every shard its turns of the round. The engine has started, it is called on one
-- of its shards, and the counter of the round does not pass 2^64 within the batch.
pub append_batch-due :
    (this_shard shard : ℕ) (e : LogEngine) (ready : IsReady this_shard e)
    (target : shard < e.smp_count) (messages : List LogMessage)
    (fits : e.rr_counter + length messages ≤ u64_modulus)
    → sent shard (append_batch this_shard messages e).0 ≡ due shard this_shard e messages
unfolding append_batch sent due destinations routed_to
append_batch-due this_shard shard e ready target [] fits = refl
append_batch-due this_shard shard e ready target (m ∷ messages) fits =
    let one_key = not (is_empty m.route_key) && all_have_key m.route_key messages in
    elim (Bool-cases (is_consistent e.routing_strategy && one_key)) [
      | inl same ↦ rw same (
          keyed-due this_shard shard e ready target m messages (ground (arith, same))
            (ground (arith, same)))
      | inr other ↦
          rw other (submit_local_or_spread-due this_shard shard e ready target m messages fits)
    ]
