-- ===== src/Agent/Delivery/Next.antt =====
-- What a delivered batch of src/agent_support.cc holds, and how far it reaches.
use native.Mathlib.Nat.{mod-eq_of_lt}
use seastar_log_engine.Prelude.{
  ℕ, ◌+◌, ◌%◌, ◌≤◌, ◌<◌, ◌≡◌, refl, sym, ◌∙◌, ◌⊎◌, inl, inr, true, Bool-cases, List, [], ◌∷◌, ◌++◌,
  append-nil, append_assoc, arith, Bytes, All, u64_modulus, if◌then◌else◌, ltb,
}
use seastar_log_engine.Codec.Record.{ParsedRecord}
use seastar_log_engine.Agent.{DeliveryBatch}
use seastar_log_engine.Agent.Delivery.{
  next_after, add_record, add_records, empty_batch, build_delivery_batch_from_records,
}

abbrev pub payloads : List ParsedRecord → List Bytes
payloads [] = []
payloads (r ∷ records) = r.payload ∷ payloads records

pub add_records-payloads :
    (batch : DeliveryBatch) (records : List ParsedRecord)
    → (add_records batch records).records ≡ batch.records ++ payloads records
unfolding add_records add_record
add_records-payloads batch [] = sym (append-nil batch.records)
add_records-payloads batch (r ∷ records) =
    add_records-payloads (add_record batch r) records
    ∙ append_assoc batch.records (r.payload ∷ []) (payloads records)

pub add_records-shard :
    (batch : DeliveryBatch) (records : List ParsedRecord)
    → (add_records batch records).shard ≡ batch.shard
unfolding add_records add_record
add_records-shard batch [] = refl
add_records-shard batch (r ∷ records) = add_records-shard (add_record batch r) records

add_records-first :
    (batch : DeliveryBatch) (records : List ParsedRecord)
    → (add_records batch records).first_sequence ≡ batch.first_sequence
unfolding add_records add_record
add_records-first batch [] = refl
add_records-first batch (r ∷ records) = add_records-first (add_record batch r) records

abbrev pub IsNumbered : ParsedRecord → Type 0
IsNumbered r = r.has_sequence ≡ true

-- The next sequence number is past this record's, unless that one is the last of 64 bits.
abbrev pub IsPast : ℕ → ParsedRecord → Type 0
IsPast next r = (r.sequence < next) ⊎ (u64_modulus ≤ r.sequence + 1)

next_after-IsPast :
    (r : ParsedRecord) (next : ℕ)
    → IsNumbered r
    → (next ≤ next_after r next) × IsPast (next_after r next) r
unfolding next_after
next_after-IsPast r next h =
    rw (next_after, h)
      (elim (Bool-cases (ltb (r.sequence + 1) u64_modulus)) [
        | inl small ↦
            let fits : r.sequence + 1 < u64_modulus = ground (arith, small) in
            rw (mod-eq_of_lt fits) (omega arith, inl (omega arith))
        | inr last ↦ (omega arith, inr (ground (arith, last)))
      ])

pub add_records-IsPast :
    (batch : DeliveryBatch) (records : List ParsedRecord)
    → All IsNumbered records
    → (batch.next_sequence ≤ (add_records batch records).next_sequence)
      × All (IsPast (add_records batch records).next_sequence) records
unfolding add_records add_record
add_records-IsPast batch [] h = (omega arith, tt)
add_records-IsPast batch (r ∷ records) h =
    let later = add_records-IsPast (add_record batch r) records h.1 in
    let first = next_after-IsPast r batch.next_sequence h.0 in
    (
      omega (arith, later.0, first.0),
      (
        elim first.1 [ inl past ↦ inl (omega (arith, past, later.0)) | inr last ↦ inr last ],
        later.1,
      ),
    )

-- One of the records is the last before this number.
pub Touches : ℕ → List ParsedRecord → Type 0
Touches next [] = ⊥
Touches next (r ∷ records) = (next ≡ (r.sequence + 1) % u64_modulus) ⊎ Touches next records

next_after-numbered :
    (r : ParsedRecord) (next : ℕ)
    → IsNumbered r
    → (next_after r next ≡ next) ⊎ (next_after r next ≡ (r.sequence + 1) % u64_modulus)
unfolding next_after
next_after-numbered r next h =
    rw (next_after, h)
      (elim (Bool-cases (ltb next ((r.sequence + 1) % u64_modulus))) [
        | inl below ↦
            let less : next < (r.sequence + 1) % u64_modulus = ground (arith, below) in
            inr (omega (arith, less))
        | inr above ↦
            let least : (r.sequence + 1) % u64_modulus ≤ next = ground (arith, above) in
            inl (omega (arith, least))
      ])

-- The next sequence number is the one before, or it is that behind one of the records.
pub add_records-Touches :
    (batch : DeliveryBatch) (records : List ParsedRecord)
    → All IsNumbered records
    → ((add_records batch records).next_sequence ≡ batch.next_sequence)
      ⊎ Touches (add_records batch records).next_sequence records
unfolding add_records add_record Touches
add_records-Touches batch [] h = inl refl
add_records-Touches batch (r ∷ records) h =
    elim (add_records-Touches (add_record batch r) records h.1) [
      | inr later ↦ inr (inr later)
      | inl same ↦ elim (next_after-numbered r batch.next_sequence h.0) [
        | inl kept ↦ inl (same ∙ kept)
        | inr here ↦ inr (inl (same ∙ here))
      ]
    ]

-- A batch that is built of numbered records holds their payloads in their order, begins with the
-- number of the first, and its next sequence number is past all of them, but for the last number of
-- 64 bits.
build_delivery_batch_from_records-IsPast :
    (first : ParsedRecord) (others : List ParsedRecord) (fallback_shard fallback_sequence : ℕ)
    (numbered : All IsNumbered (first ∷ others))
    → let batch =
        build_delivery_batch_from_records (first ∷ others) fallback_shard fallback_sequence in
      (batch.records ≡ payloads (first ∷ others))
      × (batch.shard ≡ first.shard)
      × (batch.first_sequence ≡ first.sequence)
      × All (IsPast batch.next_sequence) (first ∷ others)
unfolding build_delivery_batch_from_records empty_batch
build_delivery_batch_from_records-IsPast first others fallback_shard fallback_sequence numbered =
    let start =
      empty_batch first.shard (if first.has_sequence then first.sequence else fallback_sequence) in
    let records = first ∷ others in
    (
      add_records-payloads start records,
      add_records-shard start records,
      add_records-first start records ∙ rw numbered.0 refl,
      (add_records-IsPast start records numbered).1,
    )
