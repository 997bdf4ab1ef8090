-- ===== src/Engine/Share.antt =====
-- The sharing out of a batch in src/log_engine.cc: what each shard is sent.
use seastar_log_engine.Prelude.{
  ℕ, zero, suc, ◌+◌, ◌<◌, ◌≡◌, refl, sym, ap, ◌∙◌, inl, inr, true, false, Bool-cases, List, [], ◌∷◌,
  ◌++◌, append-nil, append_assoc, arith, length, get_or, replicate, ◌==◌, if◌then◌else◌,
}
use seastar_log_engine.Config.{LogMessage}
use seastar_log_engine.Engine.{
  Submission, push_at, distribute, submissions, submit_shares, all_same_shard, submit_routed,
}

-- What a shard is sent by the submissions, in their order.
unfoldable pub sent : ℕ → List Submission → List LogMessage
sent shard [] = []
sent shard ((s, batch) ∷ subs) =
    let rest = sent shard subs in if s == shard then batch ++ rest else rest

-- The messages whose shard is this one, in their order.
unfoldable pub routed_to : ℕ → List ℕ → List LogMessage → List LogMessage
routed_to shard (s ∷ shards) (m ∷ messages) =
    let rest = routed_to shard shards messages in if s == shard then m ∷ rest else rest
routed_to shard [] messages = []
routed_to shard (s ∷ shards) [] = []

length-push_at :
    (s : ℕ) (m : LogMessage) (per_shard : List (List LogMessage))
    → length (push_at s m per_shard) ≡ length per_shard
unfolding push_at
length-push_at s m [] = refl
length-push_at zero m (batch ∷ per_shard) = refl
length-push_at (suc s) m (batch ∷ per_shard) = ap suc (length-push_at s m per_shard)

get_or-push_at :
    (shard s : ℕ) (m : LogMessage) (per_shard : List (List LogMessage))
    → shard < length per_shard
    → get_or (push_at s m per_shard) shard []
      ≡ get_or per_shard shard [] ++ (if s == shard then m ∷ [] else [])
unfolding push_at
get_or-push_at shard s m [] h = absurd (omega (arith, h))
get_or-push_at zero zero m (batch ∷ per_shard) h = refl
get_or-push_at zero (suc s) m (batch ∷ per_shard) h =
    let other : (suc s == 0) ≡ false = ground arith in rw other (sym (append-nil batch))
get_or-push_at (suc shard) zero m (batch ∷ per_shard) h =
    let other : (0 == suc shard) ≡ false = ground arith in
    rw other (sym (append-nil (get_or per_shard shard [])))
get_or-push_at (suc shard) (suc s) m (batch ∷ per_shard) h =
    let same : (suc s == suc shard) ≡ (s == shard) = ground arith in
    rw same (get_or-push_at shard s m per_shard (omega (arith, h)))

get_or-distribute :
    (shard : ℕ) (shards : List ℕ) (messages : List LogMessage) (per_shard : List (List LogMessage))
    → shard < length per_shard
    → get_or (distribute shards messages per_shard) shard []
      ≡ get_or per_shard shard [] ++ routed_to shard shards messages
unfolding distribute routed_to
get_or-distribute shard [] messages per_shard h = sym (append-nil _)
get_or-distribute shard (s ∷ shards) [] per_shard h = sym (append-nil _)
get_or-distribute shard (s ∷ shards) (m ∷ messages) per_shard h =
    let before = get_or per_shard shard [] in
    get_or-distribute shard shards messages (push_at s m per_shard)
      (omega (arith, h, length-push_at s m per_shard))
    ∙ ap (λ l. l ++ routed_to shard shards messages) (get_or-push_at shard s m per_shard h)
    ∙ append_assoc before (if s == shard then m ∷ [] else []) (routed_to shard shards messages)
    ∙ elim (Bool-cases (s == shard)) [ inl e ↦ rw e refl | inr e ↦ rw e refl ]

sent-cons :
    (shard s : ℕ) (batch : List LogMessage) (subs : List Submission)
    → sent shard ((s, batch) ∷ subs) ≡ (if s == shard then batch else []) ++ sent shard subs
unfolding sent
sent-cons shard s batch subs = elim (Bool-cases (s == shard)) [
  | inl e ↦ rw (sent, e) refl
  | inr e ↦ rw (sent, e) refl
]

submissions-cons :
    (shard first : ℕ) (batch : List LogMessage) (per_shard : List (List LogMessage))
    → sent shard (submissions first (batch ∷ per_shard))
      ≡ (if first == shard then batch else []) ++ sent shard (submissions (suc first) per_shard)
unfolding submissions
submissions-cons shard first [] per_shard = elim (Bool-cases (first == shard)) [
  | inl e ↦ rw e refl
  | inr e ↦ rw e refl
]
submissions-cons shard first (m ∷ batch) per_shard =
    let full : (suc (length batch) == 0) ≡ false = ground arith in
    rw (submissions, full) (sent-cons shard first (m ∷ batch) (submissions (suc first) per_shard))

sent-before :
    (shard first : ℕ) (per_shard : List (List LogMessage))
    → shard < first
    → sent shard (submissions first per_shard) ≡ []
unfolding sent submissions
sent-before shard first [] h = refl
sent-before shard first (batch ∷ per_shard) h =
    let other : (first == shard) ≡ false = ground (arith, h) in
    submissions-cons shard first batch per_shard
    ∙ rw other (sent-before shard (suc first) per_shard (omega (arith, h)))

-- What comes for a shard from the lists of the shards from `first` on.
sent-submissions :
    (shard first i : ℕ) (per_shard : List (List LogMessage))
    → shard ≡ first + i
    → sent shard (submissions first per_shard) ≡ get_or per_shard i []
unfolding sent submissions
sent-submissions shard first i [] h = refl
sent-submissions shard first zero (batch ∷ per_shard) h =
    let here : (first == shard) ≡ true = ground (arith, h) in
    submissions-cons shard first batch per_shard
    ∙ rw (here, sent-before shard (suc first) per_shard (omega (arith, h))) (append-nil batch)
sent-submissions shard first (suc i) (batch ∷ per_shard) h =
    let other : (first == shard) ≡ false = ground (arith, h) in
    submissions-cons shard first batch per_shard
    ∙ rw other (sent-submissions shard (suc first) i per_shard (omega (arith, h)))

get_or-replicate : (n i : ℕ) → get_or (replicate {A = List LogMessage} n []) i [] ≡ []
get_or-replicate zero i = refl
get_or-replicate (suc n) zero = refl
get_or-replicate (suc n) (suc i) = get_or-replicate n i

length-replicate : (n : ℕ) → length (replicate {A = List LogMessage} n []) ≡ n
length-replicate zero = refl
length-replicate (suc n) = ap suc (length-replicate n)

pub sent-submit_shares :
    (smp_count shard : ℕ) (shards : List ℕ) (messages : List LogMessage)
    → shard < smp_count
    → sent shard (submit_shares smp_count shards messages) ≡ routed_to shard shards messages
unfolding submit_shares
sent-submit_shares smp_count shard shards messages h =
    sent-submissions shard 0 shard (distribute shards messages (replicate smp_count []))
      (omega arith)
    ∙ get_or-distribute shard shards messages (replicate smp_count [])
        (omega (arith, h, length-replicate smp_count))
    ∙ ap (λ l. l ++ routed_to shard shards messages) (get_or-replicate smp_count shard)

-- Every message has this shard.
routed_to-same :
    (shard first : ℕ) (shards : List ℕ) (messages : List LogMessage)
    → all_same_shard first shards ≡ true
    → length shards ≡ length messages
    → routed_to shard shards messages ≡ (if first == shard then messages else [])
unfolding routed_to all_same_shard
routed_to-same shard first [] [] same h = elim (Bool-cases (first == shard)) [
  | inl e ↦ rw e refl
  | inr e ↦ rw e refl
]
routed_to-same shard first [] (m ∷ messages) same h = absurd (omega (arith, h))
routed_to-same shard first (s ∷ shards) [] same h = absurd (omega (arith, h))
routed_to-same shard first (s ∷ shards) (m ∷ messages) same h =
    let rest =
      routed_to-same shard first shards messages (ground (arith, same)) (omega (arith, h)) in
    elim (Bool-cases (first == shard)) [
      | inl e ↦
          let here : (s == shard) ≡ true = ground (arith, e, same) in
          rw (here, e) (ap (λ l. m ∷ l) (rest ∙ rw e refl))
      | inr e ↦
          let other : (s == shard) ≡ false = ground (arith, e, same) in
          rw (other, e) (rest ∙ rw e refl)
    ]

all_same_here :
    (first : ℕ) (shards : List ℕ)
    → all_same_shard first shards ≡ true
    → all_same_shard first (first ∷ shards) ≡ true
unfolding all_same_shard
all_same_here first shards e = ground (arith, e)

-- A batch that goes to one shard.
pub sent-one :
    (shard first : ℕ) (messages : List LogMessage)
    → sent shard ((first, messages) ∷ []) ≡ (if first == shard then messages else [])
unfolding sent
sent-one shard first messages =
    sent-cons shard first messages [] ∙ append-nil (if first == shard then messages else [])

pub sent-same :
    (shard first : ℕ) (shards : List ℕ) (messages : List LogMessage)
    → all_same_shard first shards ≡ true
    → length shards ≡ length messages
    → sent shard ((first, messages) ∷ []) ≡ routed_to shard shards messages
sent-same shard first shards messages same h =
    sent-one shard first messages ∙ sym (routed_to-same shard first shards messages same h)

pub sent-submit_routed :
    (smp_count shard : ℕ) (shards : List ℕ) (messages : List LogMessage)
    → shard < smp_count
    → length shards ≡ length messages
    → sent shard (submit_routed smp_count shards messages) ≡ routed_to shard shards messages
unfolding submit_routed
sent-submit_routed smp_count shard [] messages h k =
    sent-submit_shares smp_count shard [] messages h
sent-submit_routed smp_count shard (first ∷ shards) messages h k =
    elim (Bool-cases (all_same_shard first shards)) [
      | inl e ↦
          rw e (sent-same shard first (first ∷ shards) messages (all_same_here first shards e) k)
      | inr e ↦ rw e (sent-submit_shares smp_count shard (first ∷ shards) messages h)
    ]
