-- ===== src/Routing/Ring.antt =====
-- The ring of `ShardRouter`: its order, its size, and which entry owns a hash.
use mathlib.Core.Path.{subst}
use seastar_log_engine.Prelude.{
  sym, ltb, All-mono, ℕ, zero, suc, ◌+◌, ◌*◌, ◌≤◌, ◌<◌, ◌≡◌, refl, Bool-cases, true, false, ◌⊎◌,
  inl, inr, some, List, [], ◌∷◌, arith, All, length, length-append,
}
use seastar_log_engine.Routing.{
  RingEntry, entry_lt, insert_entry, sort_entries, shard_entries, ring_entries, lower_bound,
  find_owner,
}

-- No token is above one that follows it.
abbrev pub IsSorted : List RingEntry → Type 0
IsSorted [] = Unit
IsSorted (e ∷ ring) = All (λ x. e.token ≤ x.token) ring × IsSorted ring

module _ {κ} (P : RingEntry → Type κ) where
  pub insert_entry-All :
      (e : RingEntry) (ring : List RingEntry) → P e → All P ring → All P (insert_entry e ring)
  unfolding insert_entry
  insert_entry-All e [] p h = (p, tt)
  insert_entry-All e (x ∷ ring) p h = elim (Bool-cases (entry_lt e x)) [
    | inl before ↦ rw before (p, h)
    | inr after ↦ rw after (h.0, insert_entry-All e ring p h.1)
  ]

  pub sort_entries-All :
      (sorted entries : List RingEntry)
      → All P sorted
      → All P entries
      → All P (sort_entries sorted entries)
  unfolding sort_entries
  sort_entries-All sorted [] h k = h
  sort_entries-All sorted (e ∷ entries) h k =
      sort_entries-All (insert_entry e sorted) entries (insert_entry-All e sorted k.0 h) k.1

All-le_trans :
    (a b : ℕ) (ring : List RingEntry)
    → a ≤ b
    → All (λ x. b ≤ x.token) ring
    → All (λ x. a ≤ x.token) ring
All-le_trans a b [] h k = tt
All-le_trans a b (x ∷ ring) h k = (omega arith, All-le_trans a b ring h k.1)

entry_lt-token : (e x : RingEntry) → entry_lt e x ≡ true → e.token ≤ x.token
unfolding entry_lt
entry_lt-token e x h = ground arith

entry_lt-token_false : (e x : RingEntry) → entry_lt e x ≡ false → x.token ≤ e.token
unfolding entry_lt
entry_lt-token_false e x h = ground arith

insert_entry-IsSorted :
    (e : RingEntry) (ring : List RingEntry) → IsSorted ring → IsSorted (insert_entry e ring)
unfolding insert_entry
insert_entry-IsSorted e [] h = (tt, tt)
insert_entry-IsSorted e (x ∷ ring) h = elim (Bool-cases (entry_lt e x)) [
  | inl before ↦
      let le : e.token ≤ x.token = entry_lt-token e x before in
      rw before ((le, All-le_trans e.token x.token ring le h.0), h)
  | inr after ↦ rw after (
    insert_entry-All (λ y. x.token ≤ y.token) e ring (entry_lt-token_false e x after) h.0,
    insert_entry-IsSorted e ring h.1,
  )
]

pub sort_entries-IsSorted :
    (sorted entries : List RingEntry) → IsSorted sorted → IsSorted (sort_entries sorted entries)
unfolding sort_entries
sort_entries-IsSorted sorted [] h = h
sort_entries-IsSorted sorted (e ∷ entries) h =
    sort_entries-IsSorted (insert_entry e sorted) entries (insert_entry-IsSorted e sorted h)

length-insert_entry :
    (e : RingEntry) (ring : List RingEntry) → length (insert_entry e ring) ≡ suc (length ring)
unfolding insert_entry
length-insert_entry e [] = refl
length-insert_entry e (x ∷ ring) = ground (arith, length-insert_entry e ring)

pub length-sort_entries :
    (sorted entries : List RingEntry)
    → length (sort_entries sorted entries) ≡ length sorted + length entries
unfolding sort_entries
length-sort_entries sorted [] = omega arith
length-sort_entries sorted (e ∷ entries) =
    omega (arith, length-sort_entries (insert_entry e sorted) entries, length-insert_entry e sorted)

length-shard_entries : (shard vnode n : ℕ) → length (shard_entries shard vnode n) ≡ n
unfolding shard_entries
length-shard_entries shard vnode zero = refl
length-shard_entries shard vnode (suc n) = omega (arith, length-shard_entries shard (vnode + 1) n)

pub length-ring_entries : (count vnodes : ℕ) → length (ring_entries count vnodes) ≡ count * vnodes
unfolding ring_entries
length-ring_entries zero vnodes = omega arith
length-ring_entries (suc count) vnodes = omega (
  arith,
  length-append {0} (ring_entries count vnodes) (shard_entries count 0 vnodes),
  length-ring_entries count vnodes,
  length-shard_entries count 0 vnodes,
)

-- Inserting an entry changes the owner of a hash to that entry, or not at all.
lower_bound-front :
    (hash : ℕ) (f g : RingEntry) (ring : List RingEntry)
    → (lower_bound hash f ring ≡ f) ⊎ (lower_bound hash f ring ≡ lower_bound hash g ring)
unfolding lower_bound
lower_bound-front hash f g [] = inl refl
lower_bound-front hash f g (x ∷ ring) = ground (arith, lower_bound-front hash f g ring)

lower_bound-insert_entry :
    (hash : ℕ) (f e : RingEntry) (ring : List RingEntry)
    → (lower_bound hash f (insert_entry e ring) ≡ e)
      ⊎ (lower_bound hash f (insert_entry e ring) ≡ lower_bound hash f ring)
unfolding lower_bound insert_entry
lower_bound-insert_entry hash f e [] = ground arith
lower_bound-insert_entry hash f e (x ∷ ring) =
    ground (arith, lower_bound-insert_entry hash f e ring)

pub find_owner-insert_entry :
    (hash : ℕ) (e : RingEntry) (ring : List RingEntry)
    → (find_owner hash (insert_entry e ring) ≡ some e)
      ⊎ (find_owner hash (insert_entry e ring) ≡ find_owner hash ring)
unfolding find_owner lower_bound insert_entry
find_owner-insert_entry hash e [] = ground arith
find_owner-insert_entry hash e (x ∷ ring) =
    ground (arith, lower_bound-insert_entry hash x e ring, lower_bound-front hash e x ring)

lower_bound-below :
    (hash : ℕ) (f x : RingEntry) (ring : List RingEntry)
    → ltb x.token hash ≡ true
    → lower_bound hash f (x ∷ ring) ≡ lower_bound hash f ring
unfolding lower_bound
lower_bound-below hash f x ring h = rw h

lower_bound-above :
    (hash : ℕ) (f x : RingEntry) (ring : List RingEntry)
    → ltb x.token hash ≡ false
    → lower_bound hash f (x ∷ ring) ≡ x
unfolding lower_bound
lower_bound-above hash f x ring h = rw h

-- What the search returns from entry `front` of the ring's wrap: the first token at or above the
-- hash, or `front` if all are below it.
abbrev Splits : ℕ → RingEntry → List RingEntry → RingEntry → Type 0
Splits hash front ring e =
    ((hash ≤ e.token) × All (λ x. hash ≤ x.token → e.token ≤ x.token) ring)
    ⊎ ((e ≡ front) × All (λ x. x.token < hash) ring)

lower_bound_split :
    (hash : ℕ) (f : RingEntry) (ring : List RingEntry)
    → IsSorted ring
    → Splits hash f ring (lower_bound hash f ring)
lower_bound_split hash f [] s = inr (unfold lower_bound in refl, tt)
lower_bound_split hash f (x ∷ ring) s = elim (Bool-cases (ltb x.token hash)) [
  | inl below ↦
      subst (Splits hash f (x ∷ ring)) (sym (lower_bound-below hash f x ring below))
        (elim (lower_bound_split hash f ring s.1) [
          | inl (at, least) ↦ inl (at, (λ le. absurd (ground arith), least))
          | inr (wrap, all) ↦ inr (wrap, (ground arith, all))
        ])
  | inr above ↦ subst (Splits hash f (x ∷ ring)) (sym (lower_bound-above hash f x ring above)) (
      inl (
        ground arith,
        (
          λ le. omega arith,
          All-mono (λ (y : RingEntry). x.token ≤ y.token) _ (λ y le at. le) ring s.0,
        ),
      ))
]

-- The owner of a hash on a sorted ring: the first token at or above the hash, or, past the last
-- token, the lowest one.
abbrev pub Owns : ℕ → List RingEntry → RingEntry → Type 0
Owns hash ring e =
    ((hash ≤ e.token) × All (λ x. hash ≤ x.token → e.token ≤ x.token) ring)
    ⊎ (All (λ x. x.token < hash) ring × All (λ x. e.token ≤ x.token) ring)

pub find_owner-Owns :
    (hash : ℕ) (ring : List RingEntry) {e : RingEntry}
    → IsSorted ring
    → find_owner hash ring ≡ some e
    → Owns hash ring e
unfolding find_owner
find_owner-Owns hash [] s h = absurd (cc)
find_owner-Owns hash (x ∷ ring) {e} s h =
    let owner : lower_bound hash x (x ∷ ring) ≡ e = cc in
    subst (Owns hash (x ∷ ring)) owner (elim (lower_bound_split hash x (x ∷ ring) s) [
      | inl found ↦ inl found
      | inr (wrap, below) ↦ inr (
        below,
        subst (λ (d : RingEntry). All (λ y. d.token ≤ y.token) (x ∷ ring)) (sym wrap)
            (omega arith, s.0),
      )
    ])
