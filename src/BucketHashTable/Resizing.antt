-- ===== src/BucketHashTable/Resizing.antt =====
-- A new capacity keeps what the table of 03-Hash-Table/bucket-hash-table.go holds.
use mathlib.Core.Path.{subst}
use design_with_ts_go.Base.{
  ℕ, zero, suc, ◌+◌, ◌≤◌, ◌≡◌, refl, sym, ap, ◌∙◌, ◌≢◌, inl, inr, ite, if_pos, if_neg, Option, none,
  some, List, [], ◌∷◌, arith, ltb, if◌then◌else◌, Option-cases, length, get_elem?, replicate,
  length-replicate, get_or, nat_key, same_key, IsMap, lookup, GoString, string_key, or_else,
  int_key,
}
use design_with_ts_go.BucketHashTable.{
  KeyValuePairs, BucketHashTable, hash, push, rehash_chain, rehash_all, resize, get,
}
use design_with_ts_go.BucketHashTable.Chains.{
  index_of, IsChain, ChainsFrom, count, lookup-index_of, find, find_below, find-get, or_else-none,
}
use design_with_ts_go.BucketHashTable.Buckets.{IsTable, push-IsTable, get-push}

-- A table into which the chain's entries can go: none of their keys is there.
abbrev IsNew : BucketHashTable → KeyValuePairs → Type 0
IsNew ht chain = (j : GoString) → lookup j chain ≢ none → get ht j ≡ none

-- What rehashing does.
record Rehashes (ht : BucketHashTable) (found : GoString → Option GoString) (entries : ℕ)
    (after : BucketHashTable) : Type 0 where
  table : IsTable after
  reads : (j : GoString) → get after j ≡ or_else (found j) (get ht j)
  capacity : after.capacity ≡ ht.capacity
  size : after.size ≡ ht.size + entries

capacity-push : (ht : BucketHashTable) (k v : GoString) → (push ht k v).capacity ≡ ht.capacity
unfolding push
capacity-push ht k v = refl

size-push : (ht : BucketHashTable) (k v : GoString) → (push ht k v).size ≡ ht.size + 1
unfolding push
size-push ht k v = refl

move_entry :
    (k v j : GoString) (chain : KeyValuePairs) (o : Option GoString)
    → lookup k chain ≡ none
    → or_else (lookup j chain) (ite (same_key k j) (some v) o)
      ≡ or_else (ite (same_key k j) (some v) (lookup j chain)) o
move_entry k v j chain o absent = elim (same_key k j) [
  | yes p ↦
      rw
        (
          if_pos (same_key k j) p (some v) o,
          if_pos (same_key k j) p (some v) (lookup j chain),
          subst (λ i. lookup i chain ≡ none) p absent,
        )
        refl
  | no p ↦
      rw (if_neg (same_key k j) p (some v) o, if_neg (same_key k j) p (some v) (lookup j chain))
        refl
]

rehash_chain_lem :
    (ht : BucketHashTable) (chain : KeyValuePairs)
    → IsTable ht
    → IsMap chain
    → IsNew ht chain
    → Rehashes ht (λ j. lookup j chain) (length chain) (rehash_chain ht chain)
unfolding rehash_chain lookup
rehash_chain_lem ht [] h distinct fresh = record {
  table = h;
  reads = λ j. refl;
  capacity = refl;
  size = omega arith;
}
rehash_chain_lem ht ((k, v) ∷ chain) h distinct fresh =
    let absent : get ht k ≡ none = fresh k (ground arith) in
    let pushed = push ht k v in
    let fresh' : IsNew pushed chain = λ j found. get-push ht k v j h ∙ (elim (same_key k j) [
      | yes p ↦ absurd (found (subst (λ i. lookup i chain ≡ none) p distinct.0))
      | no p ↦
          if_neg (same_key k j) p (some v) (get ht j)
          ∙ fresh j (λ e. found (sym (if_neg (same_key k j) p (some v) (lookup j chain)) ∙ e))
    ]) in
    let rest = rehash_chain_lem pushed chain (push-IsTable ht k v h absent) distinct.1 fresh' in
    record {
      table = rest.table;
      reads = λ j.
          rest.reads j ∙ rw (get-push ht k v j h) (move_entry k v j chain (get ht j) distinct.0);
      capacity = rest.capacity ∙ capacity-push ht k v;
      size = omega (arith, rest.size, size-push ht k v);
    }

or_else_assoc : (a b c : Option GoString) → or_else a (or_else b c) ≡ or_else (or_else a b) c
or_else_assoc none b c = refl
or_else_assoc (some v) b c = refl

or_else_left : (a b : Option GoString) → or_else a b ≡ none → a ≡ none
or_else_left none b e = refl
or_else_left (some v) b e = cc

or_else_right : (a b : Option GoString) → or_else a b ≡ none → b ≡ none
or_else_right none b e = e
or_else_right (some v) b e = cc

found_above :
    (capacity index : ℕ) (chains : List KeyValuePairs) (chain : KeyValuePairs) (j : GoString)
    → ChainsFrom capacity (index + 1) chains
    → IsChain capacity index chain
    → find j chains ≢ none
    → lookup j chain ≡ none
found_above capacity index chains chain j h c found = elim (Option-cases (lookup j chain)) [
  | inl absent ↦ absent
  | inr (v, e) ↦
      let here = lookup-index_of capacity index chain j c (λ a. ground (arith, a, e)) in
      absurd (found (find_below capacity (index + 1) chains j h (omega (arith, here))))
]

rehash_all_lem :
    (capacity index : ℕ) (ht : BucketHashTable) (chains : List KeyValuePairs)
    → IsTable ht
    → ChainsFrom capacity index chains
    → ((j : GoString) → find j chains ≢ none → get ht j ≡ none)
    → Rehashes ht (λ j. find j chains) (count chains) (rehash_all ht chains)
unfolding rehash_all find
rehash_all_lem capacity index ht [] h c fresh = record {
  table = h;
  reads = λ j. refl;
  capacity = refl;
  size = omega arith;
}
rehash_all_lem capacity index ht (chain ∷ chains) h c fresh =
    let first =
      rehash_chain_lem ht chain h c.0.0
        (λ j found. fresh j (λ e. found (or_else_right (find j chains) (lookup j chain) e))) in
    let rest =
      rehash_all_lem capacity (index + 1) (rehash_chain ht chain) chains first.table c.1 (λ j found.
        first.reads j
        ∙ rw (found_above capacity index chains chain j c.1 c.0 found)
            (fresh j (λ e. found (or_else_left (find j chains) (lookup j chain) e)))) in
    record {
      table = rest.table;
      reads = λ j.
          rest.reads j
          ∙ ap (or_else (find j chains)) (first.reads j)
          ∙ or_else_assoc (find j chains) (lookup j chain) (get ht j);
      capacity = rest.capacity ∙ first.capacity;
      size = omega (arith, rest.size, first.size);
    }

empty-ChainsFrom : (capacity index n : ℕ) → ChainsFrom capacity index (replicate n [])
empty-ChainsFrom capacity index zero = tt
empty-ChainsFrom capacity index (suc n) = ((tt, tt), empty-ChainsFrom capacity (index + 1) n)

empty-count : (n : ℕ) → 0 ≡ count (replicate n [])
empty-count zero = refl
empty-count (suc n) = omega (arith, empty-count n)

empty_bucket : (n i : ℕ) → get_or (get_elem? {A = KeyValuePairs} (replicate n []) i) [] ≡ []
empty_bucket zero i = refl
empty_bucket (suc n) zero = refl
empty_bucket (suc n) (suc i) = empty_bucket n i

-- The table with new buckets, all empty.
abbrev emptied : BucketHashTable → ℕ → BucketHashTable
emptied ht capacity = record ht { capacity = capacity; bucket = replicate capacity []; size = 0 }

pub empty-IsTable :
    (ht : BucketHashTable) (capacity : ℕ)
    → 16 ≤ capacity
    → ht.minimum_capacity ≡ 16
    → IsTable (record ht { capacity = capacity; bucket = replicate capacity []; size = 0 })
empty-IsTable ht capacity room least = record {
  chains = empty-ChainsFrom capacity 0 capacity;
  buckets = length-replicate capacity [];
  capacity = room;
  least = least;
  size = empty-count capacity;
}

pub empty-get :
    (ht : BucketHashTable) (capacity : ℕ) (key : GoString)
    → get (record ht { capacity = capacity; bucket = replicate capacity []; size = 0 }) key ≡ none
unfolding get lookup hash
empty-get ht capacity key = rw (empty_bucket capacity (index_of capacity key)) refl

found_in : (ht : BucketHashTable) (key : GoString) → IsTable ht → find key ht.bucket ≡ get ht key
unfolding get hash
found_in ht key h =
    find-get ht.capacity 0 (index_of ht.capacity key) ht.bucket key h.chains (omega arith)

-- A resized table is a table, of the same size, and every key reads as before.
pub resize_lem :
    (ht : BucketHashTable) (new_capacity : ℕ)
    → IsTable ht
    → IsTable (resize ht new_capacity)
      × ((key : GoString) → get (resize ht new_capacity) key ≡ get ht key)
      × ((resize ht new_capacity).size ≡ ht.size)
unfolding resize
resize_lem ht new_capacity h =
    let capacity =
      if ltb new_capacity ht.minimum_capacity then ht.minimum_capacity else new_capacity in
    let room : 16 ≤ capacity = ground (arith, h.least) in
    let all =
      rehash_all_lem ht.capacity 0 (emptied ht capacity) ht.bucket
        (empty-IsTable ht capacity room h.least) h.chains (λ j found. empty-get ht capacity j) in
    (
      all.table,
      λ key.
          all.reads key
          ∙ rw (empty-get ht capacity key) (or_else-none (find key ht.bucket) ∙ found_in ht key h),
      all.size ∙ omega (arith, h.size),
    )
