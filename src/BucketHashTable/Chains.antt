-- ===== src/BucketHashTable/Chains.antt =====
-- The chains of 03-Hash-Table/bucket-hash-table.go.
use mathlib.Core.Path.{subst}
use design_with_ts_go.Base.{
  ℕ, zero, suc, ◌+◌, ◌%◌, ◌≤◌, ◌<◌, ◌≡◌, refl, sym, ◌≢◌, inl, inr, if_pos, if_neg, Option, none,
  some, List, [], ◌∷◌, arith, Option-cases, length, get_elem?, set, get_or, nat_key, same_key,
  IsMap, lookup, delete, delete-IsMap, GoString, string_key, fnv1a, or_else, Entries,
  Entries-lookup, ite-elim, int_key,
}
use design_with_ts_go.BucketHashTable.{KeyValuePairs, remove_entry}

-- The bucket that a key belongs to.
abbrev pub index_of : ℕ → GoString → ℕ
index_of capacity key = fnv1a key % capacity

-- A chain whose keys are different and belong to the bucket.
abbrev pub IsChain : ℕ → ℕ → KeyValuePairs → Type 0
IsChain capacity index chain = IsMap chain × Entries (λ k v. index_of capacity k ≡ index) chain

-- Chains for the buckets from an index on.
abbrev pub ChainsFrom : ℕ → ℕ → List KeyValuePairs → Type 0
ChainsFrom capacity index [] = Unit
ChainsFrom capacity index (chain ∷ chains) =
    IsChain capacity index chain × ChainsFrom capacity (index + 1) chains

-- The number of entries.
abbrev pub count : List KeyValuePairs → ℕ
count [] = 0
count (chain ∷ chains) = length chain + count chains

pub ChainsFrom-set :
    (capacity index n : ℕ) (chains : List KeyValuePairs) (chain : KeyValuePairs)
    → ChainsFrom capacity index chains
    → IsChain capacity (index + n) chain
    → ChainsFrom capacity index (set chains n chain)
ChainsFrom-set capacity index n [] chain h c = tt
ChainsFrom-set capacity index zero (x ∷ chains) chain h c =
    (subst (λ i. IsChain capacity i chain) (omega arith) c, h.1)
ChainsFrom-set capacity index (suc n) (x ∷ chains) chain h c = (
  h.0,
  ChainsFrom-set capacity (index + 1) n chains chain h.1
      (subst (λ i. IsChain capacity i chain) (omega arith) c),
)

pub ChainsFrom-get :
    (capacity index n : ℕ) (chains : List KeyValuePairs)
    → ChainsFrom capacity index chains
    → IsChain capacity (index + n) (get_or (get_elem? chains n) [])
ChainsFrom-get capacity index n [] h = (tt, tt)
ChainsFrom-get capacity index zero (x ∷ chains) h =
    subst (λ i. IsChain capacity i x) (omega arith) h.0
ChainsFrom-get capacity index (suc n) (x ∷ chains) h =
    subst (λ i. IsChain capacity i (get_or (get_elem? chains n) [])) (omega arith)
      (ChainsFrom-get capacity (index + 1) n chains h.1)

pub count-set :
    (n : ℕ) (chains : List KeyValuePairs) (chain : KeyValuePairs)
    → n < length chains
    → count (set chains n chain) + length (get_or (get_elem? chains n) [])
      ≡ count chains + length chain
count-set n [] chain h = absurd (omega arith)
count-set zero (x ∷ chains) chain h = omega arith
count-set (suc n) (x ∷ chains) chain h = omega (arith, count-set n chains chain (omega arith))

pub lookup-index_of :
    (capacity index : ℕ) (chain : KeyValuePairs) (key : GoString)
    → IsChain capacity index chain
    → lookup key chain ≢ none
    → index_of capacity key ≡ index
lookup-index_of capacity index chain key h found = elim (Option-cases (lookup key chain)) [
  | inl absent ↦ absurd (found absent)
  | inr (v, e) ↦ Entries-lookup (λ k v. index_of capacity k ≡ index) key v chain h.1 e
]

-- The entry of a key in any of the chains, the last one first.
unfoldable pub find : GoString → List KeyValuePairs → Option GoString
find key [] = none
find key (chain ∷ chains) = or_else (find key chains) (lookup key chain)

pub find_below :
    (capacity index : ℕ) (chains : List KeyValuePairs) (key : GoString)
    → ChainsFrom capacity index chains
    → index_of capacity key < index
    → find key chains ≡ none
unfolding find
find_below capacity index [] key h below = refl
find_below capacity index (chain ∷ chains) key h below = elim (Option-cases (lookup key chain)) [
  | inl absent ↦ rw (find_below capacity (index + 1) chains key h.1 (omega arith), absent) refl
  | inr (v, e) ↦
      absurd
        (omega (arith, lookup-index_of capacity index chain key h.0 (λ a. ground (arith, a, e))))
]

pub or_else-none : (o : Option GoString) → or_else o none ≡ o
or_else-none none = refl
or_else-none (some v) = refl

pub find-get :
    (capacity index n : ℕ) (chains : List KeyValuePairs) (key : GoString)
    → ChainsFrom capacity index chains
    → index_of capacity key ≡ index + n
    → find key chains ≡ lookup key (get_or (get_elem? chains n) [])
unfolding find
find-get capacity index n [] key h e = unfold lookup in refl
find-get capacity index zero (chain ∷ chains) key h e =
    rw (find_below capacity (index + 1) chains key h.1 (omega arith)) refl
find-get capacity index (suc n) (chain ∷ chains) key h e = elim (Option-cases (lookup key chain)) [
  | inl absent ↦
      rw (find-get capacity (index + 1) n chains key h.1 (omega arith), absent)
        (or_else-none (lookup key (get_or (get_elem? chains n) [])))
  | inr (v, f) ↦
      absurd
        (omega (arith, lookup-index_of capacity index chain key h.0 (λ a. ground (arith, a, f))))
]

delete_absent :
    (k : GoString) (chain : KeyValuePairs) → lookup k chain ≡ none → delete k chain ≡ chain
unfolding delete lookup
delete_absent k [] e = refl
delete_absent k ((j, v) ∷ chain) e = ground (arith, delete_absent k chain)

pub remove_entry-delete :
    (key : GoString) (chain : KeyValuePairs)
    → IsMap chain
    → remove_entry key chain ≡ delete key chain
unfolding remove_entry delete
remove_entry-delete key [] h = refl
remove_entry-delete key ((k, v) ∷ chain) h = elim (same_key k key) [
  | yes p ↦
      rw (if_pos (same_key k key) p chain _, if_pos (same_key k key) p (delete key chain) _)
        (sym (delete_absent key chain (subst (λ i. lookup i chain ≡ none) p h.0)))
  | no p ↦
      rw
        (
          if_neg (same_key k key) p chain _,
          if_neg (same_key k key) p (delete key chain) _,
          remove_entry-delete key chain h.1,
        )
        refl
]

pub delete-IsChain :
    (capacity index : ℕ) (key : GoString) (chain : KeyValuePairs)
    → IsChain capacity index chain
    → IsChain capacity index (delete key chain)
unfolding delete
delete-IsChain capacity index key chain h =
    (delete-IsMap key chain h.0, delete-Entries key chain h.1)
  where
    delete-Entries :
        (key : GoString) (chain : KeyValuePairs)
        → Entries (λ k v. index_of capacity k ≡ index) chain
        → Entries (λ k v. index_of capacity k ≡ index) (delete key chain)
    delete-Entries key [] e = tt
    delete-Entries key ((j, v) ∷ chain) e =
        ite-elim (Entries (λ k v. index_of capacity k ≡ index)) (same_key j key) (delete key chain)
          ((j, v) ∷ delete key chain) (λ _. delete-Entries key chain e.1)
          (λ _. (e.0, delete-Entries key chain e.1))

pub length-remove_entry :
    (key : GoString) (chain : KeyValuePairs)
    → lookup key chain ≢ none
    → length (remove_entry key chain) + 1 ≡ length chain
unfolding remove_entry lookup
length-remove_entry key [] h = absurd (h refl)
length-remove_entry key ((k, v) ∷ chain) h = ground (arith, length-remove_entry key chain)

pub count-get :
    (n : ℕ) (chains : List KeyValuePairs) → length (get_or (get_elem? chains n) []) ≤ count chains
count-get n [] = omega arith
count-get zero (x ∷ chains) = omega arith
count-get (suc n) (x ∷ chains) = omega (arith, count-get n chains)
