-- ===== src/BucketHashTable/Buckets.antt =====
-- What a write to one bucket of 03-Hash-Table/bucket-hash-table.go changes.
use mathlib.Core.Path.{subst}
use design_with_ts_go.Base.{
  ℕ, ◌+◌, ◌≤◌, ◌<◌, ◌≡◌, refl, ap, ◌∙◌, ite, if_neg, true, false, Option, none, some, ◌∷◌, arith,
  ℕ_discrete, ◌==◌, length, set, length-set, nat_key, same_key, lookup, GoString, string_key,
  get_elem?-set, int_key,
}
use design_with_ts_go.BucketHashTable.{KeyValuePairs, BucketHashTable, hash, bucket_at, push, get}
use design_with_ts_go.BucketHashTable.Chains.{
  index_of, IsChain, ChainsFrom, count, ChainsFrom-set, ChainsFrom-get, count-set,
}

-- Every access to a bucket is in range, every key stands once, in its bucket, and the size is
-- the number of entries.
pub record IsTable (ht : BucketHashTable) : Type 0 where
  pub chains : ChainsFrom ht.capacity 0 ht.bucket
  pub buckets : length ht.bucket ≡ ht.capacity
  pub capacity : 16 ≤ ht.capacity
  pub least : ht.minimum_capacity ≡ 16
  pub size : ht.size ≡ count ht.bucket

pub hash-lt :
    (ht : BucketHashTable) (key : GoString)
    → IsTable ht
    → index_of ht.capacity key < length ht.bucket
hash-lt ht key h = omega (arith, h.buckets, h.capacity)

-- A bucket replaced by a chain for it.
pub set_bucket-IsTable :
    (ht : BucketHashTable) (key : GoString) (chain : KeyValuePairs) (size : ℕ)
    → IsTable ht
    → IsChain ht.capacity (index_of ht.capacity key) chain
    → size + length (bucket_at ht (index_of ht.capacity key)) ≡ ht.size + length chain
    → IsTable (record ht { bucket = set ht.bucket (index_of ht.capacity key) chain; size = size })
set_bucket-IsTable ht key chain size h c e =
    let i = index_of ht.capacity key in
    record {
      chains =
          ChainsFrom-set ht.capacity 0 i ht.bucket chain h.chains
            (subst (λ n. IsChain ht.capacity n chain) (omega arith) c);
      buckets = length-set ht.bucket i chain ∙ h.buckets;
      capacity = h.capacity;
      least = h.least;
      size = omega (arith, e, h.size, count-set i ht.bucket chain (hash-lt ht key h));
    }

pub bucket_at-IsChain :
    (ht : BucketHashTable) (key : GoString)
    → IsTable ht
    → IsChain ht.capacity (index_of ht.capacity key) (bucket_at ht (index_of ht.capacity key))
bucket_at-IsChain ht key h =
    subst (λ n. IsChain ht.capacity n (bucket_at ht (index_of ht.capacity key))) (omega arith)
      (ChainsFrom-get ht.capacity 0 (index_of ht.capacity key) ht.bucket h.chains)

-- What is read after a bucket is replaced by a chain that differs at one key only.
pub get-set_bucket :
    (ht : BucketHashTable) (key other : GoString) (chain : KeyValuePairs) (size : ℕ)
    (v : Option GoString)
    → IsTable ht
    → ((j : GoString)
        → lookup j chain
          ≡ ite (same_key key j) v (lookup j (bucket_at ht (index_of ht.capacity key))))
    → get (record ht { bucket = set ht.bucket (index_of ht.capacity key) chain; size = size }) other
      ≡ ite (same_key key other) v (get ht other)
unfolding get hash
get-set_bucket ht key other chain size v h changed =
    let i = index_of ht.capacity key in
    let j = index_of ht.capacity other in
    elim (ℕ_discrete i j) [
      | yes p ↦
          let same : (i == j) ≡ true = ground (arith, p) in
          rw (get_elem?-set ht.bucket i j chain (hash-lt ht key h), same, changed other)
            (ap (λ n. ite (same_key key other) v (lookup other (bucket_at ht n))) p)
      | no p ↦
          let apart : (i == j) ≡ false = ground (arith, p) in
          rw
            (
              get_elem?-set ht.bucket i j chain (hash-lt ht key h),
              apart,
              if_neg (same_key key other) (λ e. p (ap (index_of ht.capacity) e)) v
                  (lookup other (bucket_at ht j)),
            )
            refl
    ]

pub push-IsTable :
    (ht : BucketHashTable) (key value : GoString)
    → IsTable ht
    → get ht key ≡ none
    → IsTable (push ht key value)
unfolding push hash get
push-IsTable ht key value h absent =
    let (distinct, placed) = bucket_at-IsChain ht key h in
    set_bucket-IsTable ht key ((key, value) ∷ bucket_at ht (index_of ht.capacity key)) (ht.size + 1)
      h ((absent, distinct), (refl, placed)) (omega arith)

pub get-push :
    (ht : BucketHashTable) (key value other : GoString)
    → IsTable ht
    → get (push ht key value) other ≡ ite (same_key key other) (some value) (get ht other)
unfolding push hash
get-push ht key value other h =
    get-set_bucket ht key other ((key, value) ∷ bucket_at ht (index_of ht.capacity key))
      (ht.size + 1) (some value) h (λ j. unfold lookup in refl)
