-- ===== src/BucketHashTable.antt =====
-- 03-Hash-Table/bucket-hash-table.go: the hash table with chains. A chain of entries is the list of
-- its keys and values. The thresholds 0.25 and 0.75 are counted in quarters, in which the program's
-- floating point is exact. A key hashes below the capacity, which is the number of buckets, so that
-- no access is out of range.
mod Buckets
mod Chains
mod Resizing
mod Lookups
mod Tests
use Prim.Native.Nat.{bit_xor}
use design_with_ts_go.Base.{
  ℕ, zero, suc, ◌+◌, ◌-◌, ◌*◌, ◌/◌, ◌%◌, ◌^◌, ◌≤◌, ◌<◌, max, min, ◌≡◌, refl, sym, ap, ◌∙◌, ◌≢◌, ◌↔◌,
  ◌⊎◌, inl, inr, ite, if_pos, if_neg, Bool, true, false, not, ◌&&◌, ◌||◌, Option, none, some, List,
  [], ◌∷◌, ◌++◌, arith, ℕ_discrete, ltb, leb, ◌==◌, if◌then◌else◌, Bool-cases, Option-cases, length,
  get_elem?, set, replicate, length-append, length-set, length-replicate, All, get_or, is_some, Key,
  nat_key, same_key, Map, IsMap, lookup, assign, delete, lookup-assign, lookup-delete, assign-IsMap,
  delete-IsMap, length-assign, GoString, str, GoString-discrete, string_key, fnv1a_from,
  fnv1a_from-lt, fnv1a, assign_all, or_else, map_some, map_some_ne, Entries, map_values,
  Entries_map, length-map_values, lookup-map_values, map_values-IsMap, Entries-assign,
  Entries-lookup, Entries_weaken, Entries-assign_ne, ite-elim, keys, All-keys, lookup-All-keys,
  IsOrder, insert, sort, IsSorted, All-insert, All-sort, sort-All, sort-IsSorted, leb_string,
  leb_string-IsOrder, is_newer, newer, merge_newer, lookup-merge_newer, merge_newer-IsMap,
  get_elem?-lt, get_elem?-set, All-get, All-map, lookup-assign_all, assign_all-IsMap, ◌+ℤ◌, total,
  total-assign, total_ext, ℤ, pos, negsuc, pos_part, neg_part, sub_ℕ, ◌≤ℤ◌, leb_ℤ, ltb_ℤ,
  ℤ-discrete, int_key, count_of, raise_all, count_of-raise_all, raise_all-IsMap, add_parts,
  add_zero, add_assoc, zero_add, ℤ_ext,
}

-- The entries from `KeyValuePair` on along `next`.
abbrev pub KeyValuePairs : Type 0
KeyValuePairs = Map GoString GoString

pub record BucketHashTable : Type 0 where
  pub size : ℕ
  pub capacity : ℕ
  pub bucket : List KeyValuePairs
  pub minimum_threshold : ℕ
  pub maximum_threshold : ℕ
  pub minimum_capacity : ℕ

-- `FNVHash64` from a hash on.
unfoldable pub fnv_hash64_from : ℕ → GoString → ℕ
fnv_hash64_from hash [] = hash
fnv_hash64_from hash (byte ∷ key) = fnv_hash64_from (bit_xor hash byte * 1099511628211 % 2 ^ 64) key

unfoldable pub fnv_hash64 : GoString → ℕ
unfolding fnv_hash64_from
fnv_hash64 key = fnv_hash64_from 14695981039346656037 key

unfoldable pub new : ℤ → BucketHashTable
new capacity =
    let least = if ltb_ℤ capacity (pos 16) then 16 else pos_part capacity in
    record {
      size = 0;
      capacity = least;
      bucket = replicate least [];
      minimum_threshold = 1;
      maximum_threshold = 3;
      minimum_capacity = 16;
    }

unfoldable pub hash : BucketHashTable → GoString → ℕ → ℕ
unfolding fnv_hash64
hash ht key size = if size == 32 then fnv1a key % ht.capacity else fnv_hash64 key % ht.capacity

unfoldable pub should_grow : BucketHashTable → Bool
should_grow ht = ltb (ht.capacity * ht.maximum_threshold / 4) ht.size

unfoldable pub should_shrink : BucketHashTable → Bool
should_shrink ht =
    ltb ht.minimum_capacity ht.capacity && ltb ht.size (ht.capacity * ht.minimum_threshold / 4)

abbrev pub bucket_at : BucketHashTable → ℕ → KeyValuePairs
bucket_at ht index = get_or (get_elem? ht.bucket index) []

-- A new entry at the head of its bucket: in `Set`, and in the loop of `resize`.
unfoldable pub push : BucketHashTable → GoString → GoString → BucketHashTable
unfolding hash
push ht key value =
    let index = hash ht key 32 in
    record ht {
      bucket = set ht.bucket index ((key, value) ∷ bucket_at ht index);
      size = ht.size + 1;
    }

-- The inner loop of `resize`.
unfoldable pub rehash_chain : BucketHashTable → KeyValuePairs → BucketHashTable
unfolding push
rehash_chain ht [] = ht
rehash_chain ht ((key, value) ∷ entries) = rehash_chain (push ht key value) entries

-- The outer loop of `resize`.
unfoldable pub rehash_all : BucketHashTable → List KeyValuePairs → BucketHashTable
unfolding rehash_chain
rehash_all ht [] = ht
rehash_all ht (head ∷ buckets) = rehash_all (rehash_chain ht head) buckets

unfoldable pub resize : BucketHashTable → ℕ → BucketHashTable
unfolding rehash_all
resize ht new_capacity =
    let capacity =
      if ltb new_capacity ht.minimum_capacity then ht.minimum_capacity else new_capacity in
    rehash_all (record ht { capacity = capacity; bucket = replicate capacity []; size = 0 })
      ht.bucket

-- The loop of `Set` over a chain that has the key is `assign`.
unfoldable pub set_key : BucketHashTable → GoString → GoString → BucketHashTable
unfolding hash push should_grow resize assign
set_key ht key value =
    let index = hash ht key 32 in
    let pushed = push ht key value in
    elim (lookup key (bucket_at ht index)) [
      | some old ↦ record ht {
        bucket = set ht.bucket index (assign key value (bucket_at ht index));
      }
      | none ↦ if should_grow pushed then resize pushed (ht.capacity * 2) else pushed
    ]

unfoldable pub get : BucketHashTable → GoString → Option GoString
unfolding hash lookup
get ht key = lookup key (bucket_at ht (hash ht key 32))

-- The chain without the first entry that has the key.
unfoldable pub remove_entry : GoString → KeyValuePairs → KeyValuePairs
remove_entry key [] = []
remove_entry key ((k, value) ∷ entries) =
    ite (same_key k key) entries ((k, value) ∷ remove_entry key entries)

unfoldable pub delete_key : BucketHashTable → GoString → BucketHashTable × Bool
unfolding hash should_shrink resize remove_entry lookup
delete_key ht key =
    let index = hash ht key 32 in
    let removed = record ht {
      bucket = set ht.bucket index (remove_entry key (bucket_at ht index));
      size = ht.size - 1;
    } in
    elim (lookup key (bucket_at ht index)) [
      | none ↦ (ht, false)
      | some old ↦
          (if should_shrink removed then resize removed (ht.capacity / 2) else removed, true)
    ]

-- The calls of a client that change the table.
pub data Call : Type 0 where
  set_call : GoString → GoString → Call
  delete_call : GoString → Call

unfoldable pub run : BucketHashTable → List Call → BucketHashTable
unfolding set_key delete_key
run ht [] = ht
run ht (set_call key value ∷ calls) = run (set_key ht key value) calls
run ht (delete_call key ∷ calls) = run (delete_key ht key).0 calls
