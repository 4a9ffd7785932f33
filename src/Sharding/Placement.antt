-- ===== src/Sharding/Placement.antt =====
-- Where 39-Sharding/main.go puts a key, and what it reads back.
use design_with_ts_go.Base.{
  get_elem?-lt, get_elem?-set, ℕ, zero, suc, ◌^◌, ◌<◌, ◌≡◌, some, [], arith, length, get_elem?, set,
  replicate, length-set, nat_key, Map, lookup, assign, lookup-assign, GoString, string_key, int_key,
}
use design_with_ts_go.Sharding.{ShardedStore, shard_index, put}

-- There is a shard, and their number fits `uint32`, so that no access is out of range.
abbrev pub IsSized : ShardedStore → Type 0
IsSized s = (0 < length s.shards) × (length s.shards < 2 ^ 32)

-- Each key that a shard holds hashes to that shard.
abbrev pub IsPlaced : ShardedStore → Type 0
IsPlaced s =
    (i : ℕ) (key : GoString) (shard : Map GoString GoString) (value : GoString)
    → get_elem? s.shards i ≡ some shard
    → lookup key shard ≡ some value
    → shard_index s key ≡ i

shard_index-lt :
    (s : ShardedStore) (key : GoString) → IsSized s → shard_index s key < length s.shards
unfolding shard_index
shard_index-lt s key h = grind arith

put_lem :
    (s : ShardedStore) (key value : GoString)
    → IsSized s
    → (shard : Map GoString GoString) × (get_elem? s.shards (shard_index s key) ≡ some shard)
      × (put s key value
          ≡ some (record { shards = set s.shards (shard_index s key) (assign key value shard) }))
unfolding put
put_lem s key value h =
    let (shard, e) = get_elem?-lt s.shards (shard_index s key) (shard_index-lt s key h) in
    (shard, e, rw e)

new-IsPlaced :
    (n i : ℕ) (shard : Map GoString GoString)
    → get_elem? (replicate n []) i ≡ some shard
    → shard ≡ []
new-IsPlaced zero i shard e = cc
new-IsPlaced (suc n) zero shard e = cc
new-IsPlaced (suc n) (suc i) shard e = new-IsPlaced n i shard e

-- `Put` keeps every key in the shard that it hashes to.
pub put-IsPlaced :
    (s t : ShardedStore) (key value : GoString)
    → IsSized s
    → IsPlaced s
    → put s key value ≡ some t
    → IsPlaced t
put-IsPlaced s t key value h placed put_t i k shard' v at_i found =
    let (shard, e, stored) = put_lem s key value h in
    let size = length-set s.shards (shard_index s key) (assign key value shard) in
    let r : ShardedStore = record {
      shards = set s.shards (shard_index s key) (assign key value shard);
    } in
    let same : shard_index r k ≡ shard_index s k = unfold shard_index in rw size in
    ground (
      arith,
      same,
      e,
      stored,
      lookup-assign k key value shard,
      placed i k shard' v,
      placed (shard_index s key) k shard v e,
      get_elem?-set s.shards (shard_index s key) i (assign key value shard)
          (shard_index-lt s key h),
    )
