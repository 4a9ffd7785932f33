-- ===== src/Sharding.antt =====
-- 39-Sharding/main.go: keys spread over maps by their hash. `none` stands for `os.Exit(1)`.
mod Placement
mod Tests
use design_with_ts_go.Base.{
  ℕ, zero, suc, ◌+◌, ◌-◌, ◌*◌, ◌/◌, ◌%◌, ◌^◌, ◌≤◌, ◌<◌, max, min, ◌≡◌, refl, sym, ap, ◌∙◌, ◌≢◌, ◌↔◌,
  ◌⊎◌, inl, inr, ite, if_pos, if_neg, Bool, true, false, not, ◌&&◌, ◌||◌, Option, none, some, List,
  [], ◌∷◌, ◌++◌, arith, ℕ_discrete, ltb, leb, ◌==◌, if◌then◌else◌, Bool-cases, Option-cases, length,
  get_elem?, set, replicate, length-append, length-set, length-replicate, All, get_or, is_some, Key,
  nat_key, same_key, Map, IsMap, lookup, assign, delete, lookup-assign, lookup-delete, assign-IsMap,
  delete-IsMap, length-assign, GoString, str, GoString-discrete, string_key, fnv1a_from,
  fnv1a_from-lt, fnv1a, assign_all, or_else, map_some, lookup-assign_all, assign_all-IsMap, ◌+ℤ◌,
  total, total-assign, total_ext, ℤ, pos, negsuc, pos_part, neg_part, sub_ℕ, ◌≤ℤ◌, leb_ℤ, ltb_ℤ,
  ℤ-discrete, int_key, count_of, raise_all, count_of-raise_all, raise_all-IsMap,
}

pub record ShardedStore : Type 0 where
  pub shards : List (Map GoString GoString)

unfoldable pub new : ℤ → Option ShardedStore
new (negsuc _) = none
new (pos zero) = none
new (pos (suc n)) = some (record { shards = replicate (suc n) [] })

-- `int(hash32(key) % uint32(len(s.shards)))`
unfoldable pub shard_index : ShardedStore → GoString → ℕ
shard_index s key = fnv1a key % (length s.shards % 2 ^ 32)

-- `s.shards[idx]`; out of range Go panics.
unfoldable pub shard_at : ShardedStore → ℕ → Option (Map GoString GoString)
shard_at s idx = get_elem? s.shards idx

-- `none` is the panic on an index out of range.
unfoldable pub put : ShardedStore → GoString → GoString → Option ShardedStore
unfolding shard_index shard_at
put s key value =
    let idx = shard_index s key in
    map_some (λ shard. record { shards = set s.shards idx (assign key value shard) })
      (shard_at s idx)

-- The outer option is the panic, the inner one is `ok`.
unfoldable pub get : ShardedStore → GoString → Option (Option GoString)
unfolding shard_index shard_at
get s key = map_some (lookup key) (shard_at s (shard_index s key))
