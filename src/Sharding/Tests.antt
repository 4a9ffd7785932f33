-- ===== src/Sharding/Tests.antt =====
-- Runs of the store of 39-Sharding/main.go, and instances of its theorems.
use design_with_ts_go.Base.{
  zero, suc, ◌≡◌, refl, none, some, [], ◌∷◌, arith, ℕ_discrete, nat_key, lookup, assign,
  GoString-discrete, string_key, fnv1a_from, fnv1a, pos, int_key,
}
use design_with_ts_go.Sharding.{ShardedStore, new, shard_index, shard_at, put, get}
use design_with_ts_go.Sharding.Placement.{IsPlaced}

program : Unit {0}
unfolding new shard_index shard_at put get fnv1a fnv1a_from lookup assign GoString-discrete
    ℕ_discrete
program = tt

abbrev three : ShardedStore
three = record { shards = [] ∷ [] ∷ [] ∷ [] }

new_run : (new (pos 3) ≡ some three) × (new (pos 0) ≡ none)
unfolding program
new_run = (refl, refl)

three-IsPlaced : IsPlaced three
unfolding program
three-IsPlaced zero key shard value at_i found = ground arith
three-IsPlaced (suc zero) key shard value at_i found = ground arith
three-IsPlaced (suc (suc zero)) key shard value at_i found = ground arith
three-IsPlaced (suc (suc (suc i))) key shard value at_i found = cc
