-- ===== src/BucketHashTable/Tests.antt =====
-- Runs of the table of 03-Hash-Table/bucket-hash-table.go, and instances of its theorems.
use design_with_ts_go.Base.{
  ℕ, zero, suc, ◌≡◌, refl, some, List, [], ◌∷◌, ℕ_discrete, nat_key, lookup, assign, GoString,
  GoString-discrete, string_key, fnv1a_from, fnv1a, pos, int_key,
}
use design_with_ts_go.BucketHashTable.{
  BucketHashTable, new, fnv_hash64_from, fnv_hash64, hash, should_grow, should_shrink, push,
  rehash_chain, rehash_all, resize, set_key, get, remove_entry, delete_key, Call, set_call,
  delete_call, run,
}
use design_with_ts_go.BucketHashTable.Buckets.{IsTable}
use design_with_ts_go.BucketHashTable.Lookups.{get-run_refines, map_run}

program : Unit {0}
unfolding new fnv_hash64_from fnv_hash64 hash should_grow should_shrink push rehash_chain rehash_all
    resize set_key get remove_entry delete_key run fnv1a_from fnv1a lookup assign GoString-discrete
    ℕ_discrete
program = tt

abbrev fill : ℕ → List Call
fill zero = []
fill (suc n) = set_call (n ∷ []) (n ∷ n ∷ []) ∷ fill n

abbrev full : BucketHashTable
full = run (new (pos 3)) (fill 13)

table_run :
    (full.capacity ≡ 32)
    × (full.size ≡ 13)
    × (get full (5 ∷ []) ≡ some (5 ∷ 5 ∷ []))
    × ((run full (
          delete_call (1 ∷ [])
          ∷ delete_call (2 ∷ [])
          ∷ delete_call (3 ∷ [])
          ∷ delete_call (4 ∷ [])
          ∷ delete_call (5 ∷ [])
          ∷ delete_call (6 ∷ [])
          ∷ [])).capacity
        ≡ 16)
    × (hash full (97 ∷ []) 64 ≡ 12)
unfolding program
table_run = (refl, refl, refl, refl, refl)

get-run_refines_example :
    IsTable (run (new (pos 3)) (fill 13))
    × ((key : GoString) → get (run (new (pos 3)) (fill 13)) key ≡ lookup key (map_run [] (fill 13)))
get-run_refines_example = get-run_refines (pos 3) (fill 13)
