-- ===== src/OpenAddressing/Tests.antt =====
-- Runs of the table of 03-Hash-Table/open-addressing-hash-table.go, and instances of its theorems.
use design_with_ts_go.Base.{
  ℕ, zero, suc, ◌*◌, ◌≡◌, refl, Option, none, some, [], ◌∷◌, arith, ℕ_discrete, set, get_or,
  nat_key, GoString-discrete, string_key, fnv1a_from, fnv1a, map_some, pos, int_key,
}
use design_with_ts_go.OpenAddressing.{
  live, OpenAddressingHashTable, new, hash, should_grow, should_shrink, should_grow_before_insert,
  should_clean_deleted_slots_before_insert, find_from, find_slot, insert_rehashed_entry,
  rehash_entries, resize, make_room, make_slot, insert_at, set_key, seek_from, get, delete_key,
}
use design_with_ts_go.OpenAddressing.Slots.{Holds}
use design_with_ts_go.OpenAddressing.Probing.{get-set_key_update}

program : Unit {0}
unfolding new hash should_grow should_shrink should_grow_before_insert
    should_clean_deleted_slots_before_insert find_from find_slot insert_rehashed_entry
    rehash_entries resize make_room make_slot insert_at set_key seek_from get delete_key fnv1a_from
    fnv1a GoString-discrete ℕ_discrete
program = tt

-- Sets the keys n - 1, …, 0, and then deletes those below m.
abbrev fill : ℕ → Option (OpenAddressingHashTable ℕ) → Option (OpenAddressingHashTable ℕ)
fill n none = none
fill zero (some ht) = some ht
fill (suc n) (some ht) = fill n (set_key ht (n ∷ []) (10 * n))

abbrev empty : ℕ → Option (OpenAddressingHashTable ℕ) → Option (OpenAddressingHashTable ℕ)
empty n none = none
empty zero (some ht) = some ht
empty (suc n) (some ht) = empty n (map_some (λ r. r.0) (delete_key 0 ht (n ∷ [])))

abbrev sizes : Option (OpenAddressingHashTable ℕ) → Option (ℕ × ℕ × ℕ)
sizes o = map_some (λ ht. (ht.size, ht.used, ht.capacity)) o

abbrev read : ℕ → Option (OpenAddressingHashTable ℕ) → Option (Option ℕ)
read n o = map_some (λ ht. get ht (n ∷ [])) o

abbrev filled : Option (OpenAddressingHashTable ℕ)
filled = fill 13 (some (new (pos 3)))

table_test :
    (sizes filled ≡ some (13, 13, 32))
    × (read 5 filled ≡ some (some 50))
    × (read 13 filled ≡ some none)
    × (sizes (empty 5 filled) ≡ some (8, 13, 32))
    × (read 4 (empty 5 filled) ≡ some none)
    × (read 5 (empty 5 filled) ≡ some (some 50))
    × (sizes (empty 6 filled) ≡ some (7, 7, 16))
unfolding program
table_test = (refl, refl, refl, refl, refl, refl, refl)

abbrev one : OpenAddressingHashTable ℕ
one = get_or (fill 1 (some (new (pos 16)))) (new (pos 16))

get-set_key_update_example :
    (after : OpenAddressingHashTable ℕ) × (set_key one (0 ∷ []) 7 ≡ some after)
    × (get after (0 ∷ []) ≡ some 7)
    × (after.size ≡ 1)
    × (after.used ≡ 1)
    × (after.capacity ≡ 16)
    × ((index : ℕ) × Holds one (0 ∷ []) index
        × (after.buckets ≡ set one.buckets index (some (live (0 ∷ []) 7))))
unfolding program
get-set_key_update_example =
    get-set_key_update one (0 ∷ []) (0 ∷ []) 7 (omega arith) (omega arith) refl (ground arith)
