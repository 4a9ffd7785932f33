-- ===== src/OpenAddressing.antt =====
-- 03-Hash-Table/open-addressing-hash-table.go: the hash table with linear probing and tombstones.
-- The entries, which the program shares by pointers, are the values of the slots; `none` is a nil
-- slot. The thresholds 0.25 and 0.75 are counted in quarters. An index is taken modulo the
-- capacity, which is the number of slots, so that no access is out of range. The hash takes the
-- capacity modulo 2^32 and divides by it: the model is of tables with a capacity below 2^32, where
-- that is the capacity itself. The zero value of the type is an argument of `delete_key`.
mod Probing
mod Slots
mod Tests
use design_with_ts_go.Base.{
  ℕ, zero, suc, ◌-◌, ◌/◌, ◌+◌, ◌-◌, ◌*◌, ◌/◌, ◌%◌, ◌^◌, ◌≤◌, ◌<◌, max, min, ◌≡◌, refl, sym, ap, ◌∙◌,
  ◌≢◌, ◌↔◌, ◌⊎◌, inl, inr, ite, if_pos, if_neg, Bool, true, false, not, ◌&&◌, ◌||◌, Option, none,
  some, List, [], ◌∷◌, ◌++◌, arith, ℕ_discrete, ltb, leb, ◌==◌, if◌then◌else◌, Bool-cases,
  Option-cases, length, get_elem?, set, replicate, length-append, length-set, length-replicate, All,
  get_or, is_some, Key, nat_key, same_key, Map, IsMap, lookup, assign, delete, lookup-assign,
  lookup-delete, assign-IsMap, delete-IsMap, length-assign, GoString, str, GoString-discrete,
  string_key, fnv1a_from, fnv1a_from-lt, fnv1a, assign_all, or_else, map_some, map_some_ne, Entries,
  map_values, Entries_map, length-map_values, lookup-map_values, map_values-IsMap, Entries-assign,
  Entries-lookup, Entries_weaken, Entries-assign_ne, ite-elim, keys, All-keys, lookup-All-keys,
  IsOrder, insert, sort, IsSorted, All-insert, All-sort, sort-All, sort-IsSorted, leb_string,
  leb_string-IsOrder, is_newer, newer, merge_newer, lookup-merge_newer, merge_newer-IsMap,
  get_elem?-lt, get_elem?-set, All-get, All-map, lookup-assign_all, assign_all-IsMap, ◌+ℤ◌, total,
  total-assign, total_ext, ℤ, pos, negsuc, pos_part, neg_part, sub_ℕ, ◌≤ℤ◌, leb_ℤ, ltb_ℤ,
  ℤ-discrete, int_key, count_of, raise_all, count_of-raise_all, raise_all-IsMap, add_parts,
  add_zero, add_assoc, zero_add, ℤ_ext,
}

pub record OaHashEntry (V : Type 0) : Type 0 where
  pub key : GoString
  pub value : V
  pub deleted : Bool

-- No index is the program's -1.
pub record OaProbeResult : Type 0 where
  pub index : Option ℕ
  pub found : Bool

pub record OpenAddressingHashTable (V : Type 0) : Type 0 where
  pub size : ℕ
  pub used : ℕ
  pub capacity : ℕ
  pub buckets : List (Option (OaHashEntry V))
  pub minimum_threshold : ℕ
  pub maximum_threshold : ℕ
  pub minimum_capacity : ℕ

module _ {V : Type 0} where
  unfoldable pub new : ℤ → OpenAddressingHashTable V
  new capacity =
      let least = if ltb_ℤ capacity (pos 16) then 16 else pos_part capacity in
      record {
        size = 0;
        used = 0;
        capacity = least;
        buckets = replicate least none;
        minimum_threshold = 1;
        maximum_threshold = 3;
        minimum_capacity = 16;
      }

  -- `oaFNVHash32(key) % uint32(ht.capacity)`, where the capacity is no multiple of 2^32.
  unfoldable pub hash : OpenAddressingHashTable V → GoString → ℕ
  hash ht key = fnv1a key % (ht.capacity % 2 ^ 32)

  unfoldable pub should_grow : OpenAddressingHashTable V → Bool
  should_grow ht = ltb (ht.capacity * ht.maximum_threshold) (4 * ht.size)

  unfoldable pub should_shrink : OpenAddressingHashTable V → Bool
  should_shrink ht =
      ltb ht.minimum_capacity ht.capacity && ltb (4 * ht.size) (ht.capacity * ht.minimum_threshold)

  unfoldable pub should_grow_before_insert : OpenAddressingHashTable V → Bool
  should_grow_before_insert ht = ltb (ht.capacity * ht.maximum_threshold) (4 * (ht.size + 1))

  unfoldable pub should_clean_deleted_slots_before_insert : OpenAddressingHashTable V → Bool
  should_clean_deleted_slots_before_insert ht =
      ltb (ht.capacity * ht.maximum_threshold) (4 * (ht.used + 1))

  abbrev pub slot_at : OpenAddressingHashTable V → ℕ → Option (OaHashEntry V)
  slot_at ht index = get_or (get_elem? ht.buckets index) none

  -- `!entry.deleted && entry.key == key`
  abbrev pub holds_key : GoString → OaHashEntry V → Bool
  holds_key key entry = not entry.deleted && ite (same_key entry.key key) true false

  -- The first deleted slot, after one more slot is seen.
  abbrev pub note_deleted : Option ℕ → ℕ → Option (OaHashEntry V) → Option ℕ
  note_deleted first_deleted index none = first_deleted
  note_deleted first_deleted index (some entry) =
      if entry.deleted then or_else first_deleted (some index) else first_deleted

  -- The loop of `findSlot` from an offset on, for `count` more slots.
  unfoldable pub find_from : OpenAddressingHashTable V → GoString → ℕ → ℕ → Option ℕ → OaProbeResult
  unfolding hash
  find_from ht key offset zero first_deleted = record { index = first_deleted; found = false }
  find_from ht key offset (suc count) first_deleted =
      let index = (hash ht key + offset) % ht.capacity in
      let rest =
        find_from ht key (offset + 1) count (note_deleted first_deleted index (slot_at ht index)) in
      elim (slot_at ht index) [
        | none ↦ record { index = or_else first_deleted (some index); found = false }
        | some entry ↦
            if holds_key key entry then record { index = some index; found = true } else rest
      ]

  unfoldable pub find_slot : OpenAddressingHashTable V → GoString → OaProbeResult
  unfolding find_from
  find_slot ht key = find_from ht key 0 ht.capacity none

  abbrev pub put_at : OpenAddressingHashTable V → ℕ → OaHashEntry V → OpenAddressingHashTable V
  put_at ht index entry = record ht { buckets = set ht.buckets index (some entry) }

  abbrev pub live : GoString → V → OaHashEntry V
  live key value = record { key = key; value = value; deleted = false }

  -- `none` is the panic without a slot.
  unfoldable pub insert_rehashed_entry :
      OpenAddressingHashTable V → GoString → V → Option (OpenAddressingHashTable V)
  unfolding find_slot
  insert_rehashed_entry ht key value =
      map_some
        (λ index. record (put_at ht index (live key value)) {
          size = ht.size + 1;
          used = ht.used + 1;
        })
        (find_slot ht key).index

  -- The loop of `resize`.
  unfoldable pub rehash_entries :
      OpenAddressingHashTable V → List (Option (OaHashEntry V)) → Option (OpenAddressingHashTable V)
  unfolding insert_rehashed_entry
  rehash_entries ht [] = some ht
  rehash_entries ht (none ∷ entries) = rehash_entries ht entries
  rehash_entries ht (some entry ∷ entries) =
      let skipped = rehash_entries ht entries in
      let moved : Option (OpenAddressingHashTable V) =
        elim (insert_rehashed_entry ht entry.key entry.value) [
          | none ↦ none
          | some ht' ↦ rehash_entries ht' entries
        ] in
      if entry.deleted then skipped else moved

  unfoldable pub resize : OpenAddressingHashTable V → ℕ → Option (OpenAddressingHashTable V)
  unfolding rehash_entries
  resize ht new_capacity =
      let capacity =
        if ltb new_capacity ht.minimum_capacity then ht.minimum_capacity else new_capacity in
      rehash_entries
        (record ht { capacity = capacity; buckets = replicate capacity none; size = 0; used = 0 })
        ht.buckets

  -- The first two resizes of `Set`, before a slot is taken.
  unfoldable pub make_room : OpenAddressingHashTable V → Option (OpenAddressingHashTable V)
  unfolding should_grow_before_insert should_clean_deleted_slots_before_insert resize
  make_room ht =
      if should_grow_before_insert ht
      then resize ht (ht.capacity * 2)
      else if should_clean_deleted_slots_before_insert ht
      then resize ht ht.capacity
      else some ht

  -- The third resize of `Set`, for a key without a slot; `none` is the panic.
  unfoldable pub make_slot :
      OpenAddressingHashTable V → GoString → Option (OpenAddressingHashTable V × ℕ)
  unfolding find_slot resize
  make_slot ht key = elim (find_slot ht key).index [
    | some index ↦ some (ht, index)
    | none ↦ elim (resize ht (ht.capacity * 2)) [
      | none ↦ none
      | some ht' ↦ map_some (λ index. (ht', index)) (find_slot ht' key).index
    ]
  ]

  -- The end of `Set`, with a slot for the new entry.
  unfoldable pub insert_at :
      OpenAddressingHashTable V → ℕ → GoString → V → Option (OpenAddressingHashTable V)
  unfolding should_grow resize
  insert_at ht index key value =
      let added = record (put_at ht index (live key value)) {
        used = if is_some (slot_at ht index) then ht.used else ht.used + 1;
        size = ht.size + 1;
      } in
      if should_grow added then resize added (added.capacity * 2) else some added

  -- `none` is a panic on the way.
  unfoldable pub set_key :
      OpenAddressingHashTable V → GoString → V → Option (OpenAddressingHashTable V)
  unfolding find_slot make_room make_slot insert_at
  set_key ht key value =
      let slot = find_slot ht key in
      let inserted : Option (OpenAddressingHashTable V) = elim (make_room ht) [
        | none ↦ none
        | some ht' ↦ elim (make_slot ht' key) [
          | none ↦ none
          | some place ↦ insert_at place.0 place.1 key value
        ]
      ] in
      if slot.found
      then map_some (λ index. put_at ht index (live key value)) slot.index
      else inserted

  -- The loops of `Get` and `Delete`: the index of the key from an offset on, for `count` more slots.
  unfoldable pub seek_from : OpenAddressingHashTable V → GoString → ℕ → ℕ → Option ℕ
  unfolding hash
  seek_from ht key offset zero = none
  seek_from ht key offset (suc count) =
      let index = (hash ht key + offset) % ht.capacity in
      let rest = seek_from ht key (offset + 1) count in
      elim (slot_at ht index) [
        | none ↦ none
        | some entry ↦ if holds_key key entry then some index else rest
      ]

  unfoldable pub get : OpenAddressingHashTable V → GoString → Option V
  unfolding seek_from
  get ht key = elim (seek_from ht key 0 ht.capacity) [
    | none ↦ none
    | some index ↦ map_some (λ entry. entry.value) (slot_at ht index)
  ]

  -- `none` is a panic while the table shrinks.
  unfoldable pub delete_key :
      V → OpenAddressingHashTable V → GoString → Option (OpenAddressingHashTable V × Bool)
  unfolding seek_from should_shrink resize
  delete_key zero_value ht key = elim (seek_from ht key 0 ht.capacity) [
    | none ↦ some (ht, false)
    | some index ↦
        let removed : OpenAddressingHashTable V =
          record (put_at ht index (record { key = []; value = zero_value; deleted = true })) {
            size = ht.size - 1;
          } in
        if should_shrink removed
        then map_some (λ ht'. (ht', true)) (resize removed (ht.capacity / 2))
        else some (removed, true)
  ]
