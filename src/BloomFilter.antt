-- ===== src/BloomFilter.antt =====
-- 04-Bloom-Filter/main.go: the Bloom filter. A byte is the list of its eight bits, the lowest
-- first. The two sizes, which the program computes in floating point, are arguments of `new`; its
-- `uint32` arithmetic on them wraps.
mod Bits
mod Membership
mod Tests
use design_with_ts_go.Base.{
  ℕ, zero, suc, ◌+◌, ◌-◌, ◌*◌, ◌/◌, ◌%◌, ◌^◌, ◌≤◌, ◌<◌, max, min, ◌≡◌, refl, sym, ap, ◌∙◌, ◌≢◌, ◌↔◌,
  ◌⊎◌, inl, inr, ite, if_pos, if_neg, Bool, true, false, not, ◌&&◌, ◌||◌, Option, none, some, List,
  [], ◌∷◌, ◌++◌, arith, ℕ_discrete, ltb, leb, ◌==◌, if◌then◌else◌, Bool-cases, Option-cases, length,
  get_elem?, set, replicate, length-append, length-set, length-replicate, All, get_or, is_some, Key,
  nat_key, same_key, Map, IsMap, lookup, assign, delete, lookup-assign, lookup-delete, assign-IsMap,
  delete-IsMap, length-assign, GoString, str, GoString-discrete, string_key, fnv1a_from,
  fnv1a_from-lt, fnv1a, assign_all, or_else, map_some, map_some_ne, Entries, map_values,
  Entries_map, length-map_values, lookup-map_values, map_values-IsMap, Entries-assign,
  Entries-lookup, Entries_weaken, Entries-assign_ne, ite-elim, keys, All-keys, lookup-All-keys,
  IsOrder, insert, sort, IsSorted, All-insert, All-sort, sort-All, sort-IsSorted, leb_string,
  leb_string-IsOrder, is_newer, newer, merge_newer, lookup-merge_newer, merge_newer-IsMap,
  get_elem?-lt, get_elem?-set, All-get, All-map, lookup-assign_all, assign_all-IsMap, ◌+ℤ◌, total,
  total-assign, total_ext, ℤ, pos, negsuc, pos_part, neg_part, sub_ℕ, ◌≤ℤ◌, leb_ℤ, ltb_ℤ,
  ℤ-discrete, int_key, count_of, raise_all, count_of-raise_all, raise_all-IsMap, add_parts,
  add_zero, add_assoc, zero_add, ℤ_ext,
}

pub record BloomFilter : Type 0 where
  pub bits : List (List Bool)
  pub bit_size : ℕ
  pub hash_count : ℕ

unfoldable pub new : ℕ → ℕ → BloomFilter
new bit_size hash_count = record {
  bits = replicate ((bit_size + 7) % 2 ^ 32 / 8) (replicate 8 false);
  bit_size = bit_size;
  hash_count = hash_count;
}

-- `bits[index>>3]&(1<<(index&7)) != 0`; `none` is the panic out of range.
unfoldable pub read_bit : List (List Bool) → ℕ → Option Bool
read_bit bits index = elim (get_elem? bits (index / 8)) [
  | none ↦ none
  | some byte ↦ get_elem? byte (index % 8)
]

-- `bits[index>>3] |= 1 << (index & 7)`; `none` is the panic out of range.
unfoldable pub set_bit : List (List Bool) → ℕ → Option (List (List Bool))
set_bit bits index = elim (get_elem? bits (index / 8)) [
  | none ↦ none
  | some byte ↦ some (set bits (index / 8) (set byte (index % 8) true))
]

-- The loop of `indexes` from `i` on, for `count` more hashes; `none` is the division by zero.
unfoldable pub indexes_from : ℕ → ℕ → ℕ → ℕ → ℕ → Option (List ℕ)
indexes_from bit_size h1 h2 i zero = some []
indexes_from bit_size h1 h2 i (suc count) =
    let rest = indexes_from bit_size h1 h2 (i + 1) count in
    if bit_size == 0
    then none
    else map_some (λ later. (h1 + i * h2 % 2 ^ 32) % 2 ^ 32 % bit_size ∷ later) rest

unfoldable pub indexes : BloomFilter → GoString → Option (List ℕ)
unfolding indexes_from
indexes bf value =
    let h1 = fnv1a_from 2166136261 value in
    let h2 = fnv1a_from 16777619 value in
    indexes_from bf.bit_size h1 (if h2 == 0 then 1 else h2) 0 bf.hash_count

-- The loop of `Add`.
unfoldable pub set_bits : List (List Bool) → List ℕ → Option (List (List Bool))
set_bits bits [] = some bits
set_bits bits (index ∷ indexes) = elim (set_bit bits index) [
  | none ↦ none
  | some bits' ↦ set_bits bits' indexes
]

unfoldable pub add : BloomFilter → GoString → Option BloomFilter
unfolding indexes set_bits
add bf value = elim (indexes bf value) [
  | none ↦ none
  | some is ↦ map_some (λ bits. record bf { bits = bits }) (set_bits bf.bits is)
]

-- The loop of `Has`.
unfoldable pub test_bits : List (List Bool) → List ℕ → Option Bool
test_bits bits [] = some true
test_bits bits (index ∷ indexes) =
    let rest = test_bits bits indexes in
    elim (read_bit bits index) [ none ↦ none | some bit ↦ if bit then rest else some false ]

unfoldable pub has : BloomFilter → GoString → Option Bool
unfolding indexes test_bits
has bf value = elim (indexes bf value) [ none ↦ none | some is ↦ test_bits bf.bits is ]

-- A run of additions; `none` is a panic on the way.
unfoldable pub add_all : BloomFilter → List GoString → Option BloomFilter
unfolding add
add_all bf [] = some bf
add_all bf (value ∷ values) = elim (add bf value) [ none ↦ none | some bf' ↦ add_all bf' values ]
