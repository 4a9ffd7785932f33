-- ===== src/BloomFilter/Tests.antt =====
-- A run of the filter of 04-Bloom-Filter/main.go, and instances of its theorems.
use design_with_ts_go.Base.{
  ◌≡◌, refl, Bool, true, false, Option, none, some, List, [], ◌∷◌, arith, nat_key, GoString,
  string_key, fnv1a_from, int_key,
}
use design_with_ts_go.BloomFilter.{
  BloomFilter, new, read_bit, set_bit, indexes_from, indexes, set_bits, add, test_bits, has,
  add_all,
}
use design_with_ts_go.BloomFilter.Membership.{HasAll, add_all-HasAll}

program : Unit {0}
unfolding new read_bit set_bit indexes_from indexes set_bits add test_bits has add_all fnv1a_from
program = tt

abbrev names : List GoString
names = (97 ∷ []) ∷ (98 ∷ 99 ∷ []) ∷ []

abbrev look : GoString → Option BloomFilter → Option Bool
look value none = none
look value (some bf) = has bf value

filter_run :
    (look (97 ∷ []) (add_all (new 20 3) names) ≡ some true)
    × (look (98 ∷ 99 ∷ []) (add_all (new 20 3) names) ≡ some true)
    × (look (100 ∷ []) (add_all (new 20 3) names) ≡ some false)
    × (add (new 0 3) [] ≡ none)
unfolding program
filter_run = (refl, refl, refl, refl)

add_all-HasAll_example : HasAll names (add_all (new 20 3) names)
add_all-HasAll_example = add_all-HasAll 20 3 names (omega arith) (omega arith)
