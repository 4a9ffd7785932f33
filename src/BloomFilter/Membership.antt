-- ===== src/BloomFilter/Membership.antt =====
-- What `Has` of 04-Bloom-Filter/main.go answers.
use mathlib.Core.Path.{subst}
use design_with_ts_go.Base.{
  ℕ, zero, suc, ◌+◌, ◌*◌, ◌/◌, ◌%◌, ◌^◌, ◌≤◌, ◌<◌, ◌≡◌, refl, sym, ap, true, false, Option, none,
  some, List, [], ◌∷◌, arith, ◌==◌, length, get_elem?, replicate, All, nat_key, GoString,
  string_key, All-map, int_key,
}
use design_with_ts_go.BloomFilter.{
  read_bit, BloomFilter, new, indexes_from, indexes, add, has, add_all, test_bits,
}
use design_with_ts_go.BloomFilter.Bits.{
  IsTable, Holds, set_bits_lem, test_bits-Holds, test_bits_inv, new-IsTable,
}

indexes_from-lt :
    (n h1 h2 i count : ℕ)
    → 1 ≤ n
    → (is : List ℕ) × (indexes_from n h1 h2 i count ≡ some is)
      × All (λ i. i < n) is
      × (length is ≡ count)
unfolding indexes_from
indexes_from-lt n h1 h2 i zero positive = ([], refl, tt, refl)
indexes_from-lt n h1 h2 i (suc count) positive =
    let (is, e, below, len) = indexes_from-lt n h1 h2 (i + 1) count positive in
    let some_size : (n == 0) ≡ false = ground arith in
    (
      (h1 + i * h2 % 2 ^ 32) % 2 ^ 32 % n ∷ is,
      rw (some_size, e) refl,
      (omega arith, below),
      ap suc len,
    )

indexes-lt :
    (bf : BloomFilter) (value : GoString)
    → 1 ≤ bf.bit_size
    → (is : List ℕ) × (indexes bf value ≡ some is)
      × All (λ i. i < bf.bit_size) is
      × (length is ≡ bf.hash_count)
unfolding indexes
indexes-lt bf value positive = indexes_from-lt bf.bit_size _ _ 0 bf.hash_count positive

-- What an addition does.
record Adds (bf : BloomFilter) (value : GoString) (after : BloomFilter) : Type 0 where
  done : add bf value ≡ some after
  table : IsTable bf.bit_size after.bits
  size : after.bit_size ≡ bf.bit_size
  holds : has after value ≡ some true
  keeps : (other : GoString) → has bf other ≡ some true → has after other ≡ some true

add_lem :
    (bf : BloomFilter) (value : GoString)
    → 1 ≤ bf.bit_size
    → IsTable bf.bit_size bf.bits
    → (after : BloomFilter) × Adds bf value after
unfolding add has indexes
add_lem bf value positive table =
    let (is, e, below, _) = indexes-lt bf value positive in
    let (bits, sets) = set_bits_lem bf.bit_size bf.bits is table below in
    (
      record bf { bits = bits },
      record {
        done = rw (e, add, sets.done) refl;
        table = sets.table;
        size = refl;
        holds = rw (e, has) (test_bits-Holds bits is sets.holds);
        keeps = λ other h.
            let (js, f, _, _) = indexes-lt bf other positive in
            rw (f, has)
              (test_bits-Holds bits js (
                All-map (Holds bf.bits) (Holds bits) js sets.keeps
                  (test_bits_inv bf.bits js (rw (f, has) at h))));
      },
    )

-- The filter exists, and it has every one of the values.
abbrev pub HasAll : List GoString → Option BloomFilter → Type 0
HasAll values none = ⊥
HasAll values (some bf) = All (λ value. has bf value ≡ some true) values

record AddsAll (bf : BloomFilter) (values : List GoString) (after : BloomFilter) : Type 0 where
  done : add_all bf values ≡ some after
  holds : All (λ value. has after value ≡ some true) values
  keeps : (other : GoString) → has bf other ≡ some true → has after other ≡ some true

add_all_lem :
    (bf : BloomFilter) (values : List GoString)
    → 1 ≤ bf.bit_size
    → IsTable bf.bit_size bf.bits
    → (after : BloomFilter) × AddsAll bf values after
unfolding add_all
add_all_lem bf [] positive table = (bf, record { done = refl; holds = tt; keeps = λ j h. h })
add_all_lem bf (value ∷ values) positive table =
    let (middle, first) = add_lem bf value positive table in
    let (after, rest) =
      add_all_lem middle values (rw first.size positive)
        (subst (λ n. IsTable n middle.bits) (sym first.size) first.table) in
    (
      after,
      record {
        done = rw (first.done, add_all) rest.done;
        holds = (rest.keeps value first.holds, rest.holds);
        keeps = λ j h. rest.keeps j (first.keeps j h);
      },
    )

-- A filter with at least one bit, and with fewer than 2^32 - 7 bits, never panics on any
-- additions, and afterwards has every added value: there is no false negative.
pub add_all-HasAll :
    (bit_size hash_count : ℕ) (values : List GoString)
    → 1 ≤ bit_size
    → bit_size + 7 < 2 ^ 32
    → HasAll values (add_all (new bit_size hash_count) values)
unfolding new
add_all-HasAll bit_size hash_count values positive small =
    let (after, adds) =
      add_all_lem (new bit_size hash_count) values positive (new-IsTable bit_size small) in
    rw adds.done adds.holds

get_elem?-replicate : {A : Type 0} (n i : ℕ) (a : A) → i < n → get_elem? (replicate n a) i ≡ some a
get_elem?-replicate zero i a below = absurd (omega arith)
get_elem?-replicate (suc n) zero a below = refl
get_elem?-replicate (suc n) (suc i) a below = get_elem?-replicate n i a (omega arith)

clear_bit : (n i : ℕ) → i < 8 * n → read_bit (replicate n (replicate 8 false)) i ≡ some false
unfolding read_bit
clear_bit n i below =
    rw (get_elem?-replicate n (i / 8) (replicate 8 false) (omega arith), read_bit)
      (get_elem?-replicate 8 (i % 8) false (omega arith))

clear_bits :
    (n : ℕ) (is : List ℕ)
    → All (λ i. i < n) is
    → 1 ≤ length is
    → n + 7 < 2 ^ 32
    → test_bits (replicate ((n + 7) % 2 ^ 32 / 8) (replicate 8 false)) is ≡ some false
unfolding test_bits
clear_bits n [] below some_index h = absurd (omega (arith, some_index))
clear_bits n (i ∷ is) below some_index h =
    rw (clear_bit ((n + 7) % 2 ^ 32 / 8) i (omega (arith, below.0)), test_bits) refl

-- A new filter with at least one hash, and with 1 to 2^32 - 8 bits, has no value.
pub new-has :
    (bit_size hash_count : ℕ) (value : GoString)
    → 1 ≤ bit_size
    → bit_size + 7 < 2 ^ 32
    → 1 ≤ hash_count
    → has (new bit_size hash_count) value ≡ some false
unfolding new has
new-has bit_size hash_count value positive small hashes =
    let (is, e, below, len) = indexes-lt (new bit_size hash_count) value positive in
    rw (e, has) (clear_bits bit_size is below (rw len hashes) small)
