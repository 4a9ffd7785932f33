-- ===== src/BloomFilter/Bits.antt =====
-- The bit table of 04-Bloom-Filter/main.go: reading and setting bits.
use design_with_ts_go.Base.{
  ℕ, zero, suc, ◌+◌, ◌*◌, ◌/◌, ◌%◌, ◌^◌, ◌≤◌, ◌<◌, ◌≡◌, refl, sym, ◌∙◌, Bool, true, false, some,
  List, [], ◌∷◌, arith, ℕ_discrete, ◌==◌, if◌then◌else◌, length, get_elem?, set, replicate,
  length-set, length-replicate, All, nat_key, string_key, get_elem?-lt, get_elem?-set, All-get,
  int_key,
}
use design_with_ts_go.BloomFilter.{read_bit, set_bit, set_bits, test_bits}

-- A table with room for `n` bits.
pub record IsTable (n : ℕ) (bits : List (List Bool)) : Type 0 where
  pub bytes : All (λ byte. length byte ≡ 8) bits
  pub room : n ≤ 8 * length bits

abbrev pub Holds : List (List Bool) → ℕ → Type 0
Holds bits index = read_bit bits index ≡ some true

All-set :
    {A : Type 0} (P : A → Type 0) (xs : List A) (i : ℕ) (v : A)
    → All P xs
    → P v
    → All P (set xs i v)
All-set P [] i v h p = tt
All-set P (x ∷ xs) zero v h p = (p, h.1)
All-set P (x ∷ xs) (suc i) v h p = (h.0, All-set P xs i v h.1 p)

byte_at :
    (n : ℕ) (bits : List (List Bool)) (index : ℕ)
    → IsTable n bits
    → index < n
    → (byte : List Bool) × (get_elem? bits (index / 8) ≡ some byte) × (length byte ≡ 8)
byte_at n bits index table below =
    let (byte, found) = get_elem?-lt bits (index / 8) (omega (arith, table.room)) in
    (byte, found, All-get (λ byte. length byte ≡ 8) bits (index / 8) byte table.bytes found)

same_bit : (i j : ℕ) → i / 8 ≡ j / 8 → (i % 8 == j % 8) ≡ (i == j)
same_bit i j p = ground (arith, p)

read_bit-set :
    (bits : List (List Bool)) (i j : ℕ) (byte : List Bool)
    → i / 8 < length bits
    → i % 8 < length byte
    → get_elem? bits (i / 8) ≡ some byte
    → read_bit (set bits (i / 8) (set byte (i % 8) true)) j
      ≡ (if i == j then some true else read_bit bits j)
unfolding read_bit
read_bit-set bits i j byte in_range in_byte found = elim (ℕ_discrete (i / 8) (j / 8)) [
  | yes p ↦
      let same : (i / 8 == j / 8) ≡ true = ground (arith, p) in
      rw
        (
          get_elem?-set bits (i / 8) (j / 8) (set byte (i % 8) true) in_range,
          read_bit,
          same,
          get_elem?-set byte (i % 8) (j % 8) true in_byte,
          sym p,
          found,
          same_bit i j p,
        )
        refl
  | no p ↦
      let other : (i / 8 == j / 8) ≡ false = ground (arith, p) in
      let apart : (i == j) ≡ false = ground (arith, p) in
      rw
        (
          get_elem?-set bits (i / 8) (j / 8) (set byte (i % 8) true) in_range,
          read_bit,
          other,
          apart,
        )
        refl
]

-- What setting a bit does.
pub record Sets (n : ℕ) (bits : List (List Bool)) (index : ℕ) (after : List (List Bool))
    : Type 0 where
  pub done : set_bit bits index ≡ some after
  pub table : IsTable n after
  pub holds : Holds after index
  pub keeps : (j : ℕ) → Holds bits j → Holds after j

pub set_bit_lem :
    (n : ℕ) (bits : List (List Bool)) (index : ℕ)
    → IsTable n bits
    → index < n
    → (after : List (List Bool)) × Sets n bits index after
unfolding set_bit read_bit
set_bit_lem n bits index table below =
    let (byte, found, eight) = byte_at n bits index table below in
    let byte' = set byte (index % 8) true in
    let in_range : index / 8 < length bits = omega (arith, table.room) in
    let in_byte : index % 8 < length byte = omega (arith, eight) in
    (
      set bits (index / 8) byte',
      record {
        done = rw (found, set_bit) refl;
        table = record {
          bytes =
              All-set (λ byte. length byte ≡ 8) bits (index / 8) byte' table.bytes
                (length-set byte (index % 8) true ∙ eight);
          room = rw (length-set bits (index / 8) byte') table.room;
        };
        holds = ground (arith, read_bit-set bits index index byte in_range in_byte found);
        keeps = λ j h. ground (arith, read_bit-set bits index j byte in_range in_byte found);
      },
    )

-- What setting several bits does.
pub record SetsAll (n : ℕ) (bits : List (List Bool)) (indexes : List ℕ) (after : List (List Bool))
    : Type 0 where
  pub done : set_bits bits indexes ≡ some after
  pub table : IsTable n after
  pub holds : All (Holds after) indexes
  pub keeps : (j : ℕ) → Holds bits j → Holds after j

pub set_bits_lem :
    (n : ℕ) (bits : List (List Bool)) (indexes : List ℕ)
    → IsTable n bits
    → All (λ i. i < n) indexes
    → (after : List (List Bool)) × SetsAll n bits indexes after
unfolding set_bits
set_bits_lem n bits [] table below =
    (bits, record { done = refl; table = table; holds = tt; keeps = λ j h. h })
set_bits_lem n bits (index ∷ indexes) table below =
    let (middle, first) = set_bit_lem n bits index table below.0 in
    let (after, rest) = set_bits_lem n middle indexes first.table below.1 in
    (
      after,
      record {
        done = rw (first.done, set_bits) rest.done;
        table = rest.table;
        holds = (rest.keeps index first.holds, rest.holds);
        keeps = λ j h. rest.keeps j (first.keeps j h);
      },
    )

pub test_bits-Holds :
    (bits : List (List Bool)) (indexes : List ℕ)
    → All (Holds bits) indexes
    → test_bits bits indexes ≡ some true
unfolding test_bits
test_bits-Holds bits [] h = refl
test_bits-Holds bits (index ∷ indexes) h = rw (h.0, test_bits) (test_bits-Holds bits indexes h.1)

pub test_bits_inv :
    (bits : List (List Bool)) (indexes : List ℕ)
    → test_bits bits indexes ≡ some true
    → All (Holds bits) indexes
unfolding test_bits
test_bits_inv bits [] h = tt
test_bits_inv bits (index ∷ indexes) h = ground (arith, test_bits_inv bits indexes)

zero_bytes : (n : ℕ) → All (λ byte. length byte ≡ 8) (replicate n (replicate 8 false))
zero_bytes zero = tt
zero_bytes (suc n) = (refl, zero_bytes n)

-- The size does not wrap.
byte_count : (n : ℕ) → n + 7 < 2 ^ 32 → (n + 7) % 2 ^ 32 / 8 ≡ (n + 7) / 8
byte_count n h = omega arith

pub new-IsTable :
    (n : ℕ) → n + 7 < 2 ^ 32 → IsTable n (replicate ((n + 7) % 2 ^ 32 / 8) (replicate 8 false))
new-IsTable n h = rw (byte_count n h) record {
  bytes = zero_bytes ((n + 7) / 8);
  room = omega (arith, length-replicate ((n + 7) / 8) (replicate 8 false));
}
