-- ===== src/Snowflake.antt =====
-- 12-ID-Generator/main.go: the generator of identifiers. The readings of the clock, in
-- milliseconds, are an argument: one for the call, and one for each round of the loop that waits
-- for the next millisecond. `waits` is a call that the readings end in. The mutex is held through
-- a call, so that calls are one after the other.
mod Fields
mod Order
mod Ids
mod Waiting
mod Tests
use Prim.Native.Nat.{bit_or, bit_and}
use design_with_ts_go.Base.{
  ℕ, zero, suc, ◌+◌, ◌-◌, ◌*◌, ◌/◌, ◌%◌, ◌^◌, ◌≤◌, ◌<◌, max, min, ◌≡◌, refl, sym, ap, ◌∙◌, ◌≢◌, ◌↔◌,
  ◌⊎◌, inl, inr, ite, if_pos, if_neg, Bool, true, false, not, ◌&&◌, ◌||◌, Option, none, some, List,
  [], ◌∷◌, ◌++◌, arith, ℕ_discrete, ltb, leb, ◌==◌, if◌then◌else◌, Bool-cases, Option-cases, length,
  get_elem?, set, replicate, length-append, length-set, length-replicate, All, get_or, is_some, Key,
  nat_key, same_key, Map, IsMap, lookup, assign, delete, lookup-assign, lookup-delete, assign-IsMap,
  delete-IsMap, length-assign, GoString, str, GoString-discrete, string_key, fnv1a_from,
  fnv1a_from-lt, fnv1a, assign_all, or_else, map_some, map_some_ne, Entries, map_values,
  Entries_map, length-map_values, lookup-map_values, map_values-IsMap, Entries-assign,
  Entries-lookup, Entries_weaken, Entries-assign_ne, ite-elim, keys, All-keys, lookup-All-keys,
  IsOrder, insert, sort, IsSorted, All-insert, All-sort, sort-All, sort-IsSorted, leb_string,
  leb_string-IsOrder, is_newer, newer, merge_newer, lookup-merge_newer, merge_newer-IsMap,
  get_elem?-lt, get_elem?-set, All-get, All-map, lookup-assign_all, assign_all-IsMap, ◌+ℤ◌, total,
  total-assign, total_ext, ℤ, pos, negsuc, pos_part, neg_part, sub_ℕ, ◌≤ℤ◌, leb_ℤ, ltb_ℤ,
  ℤ-discrete, int_key, count_of, raise_all, count_of-raise_all, raise_all-IsMap, add_parts, shifted,
  bit_or-shifted, mask, bit_and-mask, Among, Among-append, add_zero, add_assoc, zero_add, ℤ_ext,
}

pub record SnowflakeGenerator : Type 0 where
  pub machine_id : ℕ
  pub epoch_ms : ℤ
  pub sequence : ℕ
  pub last_timestamp : ℤ

-- `none` is the exit on a machine that does not fit in 10 bits.
unfoldable pub new : ℕ → ℤ → Option SnowflakeGenerator
new machine_id epoch_ms =
    if ltb 1023 machine_id
    then none
    else some (record {
      machine_id = machine_id;
      epoch_ms = epoch_ms;
      sequence = 0;
      last_timestamp = negsuc 0;
    })

-- `time.Now().UnixMilli() - g.epochMs`
abbrev pub timestamp_at : ℤ → ℤ → ℤ
timestamp_at epoch now = sub_ℕ (pos_part now + neg_part epoch) (pos_part epoch + neg_part now)

pub data Outcome : Type 0 where
  gives : ℕ → SnowflakeGenerator → List ℤ → Outcome
  waits exits : Outcome

-- `uint64(timestamp)`
abbrev pub word : ℤ → ℕ
word (pos n) = n % 2 ^ 64
word (negsuc n) = 2 ^ 64 - 1 - n % 2 ^ 64

unfoldable pub finish : SnowflakeGenerator → ℤ → ℕ → List ℤ → Outcome
finish g timestamp sequence rest =
    gives
      (bit_or (bit_or (word timestamp * 2 ^ 22 % 2 ^ 64) (g.machine_id * 2 ^ 12 % 2 ^ 64)) sequence)
      (record g { sequence = sequence; last_timestamp = timestamp }) rest

-- The loop until the next millisecond.
unfoldable pub wait_next : SnowflakeGenerator → List ℤ → Outcome
unfolding finish
wait_next g [] = waits
wait_next g (now ∷ rest) =
    let more = wait_next g rest in
    if ltb_ℤ g.last_timestamp (timestamp_at g.epoch_ms now)
    then finish g (timestamp_at g.epoch_ms now) 0 rest
    else more

-- `(g.sequence + 1) & 4095`
abbrev pub next_sequence : SnowflakeGenerator → ℕ
next_sequence g = bit_and ((g.sequence + 1) % 2 ^ 64) 4095

unfoldable pub next_id : SnowflakeGenerator → List ℤ → Outcome
unfolding finish wait_next
next_id g [] = waits
next_id g (now ∷ rest) =
    let timestamp = timestamp_at g.epoch_ms now in
    if ltb_ℤ timestamp g.last_timestamp
    then exits
    else ite (ℤ-discrete timestamp g.last_timestamp)
        (if next_sequence g == 0
          then wait_next g rest
          else finish g timestamp (next_sequence g) rest)
        (finish g timestamp 0 rest)
