-- ===== src/Snowflake/Fields.antt =====
-- 12-ID-Generator/main.go: the fields of an identifier.
use Prim.Native.Nat.{bit_or, bit_and}
use design_with_ts_go.Base.{
  ℕ, ◌+◌, ◌*◌, ◌%◌, ◌^◌, ◌≤◌, ◌<◌, ◌≡◌, arith, nat_key, string_key, pos, int_key, shifted,
  bit_or-shifted, bit_and-mask,
}
use design_with_ts_go.Snowflake.{word}

-- The identifier as a number: timestamp, machine and sequence, on 42, 10 and 12 bits.
abbrev pub code : ℕ → ℕ → ℕ → ℕ
code time machine sequence = time * 4194304 + machine * 4096 + sequence

pub packed :
    (time machine sequence : ℕ)
    → time < 2 ^ 42
    → machine ≤ 1023
    → sequence ≤ 4095
    → bit_or (bit_or (word (pos time) * 2 ^ 22 % 2 ^ 64) (machine * 2 ^ 12 % 2 ^ 64)) sequence
      ≡ code time machine sequence
packed time machine sequence t m s =
    let high : word (pos time) * 2 ^ 22 % 2 ^ 64 ≡ shifted 22 time = omega arith in
    let middle : machine * 2 ^ 12 % 2 ^ 64 ≡ machine * 4096 = omega arith in
    let two = bit_or-shifted 22 time (machine * 4096) (omega arith) in
    let both : shifted 22 time + machine * 4096 ≡ shifted 12 (time * 1024 + machine) =
      omega arith in
    let three = bit_or-shifted 12 (time * 1024 + machine) sequence (omega arith) in
    rw (high, middle, two, both, three) (omega arith)

pub sequence_mod : (s : ℕ) → s ≤ 4095 → bit_and ((s + 1) % 2 ^ 64) 4095 ≡ (s + 1) % 4096
sequence_mod s h = let (high, split, small) = bit_and-mask 12 ((s + 1) % 2 ^ 64) in omega arith
