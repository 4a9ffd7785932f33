-- ===== src/Snowflake/Waiting.antt =====
-- 12-ID-Generator/main.go: the loop that waits for the next millisecond.
use Prim.Native.Nat.{bit_or}
use design_with_ts_go.Base.{
  ℕ, ◌*◌, ◌%◌, ◌^◌, ◌≡◌, refl, true, false, List, [], ◌∷◌, ◌++◌, ◌==◌, if◌then◌else◌, nat_key,
  string_key, ite-elim, if-elim, ℤ, ltb_ℤ, ℤ-discrete, int_key,
}
use design_with_ts_go.Snowflake.{
  word, SnowflakeGenerator, timestamp_at, finish, Outcome, gives, next_sequence, next_id, wait_next,
}

-- The call gives an identifier.
abbrev pub Returns : Outcome → Type 0
Returns o = (id : ℕ) × (after : SnowflakeGenerator) × (rest : List ℤ) × (o ≡ gives id after rest)

finish-Returns :
    (g : SnowflakeGenerator) (timestamp : ℤ) (sequence : ℕ) (rest : List ℤ)
    → Returns (finish g timestamp sequence rest)
unfolding finish
finish-Returns g timestamp sequence rest = (
  bit_or (bit_or (word timestamp * 2 ^ 22 % 2 ^ 64) (g.machine_id * 2 ^ 12 % 2 ^ 64)) sequence,
  record g { sequence = sequence; last_timestamp = timestamp },
  rest,
  refl,
)

wait_next-Returns :
    (g : SnowflakeGenerator) (before : List ℤ) (later : ℤ) (rest : List ℤ)
    → ltb_ℤ g.last_timestamp (timestamp_at g.epoch_ms later) ≡ true
    → Returns (wait_next g (before ++ later ∷ rest))
unfolding wait_next
wait_next-Returns g [] later rest after =
    if-elim Returns (ltb_ℤ g.last_timestamp (timestamp_at g.epoch_ms later))
      (finish g (timestamp_at g.epoch_ms later) 0 rest) (wait_next g rest)
      (λ _. finish-Returns g (timestamp_at g.epoch_ms later) 0 rest) (λ e. absurd (cc))
wait_next-Returns g (now ∷ before) later rest after =
    if-elim Returns (ltb_ℤ g.last_timestamp (timestamp_at g.epoch_ms now))
      (finish g (timestamp_at g.epoch_ms now) 0 (before ++ later ∷ rest))
      (wait_next g (before ++ later ∷ rest))
      (λ _. finish-Returns g (timestamp_at g.epoch_ms now) 0 (before ++ later ∷ rest))
      (λ _. wait_next-Returns g before later rest after)

-- A call that starts at or after the last timestamp gives an identifier as soon as the clock shows
-- a later millisecond, whatever it showed before, the sequence full or not.
pub next_id-Returns :
    (g : SnowflakeGenerator) (now : ℤ) (before : List ℤ) (later : ℤ) (rest : List ℤ)
    → ltb_ℤ (timestamp_at g.epoch_ms now) g.last_timestamp ≡ false
    → ltb_ℤ g.last_timestamp (timestamp_at g.epoch_ms later) ≡ true
    → Returns (next_id g (now ∷ before ++ later ∷ rest))
unfolding next_id
next_id-Returns g now before later rest in_order after =
    let timestamp = timestamp_at g.epoch_ms now in
    let others = before ++ later ∷ rest in
    rw in_order (
      ite-elim Returns (ℤ-discrete timestamp g.last_timestamp)
        (if next_sequence g == 0
          then wait_next g others
          else finish g timestamp (next_sequence g) others)
        (finish g timestamp 0 others)
        (λ _.
          if-elim Returns (next_sequence g == 0) (wait_next g others)
            (finish g timestamp (next_sequence g) others)
            (λ _. wait_next-Returns g before later rest after)
            (λ _. finish-Returns g timestamp (next_sequence g) others))
        (λ _. finish-Returns g timestamp 0 others))
