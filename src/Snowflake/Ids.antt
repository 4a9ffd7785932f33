-- ===== src/Snowflake/Ids.antt =====
-- 12-ID-Generator/main.go: the identifiers of a sequence of calls.
use design_with_ts_go.Base.{
  ℕ, zero, suc, ◌/◌, ◌%◌, ◌^◌, ◌≤◌, ◌<◌, ◌≡◌, refl, sym, inl, inr, some, List, [], ◌∷◌, arith, ltb,
  Bool-cases, All, nat_key, string_key, ℤ, pos, negsuc, int_key,
}
use mathlib.Core.Path.{subst}
use mathlib.Core.Option.{some-injective}
use design_with_ts_go.Snowflake.{SnowflakeGenerator, new, Outcome, gives, waits, exits, next_id}
use design_with_ts_go.Snowflake.Fields.{code}
use design_with_ts_go.Snowflake.Order.{InWindow, IsReady, Step, Advances, next_id-Advances}

abbrev ids_after : (SnowflakeGenerator → List ℤ → List ℕ) → Outcome → List ℕ
ids_after more (gives id after rest) = id ∷ more after rest
ids_after more waits = []
ids_after more exits = []

-- The identifiers of `count` calls, each on the readings that the last one left, up to a call that
-- gives none.
abbrev pub ids : ℕ → SnowflakeGenerator → List ℤ → List ℕ
ids zero g readings = []
ids (suc count) g readings = ids_after (ids count) (next_id g readings)

-- Each number is above the one before it, and the first above a bound.
abbrev pub Climbs : ℕ → List ℕ → Type 0
Climbs floor [] = Unit
Climbs floor (x ∷ xs) = (floor < x) × Climbs x xs

abbrev pub Ascending : List ℕ → Type 0
Ascending [] = Unit
Ascending (x ∷ xs) = Climbs x xs

-- The identifier fits in 64 bits, and its second field is the machine.
abbrev pub IsOf : ℕ → ℕ → Type 0
IsOf machine id = (id < 2 ^ 64) × (id / 4096 % 1024 ≡ machine)

code-IsOf :
    (time machine sequence : ℕ)
    → time < 2 ^ 42
    → machine ≤ 1023
    → sequence ≤ 4095
    → IsOf machine (code time machine sequence)
code-IsOf time machine sequence t m s = (omega arith, omega arith)

module _ (machine : ℕ) (epoch : ℤ) where
  Step-IsOf :
      (g after : SnowflakeGenerator) (id : ℕ) (rest : List ℤ)
      → Step machine epoch g id after rest
      → IsOf machine id
  Step-IsOf g after id rest step =
      rw step.fields
        (code-IsOf step.time machine after.sequence step.fits step.ready.small step.ready.sequence)

  -- What is left to give after a call, above what the call gave.
  abbrev GoesOn : ℕ → Type 0
  GoesOn count =
      (g : SnowflakeGenerator) (readings : List ℤ) (l : ℕ)
      → IsReady machine epoch g
      → All (InWindow epoch) readings
      → g.last_timestamp ≡ pos l
      → Climbs (code l machine g.sequence) (ids count g readings)
        × All (IsOf machine) (ids count g readings)

  after_call :
      (count : ℕ) (g : SnowflakeGenerator) (o : Outcome)
      → GoesOn count
      → Advances machine epoch g o
      → Ascending (ids_after (ids count) o) × All (IsOf machine) (ids_after (ids count) o)
  after_call count g waits more step = (tt, tt)
  after_call count g exits more step = (tt, tt)
  after_call count g (gives id after rest) more step =
      let (up, of) = more after rest step.time step.ready step.readings step.last in
      (
        subst (λ x. Climbs x (ids count after rest)) (sym step.fields) up,
        (Step-IsOf g after id rest step, of),
      )

  first_above :
      (count : ℕ) (g : SnowflakeGenerator) (o : Outcome) (l : ℕ)
      → g.last_timestamp ≡ pos l
      → Advances machine epoch g o
      → Ascending (ids_after (ids count) o)
      → Climbs (code l machine g.sequence) (ids_after (ids count) o)
  first_above count g waits l last step h = tt
  first_above count g exits l last step h = tt
  first_above count g (gives id after rest) l last step h = (step.above l last, h)

  ids-Climbs : (count : ℕ) → GoesOn count
  ids-Climbs zero g readings l ready window last = (tt, tt)
  ids-Climbs (suc count) g readings l ready window last =
      let o = next_id g readings in
      let step = next_id-Advances machine epoch g readings ready window in
      let (up, of) = after_call count g o (ids-Climbs count) step in
      (first_above count g o l last step up, of)

  new-IsReady : (g : SnowflakeGenerator) → new machine epoch ≡ some g → IsReady machine epoch g
  unfolding new
  new-IsReady g e = elim (Bool-cases (ltb 1023 machine)) [
    | inl big ↦ absurd (ground (arith, big))
    | inr small ↦
        subst (IsReady machine epoch)
          (some-injective
            (record {
              machine_id = machine;
              epoch_ms = epoch;
              sequence = 0;
              last_timestamp = negsuc 0;
            })
            g (rw small at e))
          (record {
            own_machine = refl;
            small = ground arith;
            own_epoch = refl;
            sequence = omega arith;
          })
  ]

  -- The identifiers that a new generator gives in any number of calls increase strictly, fit in 64
  -- bits and carry the machine, when the clock reads times from the epoch on that fit in 42 bits.
  pub ids-Ascending :
      (count : ℕ) (g : SnowflakeGenerator) (readings : List ℤ)
      → new machine epoch ≡ some g
      → All (InWindow epoch) readings
      → Ascending (ids count g readings) × All (IsOf machine) (ids count g readings)
  ids-Ascending zero g readings e window = (tt, tt)
  ids-Ascending (suc count) g readings e window =
      after_call count g (next_id g readings) (ids-Climbs count)
        (next_id-Advances machine epoch g readings (new-IsReady g e) window)
