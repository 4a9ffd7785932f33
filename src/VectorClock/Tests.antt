-- ===== src/VectorClock/Tests.antt =====
-- Runs of the clock of 34-Vector-Clocks/main.go, and instances of its theorems.
use design_with_ts_go.Base.{
  ◌≡◌, refl, ◌↔◌, [], ◌∷◌, ℕ_discrete, nat_key, IsMap, lookup, assign, str, GoString-discrete,
  string_key, raise_all,
}
use design_with_ts_go.VectorClock.{
  VectorClock, new, tick, merge, after, concurrent, mark_seen, scan, compare,
}
use design_with_ts_go.VectorClock.Order.{Relates, compare_iff}

program : Unit {0}
unfolding new tick merge raise_all mark_seen scan compare lookup assign GoString-discrete ℕ_discrete
program = tt

abbrev a : VectorClock
a = record { clock = (str "A", 2) ∷ (str "B", 1) ∷ [] }

abbrev b : VectorClock
b = record { clock = (str "B", 3) ∷ [] }

a_IsMap : IsMap a.clock
unfolding program
a_IsMap = (refl, (refl, tt))

b_IsMap : IsMap b.clock
unfolding program
b_IsMap = (refl, tt)

compare_concurrent : compare a b ≡ concurrent
unfolding program
compare_concurrent = refl

compare_late_test : compare (tick (tick new (str "A")) (str "A")) (tick new (str "A")) ≡ after
unfolding program
compare_late_test = refl

merge_run : merge a b ≡ record { clock = (str "A", 2) ∷ (str "B", 3) ∷ [] }
unfolding program
merge_run = refl

compare_iff_example : (compare a b ≡ concurrent) ↔ Relates concurrent a b
compare_iff_example = compare_iff a b concurrent
