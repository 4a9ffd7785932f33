-- ===== src/VectorClock.antt =====
-- 34-Vector-Clocks/main.go: the clock, its operations, and their comparison.
-- A method that changes its receiver returns the new clock.
mod Order
mod Tests
use design_with_ts_go.Base.{
  ℕ, ◌+◌, Bool, true, false, ◌||◌, List, [], ◌∷◌, GoString, string_key, Map, assign, count_of,
  raise_all, ltb, if◌then◌else◌,
}

pub record VectorClock : Type 0 where
  pub clock : Map GoString ℕ

unfoldable pub new : VectorClock
new = record { clock = [] }

-- `vc.clock[node]++`
unfoldable pub tick : VectorClock → GoString → VectorClock
tick vc node = record vc { clock = assign node (count_of node vc.clock + 1) vc.clock }

unfoldable pub merge : VectorClock → VectorClock → VectorClock
unfolding raise_all
merge vc other = record vc { clock = raise_all other.clock vc.clock }

-- The strings that `Compare` returns.
pub data Relation : Type 0 where
  before after equal concurrent : Relation

-- `for node := range clock { seen[node] = true }`
unfoldable pub mark_seen : Map GoString ℕ → Map GoString Bool → Map GoString Bool
mark_seen [] seen = seen
mark_seen ((node, _) ∷ clock) seen = mark_seen clock (assign node true seen)

-- The loop over `seen` with its two flags.
unfoldable pub scan : Map GoString Bool → VectorClock → VectorClock → Bool × Bool → Bool × Bool
scan [] vc other flags = flags
scan ((node, _) ∷ seen) vc other (less, greater) =
    let a = count_of node vc.clock in
    let b = count_of node other.clock in scan seen vc other (less || ltb a b, greater || ltb b a)

abbrev pub verdict : Bool × Bool → Relation
verdict (true, true) = concurrent
verdict (true, false) = before
verdict (false, true) = after
verdict (false, false) = equal

unfoldable pub compare : VectorClock → VectorClock → Relation
unfolding mark_seen scan
compare vc other =
    verdict (scan (mark_seen other.clock (mark_seen vc.clock [])) vc other (false, false))
