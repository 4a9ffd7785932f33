-- ===== src/Crdt/Tests.antt =====
-- Runs of the counters of 35-CRDT/main.go, and instances of their theorems.
use design_with_ts_go.Base.{
  ◌≡◌, refl, [], ◌∷◌, ℕ_discrete, nat_key, lookup, assign, str, GoString-discrete, string_key,
  total, negsuc, int_key, raise_all,
}
use design_with_ts_go.Crdt.{
  value, PnCounter, pn_new, pn_increment, pn_decrement, pn_merge, pn_value, merge,
}
use design_with_ts_go.Crdt.Convergence.{IsValid, pn_merge_converges}

program : Unit {0}
unfolding pn_new pn_increment pn_decrement pn_merge pn_value value merge raise_all total lookup
    assign GoString-discrete ℕ_discrete
program = tt

abbrev a : PnCounter
a = record {
  positive = record { counts = (str "n1", 5) ∷ (str "n2", 3) ∷ [] };
  negative = record { counts = (str "n1", 2) ∷ [] };
}

abbrev b : PnCounter
b = record {
  positive = record { counts = (str "n2", 7) ∷ [] };
  negative = record { counts = (str "n3", 20) ∷ [] };
}

a-IsValid : IsValid a
unfolding program
a-IsValid = ((refl, (refl, tt)), (refl, tt))

b-IsValid : IsValid b
unfolding program
b-IsValid = ((refl, tt), (refl, tt))

pn_value_run : pn_value (pn_merge a b) ≡ negsuc 9
unfolding program
pn_value_run = refl

pn_merge_converges_example :
    (pn_value (pn_merge a b) ≡ pn_value (pn_merge b a))
    × (pn_value (pn_merge (pn_merge a b) pn_new) ≡ pn_value (pn_merge a (pn_merge b pn_new)))
    × (pn_value (pn_merge (pn_merge a b) b) ≡ pn_value (pn_merge a b))
unfolding pn_new
pn_merge_converges_example = pn_merge_converges a b pn_new a-IsValid b-IsValid (tt, tt)
