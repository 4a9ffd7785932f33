-- ===== src/GraphDatabase/Runs.antt =====
-- 28-Graph-Database/main.go: sequences of calls on a graph.
use design_with_ts_go.Base.{
  ◌≡◌, refl, Bool, Option, none, some, List, [], ◌∷◌, nat_key, lookup, GoString, string_key,
  int_key,
}
use design_with_ts_go.GraphDatabase.{Properties, GraphDatabase, new, add_node, add_edge}
use design_with_ts_go.GraphDatabase.Edges.{IsGraph, add_node-IsGraph, add_edge-Edge}

pub data Call : Type 0 where
  adds_node : GoString → Option Properties → Call
  adds_edge : GoString → GoString → Bool → Call

unfoldable pub call : GraphDatabase → Call → Option GraphDatabase
unfolding add_node add_edge
call g (adds_node id properties) = some (add_node g id properties)
call g (adds_edge from to directed) = add_edge g from to directed

abbrev pub and_then :
    List Call
    → (GraphDatabase → List Call → Option GraphDatabase)
    → Option GraphDatabase
    → Option GraphDatabase
and_then calls more none = none
and_then calls more (some g) = more g calls

-- `none` is a panic on the way.
unfoldable pub run : GraphDatabase → List Call → Option GraphDatabase
unfolding call
run g [] = some g
run g (c ∷ calls) = elim (call g c) [ none ↦ none | some next ↦ run next calls ]

new-IsGraph : IsGraph new
unfolding new lookup
new-IsGraph id found = cc

run_from :
    (g : GraphDatabase) (calls : List Call)
    → IsGraph g
    → (last : GraphDatabase) × (run g calls ≡ some last) × IsGraph last
unfolding run call
run_from g [] h = (g, refl, h)
run_from g (adds_node id properties ∷ calls) h =
    run_from (add_node g id properties) calls (add_node-IsGraph g id properties h)
run_from g (adds_edge from to directed ∷ calls) h =
    let (next, e, k, _) = add_edge-Edge g from to directed h in
    let (last, r, l) = run_from next calls k in (last, rw (e, run) r, l)

-- No sequence of calls on a new graph panics, not even after nodes with nil properties, and each
-- node with properties has an adjacency set at its end.
pub run-IsGraph :
    (calls : List Call) → (last : GraphDatabase) × (run new calls ≡ some last) × IsGraph last
run-IsGraph calls = run_from new calls new-IsGraph
