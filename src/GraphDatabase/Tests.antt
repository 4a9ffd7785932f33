-- ===== src/GraphDatabase/Tests.antt =====
-- 28-Graph-Database/main.go: small graphs.
use design_with_ts_go.Base.{
  ◌≡◌, refl, ◌↔◌, ◌⊎◌, true, false, Option, none, some, List, [], ◌∷◌, ℕ_discrete, get_or, nat_key,
  lookup, assign, GoString, str, GoString-discrete, string_key, int_key,
}
use design_with_ts_go.GraphDatabase.{
  GraphDatabase, new, add_node, ensure_node, put_edge, add_edge, answer, shortest_path, search_from,
  scan, offer,
}
use design_with_ts_go.GraphDatabase.Paths.{Edge}
use design_with_ts_go.GraphDatabase.Answers.{IsAnswer, shortest_path_lem}
use design_with_ts_go.GraphDatabase.Edges.{IsGraph, IsNew, add_edge-Edge}
use design_with_ts_go.GraphDatabase.Runs.{Call, adds_node, adds_edge, call, run}

abbrev a : GoString
a = str "a"

abbrev b : GoString
b = str "b"

abbrev c : GoString
c = str "c"

abbrev d : GoString
d = str "d"

-- A node with nil properties, then a → b → c, a — d — c, and the edge c → a.
abbrev calls : List Call
calls =
    adds_node a none
    ∷ adds_edge a b true
    ∷ adds_edge b c true
    ∷ adds_edge a d false
    ∷ adds_edge d c false
    ∷ adds_edge c a true
    ∷ []

sample : GraphDatabase
unfolding run call add_node add_edge ensure_node put_edge new lookup assign GoString-discrete
    ℕ_discrete
sample = get_or (run new calls) new

search_test : shortest_path sample a c ≡ answer (some (a ∷ b ∷ c ∷ []))
unfolding sample run call add_node add_edge ensure_node put_edge new lookup assign GoString-discrete
    ℕ_discrete shortest_path search_from scan offer
search_test = refl

missing_test : shortest_path sample a (str "e") ≡ answer none
unfolding sample run call add_node add_edge ensure_node put_edge new lookup assign GoString-discrete
    ℕ_discrete shortest_path search_from scan offer
missing_test = refl

-- A node with nil properties reads as absent.
nil_test : shortest_path (add_node new a none) a a ≡ answer none
unfolding add_node new lookup assign shortest_path GoString-discrete ℕ_discrete
nil_test = refl

shortest_path_lem_example :
    (found : Option (List GoString)) × (shortest_path sample a c ≡ answer found)
    × IsAnswer sample a c found
unfolding sample run call add_node add_edge ensure_node put_edge new lookup assign GoString-discrete
    ℕ_discrete
shortest_path_lem_example = shortest_path_lem sample a c refl refl

empty-IsGraph : IsGraph new
unfolding new lookup
empty-IsGraph id found = cc

add_edge-Edge_example :
    (next : GraphDatabase) × (add_edge new a b false ≡ some next)
    × IsGraph next
    × ((u v : GoString) → Edge next u v ↔ (Edge new u v ⊎ IsNew a b false u v))
add_edge-Edge_example = add_edge-Edge new a b false empty-IsGraph
