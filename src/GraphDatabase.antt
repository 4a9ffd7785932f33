-- ===== src/GraphDatabase.antt =====
-- 28-Graph-Database/main.go: the graph in memory and the breadth-first search for a shortest path.
-- The properties of a node are a map that a caller may leave nil, which `none` stands for: a node
-- with nil properties reads as an absent one.
mod Paths
mod Rounds
mod Termination
mod Shortest
mod Answers
mod Edges
mod Runs
mod Tests
use design_with_ts_go.Base.{
  ℕ, zero, suc, ◌+◌, ◌-◌, ◌*◌, ◌/◌, ◌%◌, ◌^◌, ◌≤◌, ◌<◌, max, min, ◌≡◌, refl, sym, ap, ◌∙◌, ◌≢◌, ◌↔◌,
  ◌⊎◌, inl, inr, ite, if_pos, if_neg, Bool, true, false, not, ◌&&◌, ◌||◌, Option, none, some, List,
  [], ◌∷◌, ◌++◌, arith, ℕ_discrete, ltb, leb, ◌==◌, if◌then◌else◌, Bool-cases, Option-cases, length,
  get_elem?, set, replicate, length-append, length-set, length-replicate, All, get_or, is_some, Key,
  nat_key, same_key, Map, IsMap, lookup, assign, delete, lookup-assign, lookup-delete, assign-IsMap,
  delete-IsMap, length-assign, GoString, str, GoString-discrete, string_key, fnv1a_from,
  fnv1a_from-lt, fnv1a, assign_all, or_else, map_some, map_some_ne, Entries, map_values,
  Entries_map, length-map_values, lookup-map_values, map_values-IsMap, Entries-assign,
  Entries-lookup, Entries_weaken, Entries-assign_ne, ite-elim, keys, All-keys, lookup-All-keys,
  IsOrder, insert, sort, IsSorted, All-insert, All-sort, sort-All, sort-IsSorted, leb_string,
  leb_string-IsOrder, is_newer, newer, merge_newer, lookup-merge_newer, merge_newer-IsMap,
  get_elem?-lt, get_elem?-set, All-get, All-map, lookup-assign_all, assign_all-IsMap, ◌+ℤ◌, total,
  total-assign, total_ext, ℤ, pos, negsuc, pos_part, neg_part, sub_ℕ, ◌≤ℤ◌, leb_ℤ, ltb_ℤ,
  ℤ-discrete, int_key, count_of, raise_all, count_of-raise_all, raise_all-IsMap, add_parts,
  add_zero, add_assoc, zero_add, ℤ_ext, ℤ_ext,
}

abbrev pub Properties : Type 0
Properties = Map GoString GoString

pub record GraphDatabase : Type 0 where
  pub nodes : Map GoString (Option Properties)
  pub edges : Map GoString (Map GoString Bool)

unfoldable pub new : GraphDatabase
new = record { nodes = []; edges = [] }

-- `g.nodes[id]`
abbrev pub node_at : GraphDatabase → GoString → Option Properties
node_at g id = get_or (lookup id g.nodes) none

-- `g.edges[id]`; reading a nil map is reading an empty one.
abbrev pub edges_at : GraphDatabase → GoString → Map GoString Bool
edges_at g id = get_or (lookup id g.edges) []

unfoldable pub add_node : GraphDatabase → GoString → Option Properties → GraphDatabase
add_node g id properties = record {
  nodes = assign id properties g.nodes;
  edges = if is_some (lookup id g.edges) then g.edges else assign id [] g.edges;
}

-- The creation of a missing node with empty properties.
unfoldable pub ensure_node : GraphDatabase → GoString → GraphDatabase
unfolding add_node
ensure_node g id = if is_some (node_at g id) then g else add_node g id (some [])

-- `g.edges[from][to] = true`; `none` is the panic at an assignment to a nil map.
unfoldable pub put_edge : GoString → GoString → GraphDatabase → Option GraphDatabase
put_edge from to g = elim (lookup from g.edges) [
  | none ↦ none
  | some targets ↦ some (record g { edges = assign from (assign to true targets) g.edges })
]

unfoldable pub add_edge : GraphDatabase → GoString → GoString → Bool → Option GraphDatabase
unfolding ensure_node put_edge
add_edge g from to directed = elim (put_edge from to (ensure_node (ensure_node g from) to)) [
  | none ↦ none
  | some linked ↦ if directed then some linked else put_edge to from linked
]

-- The queue of paths and the names that were seen.
pub record Frontier : Type 0 where
  pub queue : List (List GoString)
  pub seen : Map GoString Bool

-- `seen[id]`
abbrev pub is_seen : Frontier → GoString → Bool
is_seen s id = get_or (lookup id s.seen) false

-- The body of the loop over the neighbours.
unfoldable pub offer : List GoString → Frontier → GoString → Frontier
offer path s next =
    if is_seen s next
    then s
    else record { queue = s.queue ++ (path ++ next ∷ []) ∷ []; seen = assign next true s.seen }

unfoldable pub scan : List GoString → List GoString → Frontier → Frontier
unfolding offer
scan path [] s = s
scan path (next ∷ nexts) s = scan path nexts (offer path s next)

-- `path[len(path)-1]`
abbrev pub last_of : List GoString → Option GoString
last_of path = get_elem? path (length path - 1)

pub data Outcome : Type 0 where
  answer : Option (List GoString) → Outcome
  index_panic out_of_fuel : Outcome

-- The names over which `for next := range g.edges[node]` runs.
abbrev pub neighbours : GraphDatabase → GoString → List GoString
neighbours g node = keys (edges_at g node)

-- The loop over the queue; one unit of fuel is one path taken from it.
unfoldable pub search_from :
    GraphDatabase → GoString → ℕ → List (List GoString) → Map GoString Bool → Outcome
unfolding scan
search_from g end fuel [] seen = answer none
search_from g end zero (path ∷ rest) seen = out_of_fuel
search_from g end (suc fuel) (path ∷ rest) seen = elim (last_of path) [
  | none ↦ index_panic
  | some node ↦
      let s = scan path (neighbours g node) (record { queue = rest; seen = seen }) in
      let more = search_from g end fuel s.queue s.seen in
      ite (same_key node end) (answer (some path)) more
]

-- The targets of all edges, one after the other; each is queued once at most.
abbrev pub all_targets : Map GoString (Map GoString Bool) → List GoString
all_targets [] = []
all_targets ((_, targets) ∷ edges) = keys targets ++ all_targets edges

unfoldable pub shortest_path : GraphDatabase → GoString → GoString → Outcome
unfolding search_from
shortest_path g start end =
    if not (is_some (node_at g start))
    then answer none
    else if not (is_some (node_at g end))
    then answer none
    else search_from g end (length (all_targets g.edges) + 1) ((start ∷ []) ∷ [])
        ((start, true) ∷ [])
