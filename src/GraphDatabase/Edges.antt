-- ===== src/GraphDatabase/Edges.antt =====
-- 28-Graph-Database/main.go: the edges after calls of `AddNode` and `AddEdge`.
use design_with_ts_go.GraphDatabase.Paths.{Edge}
use design_with_ts_go.Base.{
  ◌≡◌, refl, ◌∙◌, ◌↔◌, ◌⊎◌, inl, inr, Bool, true, false, Option, some, [], ◌∷◌, arith,
  if◌then◌else◌, Bool-cases, is_some, nat_key, Map, lookup, assign, lookup-assign, GoString,
  string_key, keys, int_key, Among,
}
use design_with_ts_go.GraphDatabase.{
  Properties, GraphDatabase, node_at, edges_at, add_node, ensure_node, put_edge, add_edge,
}

-- Every node with properties has an adjacency set.
abbrev pub IsGraph : GraphDatabase → Type 0
IsGraph g = (id : GoString) → is_some (node_at g id) ≡ true → is_some (lookup id g.edges) ≡ true

pub add_node-IsGraph :
    (g : GraphDatabase) (id : GoString) (properties : Option Properties)
    → IsGraph g
    → IsGraph (add_node g id properties)
unfolding add_node
add_node-IsGraph g id properties h other found =
    ground
      (arith, h other, lookup-assign other id properties g.nodes, lookup-assign other id [] g.edges)

ensure_node-IsGraph : (g : GraphDatabase) (id : GoString) → IsGraph g → IsGraph (ensure_node g id)
unfolding ensure_node
ensure_node-IsGraph g id h = elim (Bool-cases (is_some (node_at g id))) [
  | inl there ↦ rw there h
  | inr missing ↦ rw missing (add_node-IsGraph g id (some []) h)
]

ensure_node-there :
    (g : GraphDatabase) (id : GoString)
    → IsGraph g
    → is_some (lookup id (ensure_node g id).edges) ≡ true
unfolding ensure_node add_node
ensure_node-there g id h = ground (arith, h id, lookup-assign id id [] g.edges)

-- A key stays a key.
ensure_node-keeps :
    (g : GraphDatabase) (id other : GoString)
    → is_some (lookup other g.edges) ≡ true
    → is_some (lookup other (ensure_node g id).edges) ≡ true
unfolding ensure_node add_node
ensure_node-keeps g id other there = ground (arith, lookup-assign other id [] g.edges)

put_edge_lem :
    (from to : GoString) (g : GraphDatabase)
    → is_some (lookup from g.edges) ≡ true
    → put_edge from to g
      ≡ some (record g { edges = assign from (assign to true (edges_at g from)) g.edges })
unfolding put_edge
put_edge_lem from to g there = ground arith

Among-keys :
    (v : GoString) (m : Map GoString Bool) → Among v (keys m) ↔ (is_some (lookup v m) ≡ true)
unfolding lookup
Among-keys v [] = (λ h. absurd h, λ h. cc)
Among-keys v ((w, b) ∷ m) = ground (arith, Among-keys v m)

-- After `put_edge`: the edges, and the node invariant.
linked : GoString → GoString → GraphDatabase → GraphDatabase
linked from to g = record g { edges = assign from (assign to true (edges_at g from)) g.edges }

linked-IsGraph : (from to : GoString) (g : GraphDatabase) → IsGraph g → IsGraph (linked from to g)
unfolding linked
linked-IsGraph from to g h id found =
    ground (arith, h id, lookup-assign id from (assign to true (edges_at g from)) g.edges)

has_edge-linked :
    (from to : GoString) (g : GraphDatabase) (u v : GoString)
    → (is_some (lookup v (edges_at (linked from to g) u)) ≡ true)
      ↔ ((is_some (lookup v (edges_at g u)) ≡ true) ⊎ ((from ≡ u) × (to ≡ v)))
unfolding linked
has_edge-linked from to g u v = ground (
  arith,
  lookup-assign u from (assign to true (edges_at g from)) g.edges,
  lookup-assign v to true (edges_at g from),
)

edges_at-ensure_node :
    (g : GraphDatabase) (id u : GoString) → edges_at (ensure_node g id) u ≡ edges_at g u
unfolding ensure_node add_node
edges_at-ensure_node g id u = ground (arith, lookup-assign u id [] g.edges)

is_some-linked :
    (from to : GoString) (g : GraphDatabase) (id : GoString)
    → is_some (lookup id g.edges) ≡ true
    → is_some (lookup id (linked from to g).edges) ≡ true
unfolding linked
is_some-linked from to g id there =
    ground (arith, lookup-assign id from (assign to true (edges_at g from)) g.edges)

-- The graph after `AddEdge`.
abbrev both_nodes : GraphDatabase → GoString → GoString → GraphDatabase
both_nodes g from to = ensure_node (ensure_node g from) to

abbrev added : GraphDatabase → GoString → GoString → Bool → GraphDatabase
added g from to directed =
    let once = linked from to (both_nodes g from to) in
    if directed then once else linked to from once

add_edge-added :
    (g : GraphDatabase) (from to : GoString) (directed : Bool)
    → IsGraph g
    → add_edge g from to directed ≡ some (added g from to directed)
unfolding add_edge linked
add_edge-added g from to directed h =
    let start = ensure_node g from in
    let first = ensure_node-keeps start to from (ensure_node-there g from h) in
    let second = ensure_node-there start to (ensure_node-IsGraph g from h) in
    let last = is_some-linked from to (both_nodes g from to) to second in
    rw (put_edge_lem from to (both_nodes g from to) first, add_edge)
      (put_back directed (put_edge_lem to from (linked from to (both_nodes g from to)) last))
  where
    put_back :
        (d : Bool)
        → put_edge to from (linked from to (both_nodes g from to))
          ≡ some (linked to from (linked from to (both_nodes g from to)))
        → (if d
            then some (linked from to (both_nodes g from to))
            else put_edge to from (linked from to (both_nodes g from to)))
          ≡ some (added g from to d)
    put_back true e = refl
    put_back false e = e

once-IsGraph :
    (g : GraphDatabase) (from to : GoString)
    → IsGraph g
    → IsGraph (linked from to (both_nodes g from to))
once-IsGraph g from to h =
    linked-IsGraph from to (both_nodes g from to)
      (ensure_node-IsGraph (ensure_node g from) to (ensure_node-IsGraph g from h))

added-IsGraph :
    (g : GraphDatabase) (from to : GoString) (directed : Bool)
    → IsGraph g
    → IsGraph (added g from to directed)
added-IsGraph g from to true h = once-IsGraph g from to h
added-IsGraph g from to false h =
    linked-IsGraph to from (linked from to (both_nodes g from to)) (once-IsGraph g from to h)

-- What `AddEdge` adds to the edges.
abbrev pub IsNew : GoString → GoString → Bool → GoString → GoString → Type 0
IsNew from to directed u v = ((from ≡ u) × (to ≡ v)) ⊎ ((directed ≡ false) × (to ≡ u) × (from ≡ v))

Edge-once :
    (g : GraphDatabase) (from to u v : GoString)
    → Edge (linked from to (both_nodes g from to)) u v ↔ (Edge g u v ⊎ ((from ≡ u) × (to ≡ v)))
Edge-once g from to u v =
    let b = both_nodes g from to in
    let kept : edges_at b u ≡ edges_at g u =
      edges_at-ensure_node (ensure_node g from) to u ∙ edges_at-ensure_node g from u in
    ground (
      arith,
      Among-keys v (edges_at (linked from to b) u),
      Among-keys v (edges_at g u),
      has_edge-linked from to b u v,
      kept,
    )

Edge-added :
    (g : GraphDatabase) (from to : GoString) (directed : Bool) (u v : GoString)
    → Edge (added g from to directed) u v ↔ (Edge g u v ⊎ IsNew from to directed u v)
Edge-added g from to true u v = ground (arith, Edge-once g from to u v)
Edge-added g from to false u v =
    let once = linked from to (both_nodes g from to) in
    ground (
      arith,
      Edge-once g from to u v,
      Among-keys v (edges_at (linked to from once) u),
      Among-keys v (edges_at once u),
      has_edge-linked to from once u v,
    )

-- In a graph where each node with properties has an adjacency set, `AddEdge` does not panic, the
-- graph after it is one again, and its edges are those before with the new one, and with the
-- reverse one where the edge is undirected.
pub add_edge-Edge :
    (g : GraphDatabase) (from to : GoString) (directed : Bool)
    → IsGraph g
    → (next : GraphDatabase) × (add_edge g from to directed ≡ some next)
      × IsGraph next
      × ((u v : GoString) → Edge next u v ↔ (Edge g u v ⊎ IsNew from to directed u v))
add_edge-Edge g from to directed h = (
  added g from to directed,
  add_edge-added g from to directed h,
  added-IsGraph g from to directed h,
  Edge-added g from to directed,
)
