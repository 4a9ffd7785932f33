-- ===== src/ConsistentHashing/Tests.antt =====
-- A run of the ring of 08-Consistent-Hashing/main.go, and instances of its theorems.
use design_with_ts_go.Base.{
  ◌≡◌, refl, none, some, [], ◌∷◌, arith, ℕ_discrete, length, nat_key, GoString, GoString-discrete,
  string_key, fnv1a_from, fnv1a, insert, sort, pos, negsuc, int_key,
}
use design_with_ts_go.ConsistentHashing.{
  ConsistentHashRing, new, kept_points, remove_node, point_name, node_points, add_node, search,
  get_node, add_call, run,
}
use design_with_ts_go.ConsistentHashing.Moves.{Ascends, get_node-add_node}
use design_with_ts_go.WriteAheadLog.{decimal_from}

program : Unit {0}
unfolding new kept_points remove_node point_name node_points add_node search get_node run
    decimal_from fnv1a_from fnv1a sort insert GoString-discrete ℕ_discrete
program = tt

abbrev a : GoString
a = 97 ∷ []

abbrev b : GoString
b = 98 ∷ []

abbrev ring : ConsistentHashRing
ring = run (new (pos 2)) (add_call a ∷ add_call b ∷ [])

ring_run :
    (length ring.ring ≡ 4)
    × (get_node (new (pos 2)) a ≡ none)
    × (get_node ring (107 ∷ []) ≡ some a)
    × (get_node ring (120 ∷ []) ≡ some b)
    × (get_node (remove_node ring a) (107 ∷ []) ≡ some b)
    × (length (add_node ring a).ring ≡ 4)
    × ((new (negsuc 0)).replicas ≡ 100)
unfolding program
ring_run = (refl, refl, refl, refl, refl, refl, refl)

get_node-add_node_example :
    Ascends (add_node (run (new (pos 2)) (add_call a ∷ [])) b).ring
    × (get_node (remove_node (run (new (pos 2)) (add_call a ∷ [])) b) (107 ∷ []) ≡ some a)
unfolding program
get_node-add_node_example =
    get_node-add_node (pos 2) (add_call a ∷ []) b (107 ∷ []) a (ground arith) refl (ground arith)
