-- ===== src/ConsistentHashing.antt =====
-- 08-Consistent-Hashing/main.go: the ring of virtual nodes. Of points with the same hash, which
-- `sort.Slice` may leave in any order, the earlier one stays first; what is proved of the joining of
-- a node is proved of rings without such points.
mod Moves
mod Owners
mod Tests
use design_with_ts_go.Base.{
  ℕ, zero, suc, ◌+◌, ◌-◌, ◌*◌, ◌/◌, ◌%◌, ◌^◌, ◌≤◌, ◌<◌, max, min, ◌≡◌, refl, sym, ap, ◌∙◌, ◌≢◌, ◌↔◌,
  ◌⊎◌, inl, inr, ite, if_pos, if_neg, Bool, true, false, not, ◌&&◌, ◌||◌, Option, none, some, List,
  [], ◌∷◌, ◌++◌, arith, ℕ_discrete, ltb, leb, ◌==◌, if◌then◌else◌, Bool-cases, Option-cases, length,
  get_elem?, set, replicate, length-append, length-set, length-replicate, All, get_or, is_some, Key,
  nat_key, same_key, Map, IsMap, lookup, assign, delete, lookup-assign, lookup-delete, assign-IsMap,
  delete-IsMap, length-assign, GoString, str, GoString-discrete, string_key, fnv1a_from,
  fnv1a_from-lt, fnv1a, assign_all, or_else, map_some, map_some_ne, Entries, map_values,
  Entries_map, length-map_values, lookup-map_values, map_values-IsMap, Entries-assign,
  Entries-lookup, Entries_weaken, Entries-assign_ne, ite-elim, keys, All-keys, lookup-All-keys,
  IsOrder, insert, sort, IsSorted, All-insert, All-sort, sort-All, sort-IsSorted, leb_string,
  leb_string-IsOrder, is_newer, newer, merge_newer, lookup-merge_newer, merge_newer-IsMap,
  get_elem?-lt, get_elem?-set, All-get, All-map, lookup-assign_all, assign_all-IsMap, ◌+ℤ◌, total,
  total-assign, total_ext, ℤ, pos, negsuc, pos_part, neg_part, sub_ℕ, ◌≤ℤ◌, leb_ℤ, ltb_ℤ,
  ℤ-discrete, int_key, count_of, raise_all, count_of-raise_all, raise_all-IsMap, add_parts,
  add_zero, add_assoc, zero_add, ℤ_ext,
}
use design_with_ts_go.WriteAheadLog.{decimal_from}

pub record RingPoint : Type 0 where
  pub hash : ℕ
  pub node : GoString

pub record ConsistentHashRing : Type 0 where
  pub replicas : ℕ
  pub ring : List RingPoint

unfoldable pub new : ℤ → ConsistentHashRing
new replicas = record {
  replicas = if leb_ℤ replicas (pos 0) then 100 else pos_part replicas;
  ring = [];
}

-- The loop of `RemoveNode`: the points that are kept.
unfoldable pub kept_points : GoString → List RingPoint → List RingPoint
kept_points node [] = []
kept_points node (point ∷ ring) =
    ite (same_key point.node node) (kept_points node ring) (point ∷ kept_points node ring)

unfoldable pub remove_node : ConsistentHashRing → GoString → ConsistentHashRing
remove_node r node = record r { ring = kept_points node r.ring }

-- `fmt.Sprintf("%s#%d", node, i)`
unfoldable pub point_name : GoString → ℕ → GoString
unfolding decimal_from
point_name node i = node ++ b'#' ∷ decimal_from (i + 1) i []

-- The points that the loop of `AddNode` appends from the `i`-th on, `count` of them.
unfoldable pub node_points : GoString → ℕ → ℕ → List RingPoint
unfolding point_name fnv1a
node_points node i zero = []
node_points node i (suc count) =
    record { hash = fnv1a (point_name node i); node = node } ∷ node_points node (i + 1) count

abbrev pub by_hash : RingPoint → RingPoint → Bool
by_hash p q = leb p.hash q.hash

unfoldable pub add_node : ConsistentHashRing → GoString → ConsistentHashRing
unfolding remove_node node_points sort
add_node r node =
    let kept = remove_node r node in
    record kept { ring = sort by_hash (kept.ring ++ node_points node 0 kept.replicas) }

-- `sort.Search`: the first index whose point's hash is at least the key's, or the length.
unfoldable pub search : ℕ → List RingPoint → ℕ
search hash [] = 0
search hash (point ∷ ring) =
    let rest = search hash ring in if leb hash point.hash then 0 else suc rest

unfoldable pub get_node : ConsistentHashRing → GoString → Option GoString
unfolding search
get_node r key =
    if length r.ring == 0
    then none
    else map_some (λ point. point.node)
        (get_elem? r.ring (search (fnv1a key) r.ring % length r.ring))

-- The calls of a client.
pub data Call : Type 0 where
  add_call : GoString → Call
  remove_call : GoString → Call

unfoldable pub run : ConsistentHashRing → List Call → ConsistentHashRing
unfolding add_node remove_node
run r [] = r
run r (add_call node ∷ calls) = run (add_node r node) calls
run r (remove_call node ∷ calls) = run (remove_node r node) calls
