-- ===== src/ConsistentHashing/Moves.antt =====
-- Which keys move when a node joins or leaves the ring of 08-Consistent-Hashing/main.go.
use mathlib.Core.Path.{subst}
use design_with_ts_go.Base.{
  ℕ, zero, suc, ◌+◌, ◌<◌, ◌≡◌, refl, ap, ◌∙◌, ◌≢◌, inl, inr, ite, if_pos, if_neg, true, some, List,
  [], ◌∷◌, ◌++◌, arith, Bool-cases, All, nat_key, same_key, GoString, string_key, ite-elim, IsOrder,
  insert, sort, IsSorted, sort-IsSorted, All-map, ℤ, int_key,
}
use design_with_ts_go.ConsistentHashing.{
  RingPoint, ConsistentHashRing, new, kept_points, remove_node, node_points, by_hash, add_node,
  get_node, Call, add_call, remove_call, run,
}
use design_with_ts_go.ConsistentHashing.Owners.{get_node-remove_node}

by_hash-IsOrder : IsOrder by_hash
by_hash-IsOrder = record {
  total = λ p q h. ground (arith, h);
  trans = λ p q s h k. ground (arith, h, k);
}

kept-All :
    (P : RingPoint → Type 0) (node : GoString) (ring : List RingPoint)
    → All P ring
    → All P (kept_points node ring)
unfolding kept_points
kept-All P node [] h = tt
kept-All P node (p ∷ ring) h =
    ite-elim (All P) (same_key p.node node) (kept_points node ring) (p ∷ kept_points node ring)
      (λ e. kept-All P node ring h.1) (λ e. (h.0, kept-All P node ring h.1))

insert_first :
    (p : RingPoint) (ring : List RingPoint)
    → All (λ q. by_hash p q ≡ true) ring
    → insert by_hash p ring ≡ p ∷ ring
unfolding insert
insert_first p [] h = refl
insert_first p (q ∷ ring) h = rw h.0 refl

kept-insert :
    (node : GoString) (p : RingPoint) (ring : List RingPoint)
    → IsSorted by_hash ring
    → kept_points node (insert by_hash p ring)
      ≡ ite
          (same_key p.node node)
          (kept_points node ring)
          (insert by_hash p (kept_points node ring))
unfolding insert kept_points
kept-insert node p [] h = refl
kept-insert node p (q ∷ ring) h = elim (Bool-cases (by_hash p q)) [
  | inl e ↦
      let above : All (λ s. by_hash p s ≡ true) (q ∷ ring) = (
        e,
        All-map (λ s. by_hash q s ≡ true) (λ s. by_hash p s ≡ true) ring
            (λ s f. by_hash-IsOrder.trans p q s e f) h.0,
      ) in
      rw
        (
          e,
          insert_first p (kept_points node (q ∷ ring))
              (kept-All (λ s. by_hash p s ≡ true) node (q ∷ ring) above),
        )
        refl
  | inr e ↦ rw e (ground (arith, kept-insert node p ring h.1, e))
]

kept-sort :
    (node : GoString) (ring : List RingPoint)
    → kept_points node (sort by_hash ring) ≡ sort by_hash (kept_points node ring)
unfolding sort kept_points
kept-sort node [] = refl
kept-sort node (p ∷ ring) =
    kept-insert node p (sort by_hash ring) (sort-IsSorted by_hash by_hash-IsOrder ring)
    ∙ rw (kept-sort node ring) (
        ite-elim
          (λ k.
            ite (same_key p.node node) (sort by_hash (kept_points node ring))
              (insert by_hash p (sort by_hash (kept_points node ring)))
            ≡ sort by_hash k)
          (same_key p.node node) (kept_points node ring) (p ∷ kept_points node ring)
          (λ e. if_pos (same_key p.node node) e _ _) (λ e. if_neg (same_key p.node node) e _ _))

sort_sorted : (ring : List RingPoint) → IsSorted by_hash ring → sort by_hash ring ≡ ring
unfolding sort
sort_sorted [] h = refl
sort_sorted (p ∷ ring) h = rw (sort_sorted ring h.1) (insert_first p ring h.0)

kept_again :
    (node : GoString) (ring points : List RingPoint)
    → All (λ p. p.node ≡ node) points
    → kept_points node (kept_points node ring ++ points) ≡ kept_points node ring
unfolding kept_points
kept_again node [] [] h = refl
kept_again node [] (p ∷ points) h = ground (arith, h.0, kept_again node [] points h.1)
kept_again node (p ∷ ring) points h = ground (arith, kept_again node ring points h)

node_points-All :
    (node : GoString) (i count : ℕ) → All (λ p. p.node ≡ node) (node_points node i count)
unfolding node_points
node_points-All node i zero = tt
node_points-All node i (suc count) = (refl, node_points-All node (i + 1) count)

kept-IsSorted :
    (node : GoString) (ring : List RingPoint)
    → IsSorted by_hash ring
    → IsSorted by_hash (kept_points node ring)
unfolding kept_points
kept-IsSorted node [] h = tt
kept-IsSorted node (p ∷ ring) h =
    ite-elim (IsSorted by_hash) (same_key p.node node) (kept_points node ring)
      (p ∷ kept_points node ring) (λ e. kept-IsSorted node ring h.1)
      (λ e. (kept-All (λ q. by_hash p q ≡ true) node ring h.0, kept-IsSorted node ring h.1))

remove_node-add_node :
    (r : ConsistentHashRing) (node : GoString)
    → IsSorted by_hash r.ring
    → remove_node (add_node r node) node ≡ remove_node r node
unfolding remove_node add_node
remove_node-add_node r node sorted =
    ap (λ ring. record r { ring = ring })
      (kept-sort node (kept_points node r.ring ++ node_points node 0 r.replicas)
        ∙ ap (sort by_hash) (
            kept_again node r.ring (node_points node 0 r.replicas)
              (node_points-All node 0 r.replicas))
        ∙ sort_sorted (kept_points node r.ring) (kept-IsSorted node r.ring sorted))

run-IsSorted :
    (r : ConsistentHashRing) (calls : List Call)
    → IsSorted by_hash r.ring
    → IsSorted by_hash (run r calls).ring
unfolding run add_node remove_node
run-IsSorted r [] h = h
run-IsSorted r (add_call node ∷ calls) h = run-IsSorted (add_node r node) calls (
    sort-IsSorted by_hash by_hash-IsOrder
      (kept_points node r.ring ++ node_points node 0 r.replicas))
run-IsSorted r (remove_call node ∷ calls) h =
    run-IsSorted (remove_node r node) calls (kept-IsSorted node r.ring h)

-- The hashes of the points are different.
abbrev pub IsApart : List RingPoint → Type 0
IsApart [] = Unit
IsApart (p ∷ ring) = All (λ q. p.hash ≢ q.hash) ring × IsApart ring

-- The points ascend strictly, so that no other arrangement of them is sorted.
abbrev pub Ascends : List RingPoint → Type 0
Ascends [] = Unit
Ascends (p ∷ ring) = All (λ q. p.hash < q.hash) ring × Ascends ring

below-all :
    (p : RingPoint) (ring : List RingPoint)
    → All (λ q. by_hash p q ≡ true) ring
    → All (λ q. p.hash ≢ q.hash) ring
    → All (λ q. p.hash < q.hash) ring
below-all p [] h k = tt
below-all p (q ∷ ring) h k = (ground (arith, h.0, k.0), below-all p ring h.1 k.1)

sorted-Ascends : (ring : List RingPoint) → IsSorted by_hash ring → IsApart ring → Ascends ring
sorted-Ascends [] h k = tt
sorted-Ascends (p ∷ ring) h k = (below-all p ring h.0 k.0, sorted-Ascends ring h.1 k.1)

-- A node joins, after any calls, and no two points of the ring with it have one hash. Then the ring
-- is strictly ascending, so that it is what any sort makes of its points, and the node takes keys
-- for itself only: a key that it does not take has the node that it would have without the joining
-- node.
pub get_node-add_node :
    (replicas : ℤ) (calls : List Call) (node key name : GoString)
    → IsApart (add_node (run (new replicas) calls) node).ring
    → get_node (add_node (run (new replicas) calls) node) key ≡ some name
    → name ≢ node
    → Ascends (add_node (run (new replicas) calls) node).ring
      × (get_node (remove_node (run (new replicas) calls) node) key ≡ some name)
unfolding new add_node
get_node-add_node replicas calls node key name apart found other =
    let r = run (new replicas) calls in
    (
      sorted-Ascends (add_node r node).ring
          (sort-IsSorted by_hash by_hash-IsOrder
            (kept_points node r.ring ++ node_points node 0 r.replicas))
          apart,
      subst (λ r'. get_node r' key ≡ some name)
          (remove_node-add_node r node (run-IsSorted (new replicas) calls tt))
          (get_node-remove_node (add_node r node) node key name found other),
    )
