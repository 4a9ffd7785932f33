-- ===== src/ConsistentHashing/Owners.antt =====
-- Whose the keys on the ring of 08-Consistent-Hashing/main.go are.
use mathlib.Core.Path.{subst}
use mathlib.Core.Option.{some-injective}
use native.Mathlib.Nat.{mod_self, mod-eq_of_lt}
use design_with_ts_go.Base.{
  ℕ, zero, suc, ◌%◌, ◌≤◌, ◌<◌, ◌≡◌, refl, sym, ap, ◌∙◌, ◌≢◌, inl, inr, if_neg, false, Option, none,
  some, List, [], ◌∷◌, arith, leb, ◌==◌, if◌then◌else◌, Option-cases, length, get_elem?, nat_key,
  same_key, GoString, string_key, fnv1a, or_else, map_some, int_key,
}
use design_with_ts_go.ConsistentHashing.{
  RingPoint, ConsistentHashRing, kept_points, remove_node, search, get_node,
}

-- The clockwise search written out: the first point at or after the hash, or else the first point.
pub first_from : ℕ → List RingPoint → Option RingPoint
first_from hash [] = none
first_from hash (point ∷ ring) = if leb hash point.hash then some point else first_from hash ring

pub head_of : List RingPoint → Option RingPoint
head_of [] = none
head_of (point ∷ ring) = some point

abbrev pub owner : ℕ → List RingPoint → Option RingPoint
owner hash ring = or_else (first_from hash ring) (head_of ring)

pub search-bound : (hash : ℕ) (ring : List RingPoint) → search hash ring ≤ length ring
unfolding search
search-bound hash [] = omega arith
search-bound hash (point ∷ ring) = ground (arith, search-bound hash ring)

pub search-first_from :
    (hash : ℕ) (ring : List RingPoint) → get_elem? ring (search hash ring) ≡ first_from hash ring
unfolding search first_from
search-first_from hash [] = refl
search-first_from hash (point ∷ ring) = ground (arith, search-first_from hash ring)

pub search-none :
    (hash : ℕ) (ring : List RingPoint)
    → first_from hash ring ≡ none
    → search hash ring ≡ length ring
unfolding search first_from
search-none hash [] e = refl
search-none hash (point ∷ ring) e = ground (arith, search-none hash ring)

pub get_elem?_out : (ring : List RingPoint) (i : ℕ) → length ring ≤ i → get_elem? ring i ≡ none
get_elem?_out [] i h = refl
get_elem?_out (point ∷ ring) zero h = absurd (omega arith)
get_elem?_out (point ∷ ring) (suc i) h = get_elem?_out ring i (omega arith)

pub point_at :
    (hash : ℕ) (p : RingPoint) (ring : List RingPoint)
    → get_elem? (p ∷ ring) (search hash (p ∷ ring) % length (p ∷ ring)) ≡ owner hash (p ∷ ring)
unfolding head_of
point_at hash p ring = elim (Option-cases (first_from hash (p ∷ ring))) [
  | inl missing ↦
      rw (search-none hash (p ∷ ring) missing, mod_self (length (p ∷ ring)), missing) refl
  | inr (q, found) ↦
      let inside : search hash (p ∷ ring) < length (p ∷ ring) =
        inside_of hash (p ∷ ring) q (search-first_from hash (p ∷ ring) ∙ found) in
      rw (mod-eq_of_lt inside, search-first_from hash (p ∷ ring), found) refl
]
  where
    inside_of :
        (hash : ℕ) (ring : List RingPoint) (q : RingPoint)
        → get_elem? ring (search hash ring) ≡ some q
        → search hash ring < length ring
    inside_of hash ring q found = ground (arith, get_elem?_out ring (search hash ring))

pub nonempty : (n : ℕ) → (suc n == 0) ≡ false
nonempty n = ground arith

pub get_node-owner :
    (r : ConsistentHashRing) (key : GoString)
    → get_node r key ≡ map_some (λ point. point.node) (owner (fnv1a key) r.ring)
unfolding get_node first_from head_of
get_node-owner r key = on_ring r.ring
  where
    on_ring :
        (ring : List RingPoint)
        → (if length ring == 0
            then none
            else map_some
                (λ point. point.node)
                (get_elem? ring (search (fnv1a key) ring % length ring)))
          ≡ map_some (λ point. point.node) (owner (fnv1a key) ring)
    on_ring [] = refl
    on_ring (p ∷ ring) =
        rw (nonempty (length ring))
          (ap (map_some (λ point. point.node)) (point_at (fnv1a key) p ring))

-- Leaving out the points of one node does not change the owner that is another node's point.
pub first_from-kept :
    (hash : ℕ) (node : GoString) (ring : List RingPoint) (q : RingPoint)
    → first_from hash ring ≡ some q
    → q.node ≢ node
    → first_from hash (kept_points node ring) ≡ some q
unfolding first_from kept_points
first_from-kept hash node [] q found other = cc
first_from-kept hash node (p ∷ ring) q found other =
    ground (arith, first_from-kept hash node ring q)

pub first_from-kept_none :
    (hash : ℕ) (node : GoString) (ring : List RingPoint)
    → first_from hash ring ≡ none
    → first_from hash (kept_points node ring) ≡ none
unfolding first_from kept_points
first_from-kept_none hash node [] missing = refl
first_from-kept_none hash node (p ∷ ring) missing =
    ground (arith, first_from-kept_none hash node ring)

pub owner-kept :
    (hash : ℕ) (node : GoString) (ring : List RingPoint) (q : RingPoint)
    → owner hash ring ≡ some q
    → q.node ≢ node
    → owner hash (kept_points node ring) ≡ some q
unfolding head_of kept_points
owner-kept hash node [] q found other = cc
owner-kept hash node (p ∷ ring) q found other = elim (Option-cases (first_from hash (p ∷ ring))) [
  | inr (s, first) ↦
      let same : s ≡ q =
        some-injective s q (subst (λ o. or_else o (some p) ≡ some q) first found) in
      ap (λ o. or_else o (head_of (kept_points node (p ∷ ring))))
        (first_from-kept hash node (p ∷ ring) q (first ∙ ap some same) other)
  | inl missing ↦
      let same : p ≡ q =
        some-injective p q (subst (λ o. or_else o (some p) ≡ some q) missing found) in
      ap (λ o. or_else o (head_of (kept_points node (p ∷ ring))))
        (first_from-kept_none hash node (p ∷ ring) missing)
      ∙ rw (if_neg (same_key p.node node) (λ e. other (ap (λ s. s.node) (sym same) ∙ e)), same) refl
]

pub from_owner :
    (hash : ℕ) (ring : List RingPoint) (name : GoString)
    → map_some (λ point. point.node) (owner hash ring) ≡ some name
    → (q : RingPoint) × (owner hash ring ≡ some q) × (q.node ≡ name)
from_owner hash ring name e = elim (Option-cases (owner hash ring)) [
  | inl missing ↦ cc
  | inr (q, found) ↦ (
    q,
    found,
    some-injective q.node name (subst (λ o. map_some (λ point. point.node) o ≡ some name) found e),
  )
]

-- A node that leaves takes only its own keys with it: a key of another node stays where it is.
pub get_node-remove_node :
    (r : ConsistentHashRing) (node key name : GoString)
    → get_node r key ≡ some name
    → name ≢ node
    → get_node (remove_node r node) key ≡ some name
unfolding remove_node
get_node-remove_node r node key name found other =
    let (q, owned, named) =
      from_owner (fnv1a key) r.ring name (sym (get_node-owner r key) ∙ found) in
    get_node-owner (remove_node r node) key
    ∙ ap (map_some (λ point. point.node))
        (owner-kept (fnv1a key) node r.ring q owned (λ e. other (sym named ∙ e)))
    ∙ ap some named
