-- ===== src/GraphDatabase/Paths.antt =====
-- 28-Graph-Database/main.go: edges, and the paths that follow them.
use design_with_ts_go.Base.{
  ◌-◌, ◌≤◌, ◌≡◌, refl, inl, inr, if_pos, if_neg, Bool, some, List, [], ◌∷◌, ◌++◌, arith, length,
  get_elem?, length-append, get_or, nat_key, same_key, Map, lookup, GoString, string_key, keys,
  int_key, Among, Among-append,
}
use design_with_ts_go.GraphDatabase.{GraphDatabase, neighbours, all_targets, last_of}

abbrev pub Edge : GraphDatabase → GoString → GoString → Type 0
Edge g u v = Among v (neighbours g u)

-- A path from a start: its names, and where it ends.
pub data PathTo (g : GraphDatabase) (start : GoString) : List GoString → GoString → Type 0 where
  alone : PathTo g start (start ∷ []) start
  extend :
      {q : List GoString} {u v : GoString}
      → PathTo g start q u
      → Edge g u v
      → PathTo g start (q ++ v ∷ []) v

-- The targets of one node are among the targets of all.
pub Among-all_targets :
    (x u : GoString) (edges : Map GoString (Map GoString Bool))
    → Among x (keys (get_or (lookup u edges) []))
    → Among x (all_targets edges)
unfolding lookup
Among-all_targets x u [] h = h
Among-all_targets x u ((w, targets) ∷ edges) h = elim (same_key w u) [
  | yes e ↦
      (Among-append x (keys targets) (all_targets edges)).1
        (inl (rw (if_pos (same_key w u) e (some targets) (lookup u edges)) at h))
  | no e ↦ (Among-append x (keys targets) (all_targets edges)).1 (
      inr (
        Among-all_targets x u edges
          (rw (if_neg (same_key w u) e (some targets) (lookup u edges)) at h)))
]

get_elem?-length :
    (path : List GoString) (v : GoString) → get_elem? (path ++ v ∷ []) (length path) ≡ some v
get_elem?-length [] v = refl
get_elem?-length (x ∷ path) v = get_elem?-length path v

last-snoc : (path : List GoString) (v : GoString) → last_of (path ++ v ∷ []) ≡ some v
last-snoc path v =
    let n : length (path ++ v ∷ []) - 1 ≡ length path =
      omega (arith, length-append path (v ∷ [])) in
    rw n (get_elem?-length path v)

module _ (g : GraphDatabase) (start : GoString) where
  pub PathTo-last :
      {path : List GoString} {v : GoString} → PathTo g start path v → last_of path ≡ some v
  PathTo-last alone = refl
  PathTo-last (extend {q} {u} {v} p e) = last-snoc q v

  pub PathTo-positive :
      {path : List GoString} {v : GoString} → PathTo g start path v → 1 ≤ length path
  PathTo-positive alone = omega arith
  PathTo-positive (extend {q} {u} {v} p e) = omega (arith, length-append q (v ∷ []))
