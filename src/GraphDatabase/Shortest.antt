-- ===== src/GraphDatabase/Shortest.antt =====
-- 28-Graph-Database/main.go: the search, from its first round to its answer.
use design_with_ts_go.Base.{
  ℕ, suc, ◌≤◌, ◌<◌, ◌≡◌, sym, ◌∙◌, ◌≢◌, ◌⊎◌, inl, inr, Bool, true, some, List, [], ◌∷◌, arith,
  length, length-append, All, nat_key, Map, GoString, string_key, All-map, int_key,
}
use mathlib.Core.Path.{subst}
use mathlib.Core.Option.{some-injective}
use design_with_ts_go.GraphDatabase.{GraphDatabase, Frontier, is_seen, scan, neighbours}
use design_with_ts_go.GraphDatabase.Paths.{PathTo, alone, extend, PathTo-last}
use design_with_ts_go.GraphDatabase.Rounds.{
  IsWaiting, IsBetween, IsClosed, Queued, Ascends, widened, is_seen-scan, scan-IsBetween,
}

-- Ordered by length, and the lengths differ by one at most.
abbrev pub InOrder : List (List GoString) → Type 0
InOrder [] = Unit
InOrder (path ∷ queue) = Ascends (length path) (suc (length path)) queue

Ascends-InOrder :
    (least : ℕ) (queue : List (List GoString)) → Ascends least (suc least) queue → InOrder queue
Ascends-InOrder least [] h = tt
Ascends-InOrder least (path ∷ queue) h =
    widened (length path) (suc least) (suc (length path)) queue (omega arith) h.2

module _ (g : GraphDatabase) (start : GoString) where
  far_enough :
      (v : GoString) (least most : ℕ) (queue : List (List GoString))
      → Ascends least most queue
      → Queued g start v queue
      → (other : List GoString) → PathTo g start other v
      → least ≤ length other
  far_enough v least most [] h q other p = absurd q
  far_enough v least most (path ∷ queue) h (inl found) other p = omega (arith, found.least other p)
  far_enough v least most (path ∷ queue) h (inr q) other p =
      omega (arith, far_enough v (length path) most queue h.2 q other p)

abbrev pub frontier : List (List GoString) → Map GoString Bool → Frontier
frontier queue seen = record { queue = queue; seen = seen }

module _ (g : GraphDatabase) (start end : GoString) where
  -- Before a path is taken from the queue.
  pub record IsReady (s : Frontier) : Type 0 where
    pub waiting : All (IsWaiting g start s) s.queue
    pub ordered : InOrder s.queue
    pub covered :
        (v : GoString) → is_seen s v ≡ true → IsClosed g start end s v ⊎ Queued g start v s.queue
    pub marked : is_seen s start ≡ true

  -- A name that is not seen is further away than the end of the first path.
  unseen_far :
      (path : List GoString) (rest : List (List GoString)) (seen : Map GoString Bool)
      → IsReady (frontier (path ∷ rest) seen)
      → {v : GoString} {other : List GoString} → PathTo g start other v
      → (is_seen (frontier rest seen) v ≡ true) ⊎ (length path < length other)
  unseen_far path rest seen h alone = inl h.marked
  unseen_far path rest seen h (extend {q} {u} {v} p edge) = elim (unseen_far path rest seen h p) [
    | inl m ↦ elim (h.covered u m) [
      | inl closed ↦ inl (closed.1 v edge)
      | inr queued ↦
          let least =
            far_enough g start u (length path) (suc (length path)) (path ∷ rest)
              (omega arith, omega arith, h.ordered) queued q p in
          inr (omega (arith, length-append q (v ∷ [])))
    ]
    | inr lt ↦ inr (omega (arith, length-append q (v ∷ [])))
  ]

  -- The first path leaves the queue.
  taken-IsBetween :
      (path : List GoString) (rest : List (List GoString)) (seen : Map GoString Bool) (u : GoString)
      → PathTo g start path u
      → IsReady (frontier (path ∷ rest) seen)
      → IsBetween g start end (frontier rest seen) path u
  taken-IsBetween path rest seen u to_u h = record {
    waiting =
        All-map (IsWaiting g start (frontier (path ∷ rest) seen))
          (IsWaiting g start (frontier rest seen)) rest
          (λ q w. record { at = w.at; shortest = w.shortest; marked = w.marked }) h.waiting.1;
    ordered = h.ordered;
    covered = λ v m. elim (h.covered v m) [
      | inl closed ↦ inl closed
      | inr (inl found) ↦
          let same : some v ≡ some u =
            sym (PathTo-last g start found.is_path) ∙ PathTo-last g start to_u in
          inr (inr (some-injective v u same))
      | inr (inr queued) ↦ inr (inl queued)
    ];
    near = λ v other p. unseen_far path rest seen h p;
  }

  -- The neighbours have been scanned.
  pub scanned-IsReady :
      (path : List GoString) (rest : List (List GoString)) (seen : Map GoString Bool) (u : GoString)
      → PathTo g start path u
      → u ≢ end
      → IsReady (frontier (path ∷ rest) seen)
      → IsReady (scan path (neighbours g u) (frontier rest seen))
  scanned-IsReady path rest seen u to_u ne h =
      let s = frontier rest seen in
      let t = scan path (neighbours g u) s in
      let k =
        scan-IsBetween g start end path u to_u (neighbours g u) s (λ v m. m)
          (taken-IsBetween path rest seen u to_u h) in
      record {
        waiting = k.waiting;
        ordered = Ascends-InOrder (length path) t.queue k.ordered;
        covered = λ v m. elim (k.covered v m) [
          | inl closed ↦ inl closed
          | inr (inl queued) ↦ inr queued
          | inr (inr e) ↦ inl (
              subst (IsClosed g start end t) (sym e)
                (ne, λ w edge. (is_seen-scan path (neighbours g u) s w).1 (inr edge)))
        ];
        marked = (is_seen-scan path (neighbours g u) s start).1 (inl h.marked);
      }

  -- With an empty queue every name that a path leads to is seen, and its neighbours are.
  pub all_seen :
      (seen : Map GoString Bool) {v : GoString} {path : List GoString}
      → IsReady (frontier [] seen)
      → PathTo g start path v
      → is_seen (frontier [] seen) v ≡ true
  all_seen seen h alone = h.marked
  all_seen seen h (extend {q} {u} {v} p edge) = elim (h.covered u (all_seen seen h p)) [
    | inl closed ↦ closed.1 v edge
    | inr queued ↦ absurd queued
  ]
