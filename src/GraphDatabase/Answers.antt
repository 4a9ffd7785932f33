-- ===== src/GraphDatabase/Answers.antt =====
-- 28-Graph-Database/main.go: the answers of `ShortestPath`.
use design_with_ts_go.Base.{
  ℕ, zero, suc, ◌+◌, ◌≤◌, ◌≡◌, refl, ◌∙◌, ◌≢◌, inl, inr, if_pos, if_neg, Bool, true, Option, none,
  some, List, [], ◌∷◌, arith, length, is_some, nat_key, same_key, Map, lookup, GoString, string_key,
  int_key,
}
use mathlib.Core.Path.{subst}
use design_with_ts_go.GraphDatabase.{
  node_at, shortest_path, Outcome, GraphDatabase, scan, neighbours, answer, last_of, search_from,
  all_targets,
}
use design_with_ts_go.GraphDatabase.Paths.{
  alone, PathTo-positive, PathTo, PathTo-last, Among-all_targets,
}
use design_with_ts_go.GraphDatabase.Rounds.{Shortest}
use design_with_ts_go.GraphDatabase.Shortest.{IsReady, frontier, scanned-IsReady, all_seen}
use design_with_ts_go.GraphDatabase.Termination.{unseen-le, unseen, scan-work}

module _ (g : GraphDatabase) (start end : GoString) where
  -- A shortest path, or no path at all.
  abbrev pub IsAnswer : Option (List GoString) → Type 0
  IsAnswer none = (path : List GoString) → ¬ PathTo g start path end
  IsAnswer (some path) = Shortest g start path end

  abbrev all : List GoString
  all = all_targets g.edges

  none_left : (seen : Map GoString Bool) → IsReady g start end (frontier [] seen) → IsAnswer none
  none_left seen h path p = elim (h.covered end (all_seen g start end seen h p)) [
    | inl closed ↦ closed.0 refl
    | inr queued ↦ queued
  ]

  abbrev more : ℕ → List GoString → List (List GoString) → Map GoString Bool → GoString → Outcome
  more fuel path rest seen u =
      let t = scan path (neighbours g u) (frontier rest seen) in
      search_from g end fuel t.queue t.seen

  at_end :
      (fuel : ℕ) (path : List GoString) (rest : List (List GoString)) (seen : Map GoString Bool)
      (u : GoString)
      → last_of path ≡ some u
      → u ≡ end
      → search_from g end (suc fuel) (path ∷ rest) seen ≡ answer (some path)
  unfolding search_from
  at_end fuel path rest seen u last e =
      rw (last, search_from)
        (if_pos (same_key u end) e (answer (some path)) (more fuel path rest seen u))

  elsewhere :
      (fuel : ℕ) (path : List GoString) (rest : List (List GoString)) (seen : Map GoString Bool)
      (u : GoString)
      → last_of path ≡ some u
      → u ≢ end
      → search_from g end (suc fuel) (path ∷ rest) seen ≡ more fuel path rest seen u
  unfolding search_from
  elsewhere fuel path rest seen u last ne =
      rw (last, search_from)
        (if_neg (same_key u end) ne (answer (some path)) (more fuel path rest seen u))

  search_from-IsAnswer :
      (fuel : ℕ) (queue : List (List GoString)) (seen : Map GoString Bool)
      → unseen (frontier queue seen) all + length queue ≤ fuel
      → IsReady g start end (frontier queue seen)
      → (found : Option (List GoString)) × (search_from g end fuel queue seen ≡ answer found)
        × IsAnswer found
  unfolding search_from
  search_from-IsAnswer zero [] seen b h = (none, refl, none_left seen h)
  search_from-IsAnswer (suc fuel) [] seen b h = (none, refl, none_left seen h)
  search_from-IsAnswer zero (path ∷ rest) seen b h = absurd (omega arith)
  search_from-IsAnswer (suc fuel) (path ∷ rest) seen b h =
      let first = h.waiting.0 in
      let u = first.at in
      let last = PathTo-last g start first.shortest.is_path in
      elim (same_key u end) [
        | yes e ↦ (
          some path,
          at_end fuel path rest seen u last e,
          subst (Shortest g start path) e first.shortest,
        )
        | no ne ↦
            let s = frontier rest seen in
            let t = scan path (neighbours g u) s in
            let work =
              scan-work path (neighbours g u) s all (λ v m. Among-all_targets v u g.edges m) in
            let (found, run, right) =
              search_from-IsAnswer fuel t.queue t.seen (omega arith)
                (scanned-IsReady g start end path rest seen u first.shortest.is_path ne h) in
            (found, elsewhere fuel path rest seen u last ne ∙ run, right)
      ]

  starts-IsReady : IsReady g start end (frontier ((start ∷ []) ∷ []) ((start, true) ∷ []))
  unfolding lookup
  starts-IsReady =
      let alone_least : Shortest g start (start ∷ []) start = record {
        is_path = alone;
        least = λ other p. PathTo-positive g start p;
      } in
      record {
        waiting = (record { at = start; shortest = alone_least; marked = ground arith }, tt);
        ordered = tt;
        covered = λ v m.
            let same : start ≡ v = ground arith in
            inr (inl (subst (Shortest g start (start ∷ [])) same alone_least));
        marked = ground arith;
      }

  -- Between two nodes with properties the search answers with a shortest path along the edges, or
  -- with nil when no path leads from the one to the other; the order in which the neighbours are
  -- visited does not matter.
  pub shortest_path_lem :
      is_some (node_at g start) ≡ true
      → is_some (node_at g end) ≡ true
      → (found : Option (List GoString)) × (shortest_path g start end ≡ answer found)
        × IsAnswer found
  unfolding shortest_path
  shortest_path_lem from to =
      let (found, run, right) =
        search_from-IsAnswer (length all + 1) ((start ∷ []) ∷ []) ((start, true) ∷ [])
          (omega (arith, unseen-le (frontier ((start ∷ []) ∷ []) ((start, true) ∷ [])) all))
          starts-IsReady in
      (found, rw (from, to) run, right)
