-- ===== src/TimeSeries/Queries.antt =====
-- What the queries of 25-Time-Series-Store/main.go return of the points that were ingested.
use design_with_ts_go.Base.{
  ◌≡◌, refl, sym, ◌≢◌, ◌↔◌, ◌⊎◌, inl, inr, if_pos, if_neg, true, some, List, [], ◌∷◌, ◌++◌, arith,
  Bool-cases, All, get_or, nat_key, same_key, Map, lookup, lookup-assign, GoString, string_key,
  IsOrder, sort, IsSorted, All-sort, sort-All, sort-IsSorted, All-map, ℤ, int_key,
}
use mathlib.Core.Path.{subst}
use mathlib.Core.List.{append-nil, append_assoc}
use design_with_ts_go.TimeSeries.Keys.{sorted_tags, IsPlain, series_key_iff}
use design_with_ts_go.TimeSeries.{
  TimePoint, TimeSeriesStore, series_key, new, by_time, ingest, in_range, query_loop, query,
  ingest_all,
}

module _ {V : Type 0} where
  by_time-IsOrder : IsOrder (by_time {V = V})
  by_time-IsOrder = record {
    total = λ p q h. ground (arith, h);
    trans = λ p q r h k. ground (arith, h, k);
  }

  abbrev key_of : TimePoint V → GoString
  key_of point = series_key point.metric point.tags

  abbrev series_at : TimeSeriesStore V → GoString → List (TimePoint V)
  series_at s key = get_or (lookup key s.series) []

  All-append :
      (P : TimePoint V → Type 0) (xs : List (TimePoint V)) (p : TimePoint V)
      → All P (xs ++ p ∷ []) ↔ (All P xs × P p)
  All-append P [] p = (λ h. (tt, h.0), λ h. (h.1, tt))
  All-append P (x ∷ xs) p =
      let rest = All-append P xs p in
      (λ h. ((h.0, (rest.0 h.1).0), (rest.0 h.1).1), λ h. (h.0.0, rest.1 (h.0.1, h.1)))

  -- What holds of the points of a series that were ingested.
  abbrev OfSeries : (TimePoint V → Type 0) → GoString → TimePoint V → Type 0
  OfSeries P key point = key_of point ≡ key → P point

  -- A store whose series hold exactly the points, sorted.
  record Stores (points : List (TimePoint V)) (s : TimeSeriesStore V) : Type 1 where
    sorted : (key : GoString) → IsSorted by_time (series_at s key)
    exact :
        (key : GoString) (P : TimePoint V → Type 0)
        → All P (series_at s key) ↔ All (OfSeries P key) points

  series_at-ingest :
      (s : TimeSeriesStore V) (point : TimePoint V) (key : GoString)
      → ((key_of point ≡ key)
          × (series_at (ingest s point) key ≡ sort by_time (series_at s key ++ point ∷ [])))
        ⊎ ((key_of point ≢ key) × (series_at (ingest s point) key ≡ series_at s key))
  unfolding ingest
  series_at-ingest s point key = elim (same_key (key_of point) key) [
    | yes p ↦ inl (
      p,
      rw
          (
            lookup-assign key (key_of point)
                (sort by_time (series_at s (key_of point) ++ point ∷ [])) s.series,
            if_pos (same_key (key_of point) key) p
                (some (sort by_time (series_at s (key_of point) ++ point ∷ [])))
                (lookup key s.series),
            p,
          )
          refl,
    )
    | no p ↦ inr (
      p,
      rw
          (
            lookup-assign key (key_of point)
                (sort by_time (series_at s (key_of point) ++ point ∷ [])) s.series,
            if_neg (same_key (key_of point) key) p
                (some (sort by_time (series_at s (key_of point) ++ point ∷ [])))
                (lookup key s.series),
          )
          refl,
    )
  ]

  ingest-Stores :
      (points : List (TimePoint V)) (s : TimeSeriesStore V) (point : TimePoint V)
      → Stores points s
      → Stores (points ++ point ∷ []) (ingest s point)
  ingest-Stores points s point h = record {
    sorted = λ key. elim (series_at-ingest s point key) [
      | inl (p, e) ↦
          subst (IsSorted by_time) (sym e)
            (sort-IsSorted by_time by_time-IsOrder (series_at s key ++ point ∷ []))
      | inr (p, e) ↦ subst (IsSorted by_time) (sym e) (h.sorted key)
    ];
    exact = λ key P. elim (series_at-ingest s point key) [
      | inl (p, e) ↦
          let joined = All-append P (series_at s key) point in
          let all = All-append (OfSeries P key) points point in
          (
            λ a.
                let parts =
                  joined.0
                    (sort-All by_time P (series_at s key ++ point ∷ []) (subst (All P) e a)) in
                all.1 ((h.exact key P).0 parts.0, λ _. parts.1),
            λ a.
                let parts = all.0 a in
                subst (All P) (sym e) (
                  All-sort by_time P (series_at s key ++ point ∷ [])
                    (joined.1 ((h.exact key P).1 parts.0, parts.1 p))),
          )
      | inr (p, e) ↦
          let all = All-append (OfSeries P key) points point in
          (
            λ a. all.1 ((h.exact key P).0 (subst (All P) e a), λ q. absurd (p q)),
            λ a. subst (All P) (sym e) ((h.exact key P).1 (all.0 a).0),
          )
    ];
  }

  query_loop-All :
      (start end : ℤ) (P : TimePoint V → Type 0) (xs : List (TimePoint V))
      → All P (query_loop start end xs) ↔ All (λ p. in_range start end p ≡ true → P p) xs
  unfolding query_loop
  query_loop-All start end P [] = (λ h. h, λ h. h)
  query_loop-All start end P (x ∷ xs) =
      let rest = query_loop-All start end P xs in
      elim (Bool-cases (in_range start end x)) [
        | inl e ↦ rw e (λ h. (λ _. h.0, rest.0 h.1), λ h. (h.0 refl, rest.1 h.1))
        | inr e ↦ rw e (λ h. (λ f. absurd (ground (arith, f)), rest.0 h), λ h. rest.1 h.1)
      ]

  query_loop-IsSorted :
      (start end : ℤ) (xs : List (TimePoint V))
      → IsSorted by_time xs
      → IsSorted by_time (query_loop start end xs)
  unfolding query_loop
  query_loop-IsSorted start end [] h = tt
  query_loop-IsSorted start end (x ∷ xs) h =
      let rest = query_loop-IsSorted start end xs h.1 in
      elim (Bool-cases (in_range start end x)) [
        | inl e ↦ rw e (
          (query_loop-All start end (λ y. by_time x y ≡ true) xs).1 (
              All-map (λ y. by_time x y ≡ true)
                (λ y. in_range start end y ≡ true → by_time x y ≡ true) xs (λ y b _. b) h.0),
          rest,
        )
        | inr e ↦ rw e rest
      ]

  ingest_all-Stores :
      (before points : List (TimePoint V)) (s : TimeSeriesStore V)
      → Stores before s
      → Stores (before ++ points) (ingest_all s points)
  unfolding ingest_all
  ingest_all-Stores before [] s h = subst (λ l. Stores l s) (sym (append-nil before)) h
  ingest_all-Stores before (point ∷ points) s h =
      subst (λ l. Stores l (ingest_all (ingest s point) points))
        (append_assoc before (point ∷ []) points)
        (ingest_all-Stores (before ++ point ∷ []) points (ingest s point)
          (ingest-Stores before s point h))

  new-Stores : Stores [] new
  unfolding new lookup
  new-Stores = record { sorted = λ key. tt; exact = λ key P. (λ h. h, λ h. h) }

  query-ingest_keys :
      (points : List (TimePoint V)) (metric : GoString) (tags : Map GoString GoString)
      (start end : ℤ)
      → IsSorted by_time (query (ingest_all new points) metric tags start end)
        × ((P : TimePoint V → Type 0)
            → All P (query (ingest_all new points) metric tags start end)
              ↔ All
                  (λ p.
                    series_key p.metric p.tags ≡ series_key metric tags
                    → in_range start end p ≡ true
                    → P p)
                  points)
  unfolding query
  query-ingest_keys points metric tags start end =
      let h = ingest_all-Stores [] points new new-Stores in
      let key = series_key metric tags in
      let s = ingest_all new points in
      (
        query_loop-IsSorted start end (series_at s key) (h.sorted key),
        λ P.
            let inner = query_loop-All start end P (series_at s key) in
            let outer = h.exact key (λ p. in_range start end p ≡ true → P p) in
            (λ a. outer.0 (inner.0 a), λ a. inner.1 (outer.1 a)),
      )

  All-with :
      (Q A B : TimePoint V → Type 0) (xs : List (TimePoint V))
      → All Q xs
      → ((x : TimePoint V) → Q x → A x → B x)
      → All A xs
      → All B xs
  All-with Q A B [] q f h = tt
  All-with Q A B (x ∷ xs) q f h = (f x q.0 h.0, All-with Q A B xs q.1 f h.1)

  -- The point is of the series: it has its metric, and the same tags in the order of their keys.
  abbrev pub IsOf : GoString → Map GoString GoString → TimePoint V → Type 0
  IsOf metric tags p = (p.metric ≡ metric) × (sorted_tags p.tags ≡ sorted_tags tags)

  -- After any points are ingested in any order, no metric with the separator of names and no tag
  -- with a separator of tags among them, a query for such a metric and tags answers in ascending
  -- order of time, with exactly the points of that metric with the same tags whose time lies in the
  -- closed interval: a predicate holds of all that it answers if and only if it holds of all such
  -- points.
  pub query-ingest_all :
      (points : List (TimePoint V)) (metric : GoString) (tags : Map GoString GoString)
      (start end : ℤ)
      → All (λ p. IsPlain p.metric p.tags) points
      → IsPlain metric tags
      → IsSorted by_time (query (ingest_all new points) metric tags start end)
        × ((P : TimePoint V → Type 0)
            → All P (query (ingest_all new points) metric tags start end)
              ↔ All (λ p. IsOf metric tags p → in_range start end p ≡ true → P p) points)
  query-ingest_all points metric tags start end plain series_plain =
      let (sorted, exact) = query-ingest_keys points metric tags start end in
      let same = λ (p : TimePoint V) (q : IsPlain p.metric p.tags).
        series_key_iff p.metric metric p.tags tags q series_plain in
      (
        sorted,
        λ P. (
          λ a.
              All-with (λ p. IsPlain p.metric p.tags)
                (λ p.
                  series_key p.metric p.tags ≡ series_key metric tags
                  → in_range start end p ≡ true
                  → P p)
                (λ p. IsOf metric tags p → in_range start end p ≡ true → P p) points plain
                (λ p q f e. f ((same p q).1 e)) ((exact P).0 a),
          λ a. (exact P).1 (
              All-with (λ p. IsPlain p.metric p.tags)
                (λ p. IsOf metric tags p → in_range start end p ≡ true → P p)
                (λ p.
                  series_key p.metric p.tags ≡ series_key metric tags
                  → in_range start end p ≡ true
                  → P p)
                points plain (λ p q f e. f ((same p q).0 e)) a),
        ),
      )
