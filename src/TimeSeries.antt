-- ===== src/TimeSeries.antt =====
-- 25-Time-Series-Store/main.go: the time-series store. `V` stands for the floating-point values,
-- which only `Average` computes with. Of points with one timestamp, which `sort.Slice` may leave in
-- any order, the earlier one stays first.
mod Keys
mod Queries
mod Tests
use design_with_ts_go.Base.{
  ℕ, zero, suc, ◌+◌, ◌-◌, ◌*◌, ◌/◌, ◌%◌, ◌^◌, ◌≤◌, ◌<◌, max, min, ◌≡◌, refl, sym, ap, ◌∙◌, ◌≢◌, ◌↔◌,
  ◌⊎◌, inl, inr, ite, if_pos, if_neg, Bool, true, false, not, ◌&&◌, ◌||◌, Option, none, some, List,
  [], ◌∷◌, ◌++◌, arith, ℕ_discrete, ltb, leb, ◌==◌, if◌then◌else◌, Bool-cases, Option-cases, length,
  get_elem?, set, replicate, length-append, length-set, length-replicate, All, get_or, is_some, Key,
  nat_key, same_key, Map, IsMap, lookup, assign, delete, lookup-assign, lookup-delete, assign-IsMap,
  delete-IsMap, length-assign, GoString, str, GoString-discrete, string_key, fnv1a_from,
  fnv1a_from-lt, fnv1a, assign_all, or_else, map_some, map_some_ne, Entries, map_values,
  Entries_map, length-map_values, lookup-map_values, map_values-IsMap, Entries-assign,
  Entries-lookup, Entries_weaken, Entries-assign_ne, ite-elim, keys, All-keys, lookup-All-keys,
  IsOrder, insert, sort, IsSorted, All-insert, All-sort, sort-All, sort-IsSorted, leb_string,
  leb_string-IsOrder, is_newer, newer, merge_newer, lookup-merge_newer, merge_newer-IsMap,
  get_elem?-lt, get_elem?-set, All-get, All-map, lookup-assign_all, assign_all-IsMap, ◌+ℤ◌, total,
  total-assign, total_ext, ℤ, pos, negsuc, pos_part, neg_part, sub_ℕ, ◌≤ℤ◌, leb_ℤ, ltb_ℤ,
  ℤ-discrete, int_key, count_of, raise_all, count_of-raise_all, raise_all-IsMap, add_parts,
  add_zero, add_assoc, zero_add, ℤ_ext,
}

pub record TimePoint (V : Type 0) : Type 0 where
  pub timestamp : ℤ
  pub metric : GoString
  pub tags : Map GoString GoString
  pub value : V

pub record TimeSeriesStore (V : Type 0) : Type 0 where
  pub series : Map GoString (List (TimePoint V))

-- The loop of `seriesKey` over the sorted keys.
unfoldable pub tag_parts : Map GoString GoString → List GoString → List GoString
unfolding lookup
tag_parts tags [] = []
tag_parts tags (key ∷ keys) = (key ++ b'=' ∷ get_or (lookup key tags) []) ∷ tag_parts tags keys

-- `strings.Join(parts, ",")`
unfoldable pub join : List GoString → GoString
join [] = []
join (part ∷ []) = part
join (part ∷ next ∷ parts) = part ++ b',' ∷ join (next ∷ parts)

unfoldable pub series_key : GoString → Map GoString GoString → GoString
unfolding tag_parts join sort
series_key metric tags = metric ++ b'|' ∷ join (tag_parts tags (sort leb_string (keys tags)))

module _ {V : Type 0} where
  unfoldable pub new : TimeSeriesStore V
  new = record { series = [] }

  abbrev pub by_time : TimePoint V → TimePoint V → Bool
  by_time p q = leb_ℤ p.timestamp q.timestamp

  unfoldable pub ingest : TimeSeriesStore V → TimePoint V → TimeSeriesStore V
  unfolding series_key sort lookup assign
  ingest s point =
      let key = series_key point.metric point.tags in
      record {
        series = assign key (sort by_time (get_or (lookup key s.series) [] ++ point ∷ [])) s.series;
      }

  -- The test in the loop of `Query`.
  abbrev pub in_range : ℤ → ℤ → TimePoint V → Bool
  in_range start end point = leb_ℤ start point.timestamp && leb_ℤ point.timestamp end

  unfoldable pub query_loop : ℤ → ℤ → List (TimePoint V) → List (TimePoint V)
  query_loop start end [] = []
  query_loop start end (point ∷ points) =
      let rest = query_loop start end points in
      if in_range start end point then point ∷ rest else rest

  unfoldable pub query :
      TimeSeriesStore V → GoString → Map GoString GoString → ℤ → ℤ → List (TimePoint V)
  unfolding series_key query_loop lookup
  query s metric tags start end =
      query_loop start end (get_or (lookup (series_key metric tags) s.series) [])

  unfoldable pub ingest_all : TimeSeriesStore V → List (TimePoint V) → TimeSeriesStore V
  unfolding ingest
  ingest_all s [] = s
  ingest_all s (point ∷ points) = ingest_all (ingest s point) points
