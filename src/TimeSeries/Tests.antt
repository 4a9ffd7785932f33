-- ===== src/TimeSeries/Tests.antt =====
-- A run of the store of 25-Time-Series-Store/main.go, and an instance of its theorem.
use design_with_ts_go.Base.{
  ℕ, ◌*◌, ◌≡◌, refl, ◌↔◌, true, List, [], ◌∷◌, ◌++◌, arith, ℕ_discrete, All, nat_key, Map, lookup,
  assign, GoString, GoString-discrete, string_key, insert, sort, IsSorted, leb_string, pos, int_key,
}
use design_with_ts_go.TimeSeries.{
  TimePoint, tag_parts, join, series_key, new, by_time, ingest, in_range, query_loop, query,
  ingest_all,
}
use design_with_ts_go.TimeSeries.Queries.{IsOf, query-ingest_all}

program : Unit {0}
unfolding tag_parts join series_key new ingest query_loop query ingest_all sort insert leb_string
    lookup assign GoString-discrete ℕ_discrete
program = tt

abbrev cpu : GoString
cpu = 99 ∷ []

abbrev host : ℕ → Map GoString GoString
host n = (104 ∷ [], n ∷ []) ∷ []

abbrev point : ℕ → ℕ → TimePoint ℕ
point time n = record { timestamp = pos time; metric = cpu; tags = host n; value = 10 * time }

abbrev points : List (TimePoint ℕ)
points = point 5 49 ∷ point 3 49 ∷ point 4 50 ∷ point 9 49 ∷ []

query_test :
    (series_key cpu ((98 ∷ [], 2 ∷ []) ∷ (97 ∷ [], 1 ∷ []) ∷ [])
      ≡ cpu ++ b'|' ∷ 97 ∷ b'=' ∷ 1 ∷ b',' ∷ 98 ∷ b'=' ∷ 2 ∷ [])
    × (query (ingest_all new points) cpu (host 49) (pos 3) (pos 8) ≡ point 3 49 ∷ point 5 49 ∷ [])
unfolding program
query_test = (refl, refl)

-- Two sets of tags that a separator makes one series.
collision :
    series_key cpu ((97 ∷ [], 49 ∷ b',' ∷ 98 ∷ b'=' ∷ 50 ∷ []) ∷ [])
    ≡ series_key cpu ((97 ∷ [], 49 ∷ []) ∷ (98 ∷ [], 50 ∷ []) ∷ [])
unfolding program
collision = refl

query-ingest_all_example :
    IsSorted by_time (query (ingest_all new points) cpu (host 49) (pos 3) (pos 8))
    × ((P : TimePoint ℕ → Type 0)
        → All P (query (ingest_all new points) cpu (host 49) (pos 3) (pos 8))
          ↔ All (λ p. IsOf cpu (host 49) p → in_range (pos 3) (pos 8) p ≡ true → P p) points)
unfolding program
query-ingest_all_example =
    query-ingest_all points cpu (host 49) (pos 3) (pos 8) (ground arith) (ground arith)
