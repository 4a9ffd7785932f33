-- ===== src/ColumnStore/Tests.antt =====
-- A run of the store of 30-Column-Store/main.go, and instances of its theorems.
use design_with_ts_go.Base.{
  ◌≡◌, refl, List, [], ◌∷◌, ℕ_discrete, nat_key, Map, lookup, assign, GoString, GoString-discrete,
  string_key, int_key,
}
use design_with_ts_go.ColumnStore.{
  Row, new, pad_columns, add_columns, insert_row, project_row, project_rows, project, insert_all,
}
use design_with_ts_go.ColumnStore.Projection.{IsProjection, project-IsProjection}

program : Unit {0}
unfolding new pad_columns add_columns insert_row project_row project_rows project insert_all lookup
    assign GoString-discrete ℕ_discrete
program = tt

abbrev a : GoString
a = 97 ∷ []

abbrev b : GoString
b = 98 ∷ []

abbrev rows : List Row
rows = ((a, 1 ∷ []) ∷ []) ∷ ((b, 2 ∷ []) ∷ []) ∷ []

abbrev columns : Map GoString (List GoString)
columns = (a, (1 ∷ []) ∷ [] ∷ []) ∷ (b, [] ∷ (2 ∷ []) ∷ []) ∷ []

abbrev shown_b : List Row
shown_b = ((b, []) ∷ []) ∷ ((b, 2 ∷ []) ∷ []) ∷ []

store_run :
    ((insert_all new rows).columns ≡ columns)
    × (project (insert_all new rows) (b ∷ (99 ∷ []) ∷ []) ≡ shown_b)
unfolding program
store_run = (refl, refl)

project-IsProjection_example :
    IsProjection rows (b ∷ []) rows (project (insert_all new rows) (b ∷ []))
project-IsProjection_example = project-IsProjection rows (b ∷ [])
