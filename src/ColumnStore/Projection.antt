-- ===== src/ColumnStore/Projection.antt =====
-- The projections of 30-Column-Store/main.go against the rows that were inserted.
use mathlib.Core.Path.{subst}
use mathlib.Core.List.{append_assoc}
use design_with_ts_go.Base.{
  ℕ, ◌≡◌, refl, sym, ◌∙◌, inl, inr, ite, Bool, true, false, ◌&&◌, Option, none, some, List, [], ◌∷◌,
  ◌++◌, arith, if◌then◌else◌, Option-cases, length, get_elem?, length-append, get_or, nat_key,
  same_key, lookup, assign, lookup-assign, GoString, string_key, or_else, int_key,
}
use design_with_ts_go.ColumnStore.{
  ColumnStore, Row, new, cell_of, project_row, project_rows, project, insert_all,
}
use design_with_ts_go.ColumnStore.Rows.{cells, appears, expected, Stores, insert_all-Stores}

-- The column is one of those asked for.
unfoldable pub asked : GoString → List GoString → Bool
asked c [] = false
asked c (column ∷ columns) = ite (same_key column c) true (asked c columns)

-- What a projection shows of a row in a column.
abbrev pub shown : List Row → List GoString → Row → GoString → Option GoString
shown all columns row c = if asked c columns && appears c all then some (cell_of row c) else none

-- The entries of a projection are the rows, one for one.
abbrev pub IsProjection : List Row → List GoString → List Row → List Row → Type 0
IsProjection all columns [] [] = Unit
IsProjection all columns [] (out ∷ outs) = ⊥
IsProjection all columns (row ∷ rows) [] = ⊥
IsProjection all columns (row ∷ rows) (out ∷ outs) =
    ((c : GoString) → lookup c out ≡ shown all columns row c) × IsProjection all columns rows outs

abbrev cell_at : ColumnStore → ℕ → GoString → Option GoString
cell_at s i c = get_elem? (get_or (lookup c s.columns) []) i

lookup-project_row :
    (s : ColumnStore) (i : ℕ) (columns : List GoString) (row : Row) (c : GoString)
    → lookup c (project_row s i columns row)
      ≡ (if asked c columns then or_else (cell_at s i c) (lookup c row) else lookup c row)
unfolding project_row asked
lookup-project_row s i [] row c = refl
lookup-project_row s i (column ∷ columns) row c = elim (Option-cases (cell_at s i column)) [
  | inl absent ↦
      rw (absent, project_row) (ground (arith, absent, lookup-project_row s i columns row c))
  | inr (value, found) ↦
      rw (found, project_row)
        (ground (
          arith,
          found,
          lookup-assign c column value row,
          lookup-project_row s i columns (assign column value row) c,
        ))
]

get_elem?-cells :
    (c : GoString) (before : List Row) (row : Row) (rest : List Row)
    → get_elem? (cells c (before ++ row ∷ rest)) (length before) ≡ some (cell_of row c)
unfolding cells
get_elem?-cells c [] row rest = refl
get_elem?-cells c (r ∷ before) row rest = get_elem?-cells c before row rest

shown-project_row :
    (before : List Row) (row : Row) (rest : List Row) (s : ColumnStore) (columns : List GoString)
    (c : GoString)
    → Stores (before ++ row ∷ rest) s
    → lookup c (project_row s (length before) columns [])
      ≡ shown (before ++ row ∷ rest) columns row c
unfolding expected lookup
shown-project_row before row rest s columns c h =
    lookup-project_row s (length before) columns [] c
    ∙ rw (h.columns c) (cell_shown (appears c (before ++ row ∷ rest)) (asked c columns))
  where
    cell_shown :
        (a b : Bool)
        → (if b
            then or_else
                (get_elem?
                  (get_or (if a then some (cells c (before ++ row ∷ rest)) else none) [])
                  (length before))
                none
            else none)
          ≡ (if b && a then some (cell_of row c) else none)
    cell_shown true true = rw (get_elem?-cells c before row rest) refl
    cell_shown false true = refl
    cell_shown true false = refl
    cell_shown false false = refl

project_rows-IsProjection :
    (all before rest : List Row) (s : ColumnStore) (columns : List GoString)
    → before ++ rest ≡ all
    → Stores all s
    → IsProjection all columns rest (project_rows s columns (length before) (length rest))
unfolding project_rows
project_rows-IsProjection all before [] s columns e h = tt
project_rows-IsProjection all before (row ∷ rest) s columns e h =
    let tail =
      project_rows-IsProjection all (before ++ row ∷ []) rest s columns
        (append_assoc before (row ∷ []) rest ∙ e) h in
    (
      λ c.
          subst (λ l. lookup c (project_row s (length before) columns []) ≡ shown l columns row c) e
            (shown-project_row before row rest s columns c (subst (λ l. Stores l s) (sym e) h)),
      subst (λ n. IsProjection all columns rest (project_rows s columns n (length rest)))
          (length-append before (row ∷ [])) tail,
    )

-- A projection of a store into which rows were inserted has an entry for each row, in order: in
-- every column that is asked for and that some row has, the row's cell (the empty string where the
-- row has none), and in no other column anything.
pub project-IsProjection :
    (rows : List Row) (columns : List GoString)
    → IsProjection rows columns rows (project (insert_all new rows) columns)
unfolding project
project-IsProjection rows columns =
    let h = insert_all-Stores rows in
    rw h.count (project_rows-IsProjection rows [] rows (insert_all new rows) columns refl h)
