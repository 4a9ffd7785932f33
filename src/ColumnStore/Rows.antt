-- ===== src/ColumnStore/Rows.antt =====
-- The columns and the projections of 30-Column-Store/main.go against the rows that were inserted.
use mathlib.Core.Path.{subst}
use mathlib.Core.List.{append-nil, append_assoc}
use design_with_ts_go.Base.{
  ℕ, ◌≡◌, refl, sym, ap, ◌∙◌, inl, inr, if_pos, if_neg, Bool, false, ◌||◌, Option, none, some, List,
  [], ◌∷◌, ◌++◌, arith, if◌then◌else◌, Option-cases, length, replicate, length-append, is_some,
  nat_key, same_key, Map, lookup, assign, lookup-assign, GoString, string_key, or_else, map_some,
  int_key,
}
use design_with_ts_go.ColumnStore.{
  ColumnStore, Row, new, cell_of, pad_columns, add_columns, insert_row, insert_all,
}

-- A column's cells in the rows.
unfoldable pub cells : GoString → List Row → List GoString
cells column [] = []
cells column (row ∷ rows) = cell_of row column ∷ cells column rows

-- Some row has the column.
unfoldable pub appears : GoString → List Row → Bool
appears column [] = false
appears column (row ∷ rows) = is_some (lookup column row) || appears column rows

unfoldable pub expected : GoString → List Row → Option (List GoString)
unfolding cells appears
expected column rows = if appears column rows then some (cells column rows) else none

lookup-pad_columns :
    (c : GoString) (row : Row) (columns : Map GoString (List GoString))
    → lookup c (pad_columns row columns)
      ≡ map_some (λ values. values ++ cell_of row c ∷ []) (lookup c columns)
unfolding pad_columns lookup
lookup-pad_columns c row [] = refl
lookup-pad_columns c row ((column, values) ∷ columns) = elim (same_key column c) [
  | yes p ↦
      rw
        (
          if_pos (same_key column c) p _ (lookup c (pad_columns row columns)),
          if_pos (same_key column c) p _ (lookup c columns),
          p,
        )
        refl
  | no p ↦
      rw
        (
          if_neg (same_key column c) p (some (values ++ cell_of row column ∷ [])) _,
          if_neg (same_key column c) p (some values) _,
          lookup-pad_columns c row columns,
        )
        refl
]

lookup-add_columns :
    (c : GoString) (rows : ℕ) (row : Row) (columns : Map GoString (List GoString))
    → lookup c (add_columns rows row columns)
      ≡ or_else
          (lookup c columns)
          (map_some (λ value. replicate rows [] ++ value ∷ []) (lookup c row))
unfolding add_columns lookup
lookup-add_columns c rows [] columns = elim (Option-cases (lookup c columns)) [
  | inl absent ↦ rw absent refl
  | inr (v, found) ↦ rw found refl
]
lookup-add_columns c rows ((column, value) ∷ row) columns =
    elim (Option-cases (lookup column columns)) [
      | inl absent ↦ rw absent (
          ground (
            arith,
            absent,
            lookup-add_columns c rows row (assign column (replicate rows [] ++ value ∷ []) columns),
            lookup-assign c column (replicate rows [] ++ value ∷ []) columns,
          ))
      | inr (v, found) ↦ rw found (ground (arith, found, lookup-add_columns c rows row columns))
    ]

cells_append :
    (c : GoString) (rows : List Row) (row : Row)
    → cells c (rows ++ row ∷ []) ≡ cells c rows ++ cell_of row c ∷ []
unfolding cells
cells_append c [] row = refl
cells_append c (r ∷ rows) row = ap (λ l. cell_of r c ∷ l) (cells_append c rows row)

appears_append :
    (c : GoString) (rows : List Row) (row : Row)
    → appears c (rows ++ row ∷ []) ≡ (appears c rows || is_some (lookup c row))
unfolding appears
appears_append c [] row = ground arith
appears_append c (r ∷ rows) row = ground (arith, appears_append c rows row)

cells_absent :
    (c : GoString) (rows : List Row)
    → appears c rows ≡ false
    → cells c rows ≡ replicate (length rows) []
unfolding cells appears
cells_absent c [] h = refl
cells_absent c (r ∷ rows) h = ground (arith, cells_absent c rows)

-- A store that holds exactly the rows.
pub record Stores (rows : List Row) (s : ColumnStore) : Type 0 where
  pub count : s.rows ≡ length rows
  pub columns : (c : GoString) → lookup c s.columns ≡ expected c rows

insert_row-Stores :
    (rows : List Row) (s : ColumnStore) (row : Row)
    → Stores rows s
    → Stores (rows ++ row ∷ []) (insert_row s row)
unfolding insert_row expected
insert_row-Stores rows s row h = record {
  count = rw (length-append rows (row ∷ []), h.count) refl;
  columns = λ c.
      lookup-add_columns c s.rows row (pad_columns row s.columns)
      ∙ rw
          (
            lookup-pad_columns c row s.columns,
            h.columns c,
            cells_append c rows row,
            appears_append c rows row,
            h.count,
          )
          (ground (arith, cells_absent c rows));
}

insert_all_lem :
    (rows more : List Row) (s : ColumnStore)
    → Stores rows s
    → Stores (rows ++ more) (insert_all s more)
unfolding insert_all
insert_all_lem rows [] s h = subst (λ l. Stores l s) (sym (append-nil rows)) h
insert_all_lem rows (row ∷ more) s h =
    subst (λ l. Stores l (insert_all (insert_row s row) more)) (append_assoc rows (row ∷ []) more)
      (insert_all_lem (rows ++ row ∷ []) more (insert_row s row) (insert_row-Stores rows s row h))

-- After any rows are inserted into a new store, it counts them, and has exactly the columns that
-- some row has; each holds one cell for each row, in order, the empty string where the row has no
-- entry.
pub insert_all-Stores : (rows : List Row) → Stores rows (insert_all new rows)
unfolding new expected cells appears lookup
insert_all-Stores rows = insert_all_lem [] rows new (record { count = refl; columns = λ c. refl })
