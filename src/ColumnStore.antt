-- ===== src/ColumnStore.antt =====
-- 30-Column-Store/main.go: the column store. Maps are walked in the order of the list; the
-- order in which the program walks them is any.
mod Projection
mod Rows
mod Tests
use design_with_ts_go.Base.{
  ℕ, zero, suc, ◌+◌, ◌-◌, ◌*◌, ◌/◌, ◌%◌, ◌^◌, ◌≤◌, ◌<◌, max, min, ◌≡◌, refl, sym, ap, ◌∙◌, ◌≢◌, ◌↔◌,
  ◌⊎◌, inl, inr, ite, if_pos, if_neg, Bool, true, false, not, ◌&&◌, ◌||◌, Option, none, some, List,
  [], ◌∷◌, ◌++◌, arith, ℕ_discrete, ltb, leb, ◌==◌, if◌then◌else◌, Bool-cases, Option-cases, length,
  get_elem?, set, replicate, length-append, length-set, length-replicate, All, get_or, is_some, Key,
  nat_key, same_key, Map, IsMap, lookup, assign, delete, lookup-assign, lookup-delete, assign-IsMap,
  delete-IsMap, length-assign, GoString, str, GoString-discrete, string_key, fnv1a_from,
  fnv1a_from-lt, fnv1a, assign_all, or_else, map_some, map_some_ne, Entries, map_values,
  Entries_map, length-map_values, lookup-map_values, map_values-IsMap, Entries-assign,
  Entries-lookup, Entries_weaken, Entries-assign_ne, ite-elim, keys, All-keys, lookup-All-keys,
  IsOrder, insert, sort, IsSorted, All-insert, All-sort, sort-All, sort-IsSorted, leb_string,
  leb_string-IsOrder, is_newer, newer, merge_newer, lookup-merge_newer, merge_newer-IsMap,
  get_elem?-lt, get_elem?-set, All-get, All-map, lookup-assign_all, assign_all-IsMap, ◌+ℤ◌, total,
  total-assign, total_ext, ℤ, pos, negsuc, pos_part, neg_part, sub_ℕ, ◌≤ℤ◌, leb_ℤ, ltb_ℤ,
  ℤ-discrete, int_key, count_of, raise_all, count_of-raise_all, raise_all-IsMap, add_parts,
  add_zero, add_assoc, zero_add, ℤ_ext,
}

pub record ColumnStore : Type 0 where
  pub columns : Map GoString (List GoString)
  pub rows : ℕ

abbrev pub Row : Type 0
Row = Map GoString GoString

unfoldable pub new : ColumnStore
new = record { columns = []; rows = 0 }

-- `row[column]`: the empty string where there is no entry.
abbrev pub cell_of : Row → GoString → GoString
cell_of row column = get_or (lookup column row) []

-- The first loop of `Insert`.
unfoldable pub pad_columns : Row → Map GoString (List GoString) → Map GoString (List GoString)
pad_columns row [] = []
pad_columns row ((column, values) ∷ columns) =
    (column, values ++ cell_of row column ∷ []) ∷ pad_columns row columns

-- The second loop of `Insert`, over the entries of the row.
unfoldable pub add_columns : ℕ → Row → Map GoString (List GoString) → Map GoString (List GoString)
add_columns rows [] columns = columns
add_columns rows ((column, value) ∷ row) columns = add_columns rows row (
    if is_some (lookup column columns)
    then columns
    else assign column (replicate rows [] ++ value ∷ []) columns)

unfoldable pub insert_row : ColumnStore → Row → ColumnStore
unfolding pad_columns add_columns
insert_row s row = record {
  columns = add_columns s.rows row (pad_columns row s.columns);
  rows = s.rows + 1;
}

-- The inner loop of `Project`, from a row begun before; an absent column has no values.
unfoldable pub project_row : ColumnStore → ℕ → List GoString → Row → Row
project_row s i [] row = row
project_row s i (column ∷ columns) row =
    project_row s i columns (elim (get_elem? (get_or (lookup column s.columns) []) i) [
      | none ↦ row
      | some value ↦ assign column value row
    ])

-- The outer loop of `Project`, from row `i` on, for `count` more rows.
unfoldable pub project_rows : ColumnStore → List GoString → ℕ → ℕ → List Row
unfolding project_row
project_rows s columns i zero = []
project_rows s columns i (suc count) =
    project_row s i columns [] ∷ project_rows s columns (i + 1) count

unfoldable pub project : ColumnStore → List GoString → List Row
unfolding project_rows
project s columns = project_rows s columns 0 s.rows

unfoldable pub insert_all : ColumnStore → List Row → ColumnStore
unfolding insert_row
insert_all s [] = s
insert_all s (row ∷ rows) = insert_all (insert_row s row) rows
