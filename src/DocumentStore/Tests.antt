-- ===== src/DocumentStore/Tests.antt =====
-- A run of the store of 27-Document-Store/main.go, and instances of its theorems.
use design_with_ts_go.Base.{
  ℕ, ◌≡◌, refl, Option, none, some, List, [], ◌∷◌, arith, ℕ_discrete, nat_key, lookup, assign,
  GoString, GoString-discrete, string_key, int_key,
}
use design_with_ts_go.DocumentStore.{
  Document, DocumentStore, add_to_index, new, index_docs, create_index, update_indexes, upsert,
  fetch, scan_docs, find_by_field, Call, create_index_call, upsert_call, run,
}
use design_with_ts_go.DocumentStore.Listing.{Contains}
use design_with_ts_go.DocumentStore.Indexing.{find_by_field-Contains, find_by_field_stale}

program : Unit {0}
unfolding add_to_index new index_docs create_index update_indexes upsert fetch scan_docs
    find_by_field run lookup assign GoString-discrete ℕ_discrete
program = tt

-- Numbers as field values, printed as one byte.
abbrev sprint : Option ℕ → GoString
sprint none = 0 ∷ []
sprint (some n) = n ∷ []

abbrev city : GoString
city = 99 ∷ []

abbrev in_city : ℕ → Document ℕ
in_city n = (city, n) ∷ []

abbrev calls : List (Call ℕ)
calls =
    upsert_call (1 ∷ []) (in_city 5)
    ∷ create_index_call city
    ∷ upsert_call (2 ∷ []) (in_city 6)
    ∷ []

abbrev moved : DocumentStore ℕ
moved = upsert sprint (run sprint new calls) (1 ∷ []) (in_city 6)

store_test :
    (find_by_field sprint (run sprint new calls) city (5 ∷ []) ≡ in_city 5 ∷ [])
    × (find_by_field sprint moved city (6 ∷ []) ≡ in_city 6 ∷ in_city 6 ∷ [])
    × (find_by_field sprint moved city (5 ∷ []) ≡ in_city 6 ∷ [])
unfolding program
store_test = (refl, refl, refl)

find_by_field-Contains_example :
    Contains (in_city 6) (find_by_field sprint (run sprint new calls) city (6 ∷ []))
unfolding program
find_by_field-Contains_example = find_by_field-Contains sprint calls city (2 ∷ []) (in_city 6) refl

find_by_field_stale_example : Contains (in_city 6) (find_by_field sprint moved city (5 ∷ []))
unfolding program
find_by_field_stale_example =
    find_by_field_stale sprint calls city (1 ∷ []) (in_city 5) (in_city 6) refl (ground arith)
