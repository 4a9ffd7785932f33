-- ===== src/DocumentStore.antt =====
-- 27-Document-Store/main.go: the document store with its indexes. `A` is the type of a field's
-- values, and `sprint` what `fmt.Sprint` prints of one; of an absent field it prints that of nil.
mod Indexing
mod Listing
mod Tests
use design_with_ts_go.Base.{
  ℕ, zero, suc, ◌+◌, ◌-◌, ◌*◌, ◌/◌, ◌%◌, ◌^◌, ◌≤◌, ◌<◌, max, min, ◌≡◌, refl, sym, ap, ◌∙◌, ◌≢◌, ◌↔◌,
  ◌⊎◌, inl, inr, ite, if_pos, if_neg, Bool, true, false, not, ◌&&◌, ◌||◌, Option, none, some, List,
  [], ◌∷◌, ◌++◌, arith, ℕ_discrete, ltb, leb, ◌==◌, if◌then◌else◌, Bool-cases, Option-cases, length,
  get_elem?, set, replicate, length-append, length-set, length-replicate, All, get_or, is_some, Key,
  nat_key, same_key, Map, IsMap, lookup, assign, delete, lookup-assign, lookup-delete, assign-IsMap,
  delete-IsMap, length-assign, GoString, str, GoString-discrete, string_key, fnv1a_from,
  fnv1a_from-lt, fnv1a, assign_all, or_else, map_some, map_some_ne, Entries, map_values,
  Entries_map, length-map_values, lookup-map_values, map_values-IsMap, Entries-assign,
  Entries-lookup, Entries_weaken, Entries-assign_ne, ite-elim, keys, All-keys, lookup-All-keys,
  IsOrder, insert, sort, IsSorted, All-insert, All-sort, sort-All, sort-IsSorted, leb_string,
  leb_string-IsOrder, is_newer, newer, merge_newer, lookup-merge_newer, merge_newer-IsMap,
  get_elem?-lt, get_elem?-set, All-get, All-map, lookup-assign_all, assign_all-IsMap, ◌+ℤ◌, total,
  total-assign, total_ext, ℤ, pos, negsuc, pos_part, neg_part, sub_ℕ, ◌≤ℤ◌, leb_ℤ, ltb_ℤ,
  ℤ-discrete, int_key, count_of, raise_all, count_of-raise_all, raise_all-IsMap, add_parts,
  add_zero, add_assoc, zero_add, ℤ_ext,
}

abbrev pub Document : Type 0 → Type 0
Document A = Map GoString A

-- The identifiers under each printed value of a field.
abbrev pub Index : Type 0
Index = Map GoString (Map GoString Bool)

pub record DocumentStore (A : Type 0) : Type 0 where
  pub docs : Map GoString (Document A)
  pub indexes : Map GoString Index

unfoldable pub add_to_index : Index → GoString → GoString → Index
unfolding assign lookup
add_to_index index value id = assign value (assign id true (get_or (lookup value index) [])) index

module _ {A : Type 0} where
  unfoldable pub new : DocumentStore A
  new = record { docs = []; indexes = [] }

  -- The loop over the identifiers of an index; the document of an absent one is nil.
  unfoldable pub fetch : Map GoString (Document A) → Map GoString Bool → List (Document A)
  fetch docs [] = []
  fetch docs ((id, _) ∷ ids) = get_or (lookup id docs) [] ∷ fetch docs ids

  module _ (sprint : Option A → GoString) where
    -- `fmt.Sprint(doc[field])`
    abbrev pub printed : GoString → Document A → GoString
    printed field doc = sprint (lookup field doc)

    -- The loop of `CreateIndex`.
    unfoldable pub index_docs : GoString → Map GoString (Document A) → Index → Index
    unfolding add_to_index lookup
    index_docs field [] index = index
    index_docs field ((id, doc) ∷ docs) index =
        index_docs field docs (add_to_index index (printed field doc) id)

    unfoldable pub create_index : DocumentStore A → GoString → DocumentStore A
    unfolding index_docs assign
    create_index s field = record s {
      indexes = assign field (index_docs field s.docs []) s.indexes;
    }

    -- The loop of `Upsert` over the indexes.
    unfoldable pub update_indexes : GoString → Document A → Map GoString Index → Map GoString Index
    unfolding add_to_index lookup
    update_indexes id doc [] = []
    update_indexes id doc ((field, index) ∷ indexes) =
        (field, add_to_index index (printed field doc) id) ∷ update_indexes id doc indexes

    unfoldable pub upsert : DocumentStore A → GoString → Document A → DocumentStore A
    unfolding update_indexes assign
    upsert s id doc = record {
      docs = assign id doc s.docs;
      indexes = update_indexes id doc s.indexes;
    }

    -- The loop of a scan.
    unfoldable pub scan_docs : GoString → GoString → Map GoString (Document A) → List (Document A)
    unfolding lookup
    scan_docs field value [] = []
    scan_docs field value ((id, doc) ∷ docs) =
        ite (same_key (printed field doc) value) (doc ∷ scan_docs field value docs)
          (scan_docs field value docs)

    -- `value` is the printed value.
    unfoldable pub find_by_field : DocumentStore A → GoString → GoString → List (Document A)
    unfolding fetch scan_docs
    find_by_field s field value = elim (lookup field s.indexes) [
      | none ↦ scan_docs field value s.docs
      | some index ↦ fetch s.docs (get_or (lookup value index) [])
    ]

-- The calls of a client that change the store.
pub data Call (A : Type 0) : Type 0 where
  create_index_call : GoString → Call A
  upsert_call : GoString → Document A → Call A

module _ {A : Type 0} where
  unfoldable pub run : (Option A → GoString) → DocumentStore A → List (Call A) → DocumentStore A
  unfolding create_index upsert
  run sprint s [] = s
  run sprint s (create_index_call field ∷ calls) = run sprint (create_index sprint s field) calls
  run sprint s (upsert_call id doc ∷ calls) = run sprint (upsert sprint s id doc) calls
