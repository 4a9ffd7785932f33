-- ===== src/DocumentStore/Listing.antt =====
-- What the indexes of 27-Document-Store/main.go list.
use design_with_ts_go.Base.{
  ◌≡◌, refl, sym, ◌∙◌, ◌≢◌, ◌⊎◌, if_pos, if_neg, Bool, true, Option, none, some, List, [], ◌∷◌,
  arith, get_or, nat_key, same_key, Map, lookup, assign, lookup-assign, GoString, string_key,
  map_some, int_key,
}
use mathlib.Core.Path.{subst}
use mathlib.Core.Option.{some-injective}
use design_with_ts_go.DocumentStore.{
  Document, Index, add_to_index, printed, index_docs, update_indexes,
}

-- The identifiers that an index has under a value.
abbrev pub ids_of : Index → GoString → Map GoString Bool
ids_of index value = get_or (lookup value index) []

-- The index has the identifier under the value.
abbrev pub Listed : Index → GoString → GoString → Type 0
Listed index value id = lookup id (ids_of index value) ≢ none

pub add_to_index_new :
    (index : Index) (value id : GoString) → Listed (add_to_index index value id) value id
unfolding add_to_index
add_to_index_new index value id =
    rw
      (
        lookup-assign value value (assign id true (ids_of index value)) index,
        if_pos (same_key value value) refl (some (assign id true (ids_of index value)))
            (lookup value index),
        lookup-assign id id true (ids_of index value),
        if_pos (same_key id id) refl (some true) (lookup id (ids_of index value)),
      )
      (λ e. cc)

pub add_to_index_old :
    (index : Index) (value id v other : GoString)
    → Listed index v other
    → Listed (add_to_index index value id) v other
unfolding add_to_index
add_to_index_old index value id v other h = elim (same_key value v) [
  | yes p ↦ elim (same_key id other) [
    | yes q ↦
        subst (λ i. Listed (add_to_index index value id) v i) q
          (subst (λ w. Listed (add_to_index index value id) w id) p
            (add_to_index_new index value id))
    | no q ↦
        rw
          (
            lookup-assign v value (assign id true (ids_of index value)) index,
            if_pos (same_key value v) p (some (assign id true (ids_of index value)))
                (lookup v index),
            lookup-assign other id true (ids_of index value),
            if_neg (same_key id other) q (some true) (lookup other (ids_of index value)),
            p,
          )
          h
  ]
  | no p ↦
      rw
        (
          lookup-assign v value (assign id true (ids_of index value)) index,
          if_neg (same_key value v) p (some (assign id true (ids_of index value))) (lookup v index),
        )
        h
]

-- The document is in the list.
abbrev pub Contains : {B : Type 0} → B → List B → Type 0
Contains x [] = ⊥
Contains x (y ∷ ys) = (x ≡ y) ⊎ Contains x ys

module _ {A : Type 0} (sprint : Option A → GoString) where
  pub index_docs_old :
      (field : GoString) (docs : Map GoString (Document A)) (index : Index) (v id : GoString)
      → Listed index v id
      → Listed (index_docs sprint field docs index) v id
  unfolding index_docs
  index_docs_old field [] index v id h = h
  index_docs_old field ((i, doc) ∷ docs) index v id h =
      index_docs_old field docs (add_to_index index (printed sprint field doc) i) v id
        (add_to_index_old index (printed sprint field doc) i v id h)

  pub index_docs_new :
      (field : GoString) (docs : Map GoString (Document A)) (index : Index) (id : GoString)
      (doc : Document A)
      → lookup id docs ≡ some doc
      → Listed (index_docs sprint field docs index) (printed sprint field doc) id
  unfolding index_docs lookup
  index_docs_new field [] index id doc e = absurd (ground (arith, e))
  index_docs_new field ((i, d) ∷ docs) index id doc e = elim (same_key i id) [
    | yes p ↦
        let same : d ≡ doc =
          some-injective d doc (sym (if_pos (same_key i id) p (some d) (lookup id docs)) ∙ e) in
        index_docs_old field docs (add_to_index index (printed sprint field d) i)
          (printed sprint field doc) id
          (subst
            (λ j.
              Listed (add_to_index index (printed sprint field d) i) (printed sprint field doc) j)
            p
            (subst
              (λ x.
                Listed (add_to_index index (printed sprint field d) i) (printed sprint field x) i)
              same (add_to_index_new index (printed sprint field d) i)))
    | no p ↦
        index_docs_new field docs (add_to_index index (printed sprint field d) i) id doc
          (sym (if_neg (same_key i id) p (some d) (lookup id docs)) ∙ e)
  ]

  pub lookup-update_indexes :
      (id : GoString) (doc : Document A) (indexes : Map GoString Index) (field : GoString)
      → lookup field (update_indexes sprint id doc indexes)
        ≡ map_some
            (λ index. add_to_index index (printed sprint field doc) id)
            (lookup field indexes)
  unfolding update_indexes lookup
  lookup-update_indexes id doc [] field = refl
  lookup-update_indexes id doc ((f, index) ∷ indexes) field = elim (same_key f field) [
    | yes p ↦
        rw
          (
            if_pos (same_key f field) p (some (add_to_index index (printed sprint f doc) id))
                (lookup field (update_indexes sprint id doc indexes)),
            if_pos (same_key f field) p (some index) (lookup field indexes),
            p,
          )
          refl
    | no p ↦
        rw
          (
            if_neg (same_key f field) p (some (add_to_index index (printed sprint f doc) id))
                (lookup field (update_indexes sprint id doc indexes)),
            if_neg (same_key f field) p (some index) (lookup field indexes),
          )
          (lookup-update_indexes id doc indexes field)
  ]
