-- ===== src/DocumentStore/Indexing.antt =====
-- The indexes of 27-Document-Store/main.go against its documents.
use design_with_ts_go.Base.{
  ◌≡◌, refl, sym, ap, ◌∙◌, ◌≢◌, ◌⊎◌, inl, inr, if_pos, if_neg, Bool, Option, none, some, List, [],
  ◌∷◌, arith, Option-cases, get_or, nat_key, same_key, Map, lookup, assign, lookup-assign, GoString,
  string_key, map_some, ite-elim, int_key,
}
use mathlib.Core.Path.{subst}
use mathlib.Core.Option.{some-injective}
use design_with_ts_go.DocumentStore.{
  Document, Index, DocumentStore, add_to_index, new, printed, index_docs, create_index, upsert,
  fetch, scan_docs, find_by_field, Call, create_index_call, upsert_call, run,
}
use design_with_ts_go.DocumentStore.Listing.{
  ids_of, Listed, add_to_index_new, add_to_index_old, Contains, index_docs_new,
  lookup-update_indexes,
}

module _ {A : Type 0} (sprint : Option A → GoString) where
  -- Every index has every document under what its field prints.
  abbrev IsComplete : DocumentStore A → Type 0
  IsComplete s =
      (field : GoString) (index : Index)
      → lookup field s.indexes ≡ some index
      → (id : GoString) (doc : Document A) → lookup id s.docs ≡ some doc
      → Listed index (printed sprint field doc) id

  assigned :
      {V : Type 0} (j k : GoString) (v w : V) (m : Map GoString V)
      → lookup j (assign k v m) ≡ some w
      → ((k ≡ j) × (v ≡ w)) ⊎ ((k ≢ j) × (lookup j m ≡ some w))
  assigned j k v w m e = elim (same_key k j) [
    | yes p ↦ inl (
      p,
      some-injective v w
          (sym (lookup-assign j k v m ∙ if_pos (same_key k j) p (some v) (lookup j m)) ∙ e),
    )
    | no p ↦
        inr (p, sym (lookup-assign j k v m ∙ if_neg (same_key k j) p (some v) (lookup j m)) ∙ e)
  ]

  create_index-IsComplete :
      (s : DocumentStore A) (field : GoString)
      → IsComplete s
      → IsComplete (create_index sprint s field)
  unfolding create_index
  create_index-IsComplete s field h f index e id doc d =
      elim (assigned f field (index_docs sprint field s.docs []) index s.indexes e) [
        | inl (p, q) ↦
            subst (λ i. Listed i (printed sprint f doc) id) q
              (subst (λ g. Listed (index_docs sprint field s.docs []) (printed sprint g doc) id) p
                (index_docs_new sprint field s.docs [] id doc d))
        | inr (_, q) ↦ h f index q id doc d
      ]

  upsert-IsComplete :
      (s : DocumentStore A) (id : GoString) (doc : Document A)
      → IsComplete s
      → IsComplete (upsert sprint s id doc)
  unfolding upsert
  upsert-IsComplete s id doc h f index e i d found = elim (Option-cases (lookup f s.indexes)) [
    | inl missing ↦
        absurd (ground (arith, missing, e, lookup-update_indexes sprint id doc s.indexes f))
    | inr (old, there) ↦
        let same : add_to_index old (printed sprint f doc) id ≡ index =
          some-injective (add_to_index old (printed sprint f doc) id) index (
            sym (
              lookup-update_indexes sprint id doc s.indexes f
              ∙ ap (map_some (λ x. add_to_index x (printed sprint f doc) id)) there)
            ∙ e) in
        subst (λ x. Listed x (printed sprint f d) i) same
          (elim (assigned i id doc d s.docs found) [
            | inl (p, q) ↦
                subst
                  (λ j. Listed (add_to_index old (printed sprint f doc) id) (printed sprint f d) j)
                  p
                  (subst
                    (λ x.
                      Listed (add_to_index old (printed sprint f doc) id) (printed sprint f x) id)
                    q (add_to_index_new old (printed sprint f doc) id))
            | inr (_, q) ↦
                add_to_index_old old (printed sprint f doc) id (printed sprint f d) i
                  (h f old there i d q)
          ])
  ]

  fetch-Contains :
      (docs : Map GoString (Document A)) (ids : Map GoString Bool) (id : GoString)
      → lookup id ids ≢ none
      → Contains (get_or (lookup id docs) []) (fetch docs ids)
  unfolding fetch lookup
  fetch-Contains docs [] id h = absurd (h refl)
  fetch-Contains docs ((i, b) ∷ ids) id h = elim (same_key i id) [
    | yes p ↦ inl (ap (λ j. get_or (lookup j docs) []) (sym p))
    | no p ↦ inr (
        fetch-Contains docs ids id (λ e. h (if_neg (same_key i id) p (some b) (lookup id ids) ∙ e)))
  ]

  scan_docs-Contains :
      (field value id : GoString) (docs : Map GoString (Document A)) (doc : Document A)
      → lookup id docs ≡ some doc
      → printed sprint field doc ≡ value
      → Contains doc (scan_docs sprint field value docs)
  unfolding scan_docs lookup
  scan_docs-Contains field value id [] doc e p = absurd (ground (arith, e))
  scan_docs-Contains field value id ((i, d) ∷ docs) doc e p =
      let shown = printed sprint field d in
      elim (same_key i id) [
        | yes q ↦
            let same : d ≡ doc =
              some-injective d doc (sym (if_pos (same_key i id) q (some d) (lookup id docs)) ∙ e) in
            ite-elim (Contains doc) (same_key shown value) (d ∷ scan_docs sprint field value docs)
              (scan_docs sprint field value docs) (λ _. inl (sym same))
              (λ r. absurd (r (ap (printed sprint field) same ∙ p)))
        | no q ↦
            let rest =
              scan_docs-Contains field value id docs doc
                (sym (if_neg (same_key i id) q (some d) (lookup id docs)) ∙ e) p in
            ite-elim (Contains doc) (same_key shown value) (d ∷ scan_docs sprint field value docs)
              (scan_docs sprint field value docs) (λ _. inr rest) (λ _. rest)
      ]

  run_keeps-IsComplete :
      (s : DocumentStore A) (calls : List (Call A)) → IsComplete s → IsComplete (run sprint s calls)
  unfolding run
  run_keeps-IsComplete s [] h = h
  run_keeps-IsComplete s (create_index_call field ∷ calls) h =
      run_keeps-IsComplete (create_index sprint s field) calls (create_index-IsComplete s field h)
  run_keeps-IsComplete s (upsert_call id doc ∷ calls) h =
      run_keeps-IsComplete (upsert sprint s id doc) calls (upsert-IsComplete s id doc h)

  new-IsComplete : IsComplete new
  unfolding new lookup
  new-IsComplete f index e id doc d = absurd (ground (arith, e))

  find_scan :
      (s : DocumentStore A) (field value : GoString)
      → lookup field s.indexes ≡ none
      → find_by_field sprint s field value ≡ scan_docs sprint field value s.docs
  unfolding find_by_field
  find_scan s field value e = rw (e, find_by_field) refl

  find_index :
      (s : DocumentStore A) (field value : GoString) (index : Index)
      → lookup field s.indexes ≡ some index
      → find_by_field sprint s field value ≡ fetch s.docs (ids_of index value)
  unfolding find_by_field
  find_index s field value index e = rw (e, find_by_field) refl

  -- After any calls, a search for what a document's field prints finds that document, by an index
  -- or by a scan.
  pub find_by_field-Contains :
      (calls : List (Call A)) (field id : GoString) (doc : Document A)
      → lookup id (run sprint new calls).docs ≡ some doc
      → Contains doc (find_by_field sprint (run sprint new calls) field (printed sprint field doc))
  unfolding find_by_field
  find_by_field-Contains calls field id doc found =
      let s = run sprint new calls in
      elim (Option-cases (lookup field s.indexes)) [
        | inl missing ↦
            subst (Contains doc) (sym (find_scan s field (printed sprint field doc) missing))
              (scan_docs-Contains field (printed sprint field doc) id s.docs doc found refl)
        | inr (index, there) ↦
            subst (Contains doc) (sym (find_index s field (printed sprint field doc) index there)) (
              subst
                (λ o.
                  Contains (get_or o []) (fetch s.docs (ids_of index (printed sprint field doc))))
                found
                (fetch-Contains s.docs (ids_of index (printed sprint field doc)) id
                  (run_keeps-IsComplete new calls new-IsComplete field index there id doc found)))
      ]

  -- An index forgets nothing: after a document of an indexed field is replaced, a search for what
  -- the old one's field prints finds the new one too, whatever its field prints.
  pub find_by_field_stale :
      (calls : List (Call A)) (field id : GoString) (old doc : Document A)
      → lookup id (run sprint new calls).docs ≡ some old
      → lookup field (run sprint new calls).indexes ≢ none
      → Contains doc (
          find_by_field sprint
            (upsert sprint (run sprint new calls) id doc)
            field
            (printed sprint field old))
  unfolding upsert
  find_by_field_stale calls field id old doc found indexed =
      let s = run sprint new calls in
      elim (Option-cases (lookup field s.indexes)) [
        | inl missing ↦ absurd (indexed missing)
        | inr (index, there) ↦
            let listed =
              add_to_index_old index (printed sprint field doc) id (printed sprint field old) id
                (run_keeps-IsComplete new calls new-IsComplete field index there id old found) in
            let after = add_to_index index (printed sprint field doc) id in
            subst (Contains doc)
              (sym (
                find_index (upsert sprint s id doc) field (printed sprint field old) after (
                  lookup-update_indexes sprint id doc s.indexes field
                  ∙ ap (map_some (λ x. add_to_index x (printed sprint field doc) id)) there)))
              (subst
                (λ o.
                  Contains (get_or o [])
                    (fetch (assign id doc s.docs) (ids_of after (printed sprint field old))))
                (lookup-assign id id doc s.docs
                  ∙ if_pos (same_key id id) refl (some doc) (lookup id s.docs))
                (fetch-Contains (assign id doc s.docs) (ids_of after (printed sprint field old)) id
                  listed))
      ]
