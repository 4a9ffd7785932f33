-- ===== src/InvertedIndex/Searches.antt =====
-- What a search in 24-Inverted-Index/main.go finds of the documents that were added.
use design_with_ts_go.Base.{
  ℕ, ◌<◌, ◌≡◌, refl, sym, ◌∙◌, ◌≢◌, ◌↔◌, inl, inr, if_pos, if_neg, Bool, true, false, ◌&&◌, Option,
  none, some, List, [], ◌∷◌, arith, Bool-cases, Option-cases, All, is_some, nat_key, same_key, Map,
  lookup, GoString, string_key, keys, All-keys, lookup-All-keys, sort, IsSorted, All-sort, sort-All,
  sort-IsSorted, leb_string, leb_string-IsOrder, All-map, int_key,
}
use design_with_ts_go.InvertedIndex.{
  InvertedIndex, new, tokenize, all_ids, keep_ids, narrow, search_terms, search_all, add_all,
}
use design_with_ts_go.InvertedIndex.Postings.{has, mentions, has-add_all}

-- Every term's posting has the document.
abbrev has_all : Map GoString (Map GoString ℕ) → List GoString → GoString → Bool
has_all postings [] id = true
has_all postings (term ∷ terms) id = has postings term id && has_all postings terms id

-- Every term was mentioned by a document added under the identifier.
abbrev pub mentions_all : List (GoString × GoString) → List GoString → GoString → Bool
mentions_all documents [] id = true
mentions_all documents (term ∷ terms) id =
    mentions documents term id && mentions_all documents terms id

lookup-all_ids :
    (id : GoString) (posting : Map GoString ℕ)
    → is_some (lookup id (all_ids posting)) ≡ is_some (lookup id posting)
unfolding all_ids lookup
lookup-all_ids id [] = refl
lookup-all_ids id ((i, n) ∷ posting) = elim (same_key i id) [
  | yes p ↦
      rw
        (
          if_pos (same_key i id) p (some true) (lookup id (all_ids posting)),
          if_pos (same_key i id) p (some n) (lookup id posting),
        )
        refl
  | no p ↦
      rw
        (
          if_neg (same_key i id) p (some true) (lookup id (all_ids posting)),
          if_neg (same_key i id) p (some n) (lookup id posting),
        )
        (lookup-all_ids id posting)
]

lookup-keep_ids :
    (id : GoString) (posting : Map GoString ℕ) (result : Map GoString Bool)
    → is_some (lookup id (keep_ids posting result))
      ≡ (is_some (lookup id posting) && is_some (lookup id result))
unfolding keep_ids lookup
lookup-keep_ids id posting [] = ground arith
lookup-keep_ids id posting ((i, b) ∷ result) = elim (Bool-cases (is_some (lookup i posting))) [
  | inl e ↦ rw e (elim (same_key i id) [
    | yes p ↦
        rw
          (
            if_pos (same_key i id) p (some b) (lookup id (keep_ids posting result)),
            if_pos (same_key i id) p (some b) (lookup id result),
            sym p,
            e,
          )
          refl
    | no p ↦
        rw
          (
            if_neg (same_key i id) p (some b) (lookup id (keep_ids posting result)),
            if_neg (same_key i id) p (some b) (lookup id result),
          )
          (lookup-keep_ids id posting result)
  ])
  | inr e ↦ rw e (elim (same_key i id) [
    | yes p ↦
        rw
          (
            if_pos (same_key i id) p (some b) (lookup id result),
            lookup-keep_ids id posting result,
            sym p,
            e,
          )
          refl
    | no p ↦
        rw (if_neg (same_key i id) p (some b) (lookup id result))
          (lookup-keep_ids id posting result)
  ])
]

-- The result of the narrowing, none standing for no document.
abbrev found : Option (Map GoString Bool) → GoString → Bool
found none id = false
found (some result) id = is_some (lookup id result)

found-narrow :
    (postings : Map GoString (Map GoString ℕ)) (terms : List GoString) (result : Map GoString Bool)
    (id : GoString)
    → found (narrow postings terms result) id
      ≡ (is_some (lookup id result) && has_all postings terms id)
unfolding narrow
found-narrow postings [] result id = ground arith
found-narrow postings (term ∷ terms) result id = elim (Option-cases (lookup term postings)) [
  | inl missing ↦ rw (missing, narrow) (unfold lookup in ground arith)
  | inr (posting, there) ↦
      rw (there, narrow)
        (found-narrow postings terms (keep_ids posting result) id
          ∙ rw (lookup-keep_ids id posting result) (ground arith))
]

-- The identifiers of a result, as the search sorts them.
abbrev ids_of : Option (Map GoString Bool) → List GoString
ids_of none = []
ids_of (some result) = sort leb_string (keys result)

ids_of-IsSorted : (o : Option (Map GoString Bool)) → IsSorted leb_string (ids_of o)
ids_of-IsSorted none = tt
ids_of-IsSorted (some result) = sort-IsSorted leb_string leb_string-IsOrder (keys result)

is_some_ne : {A : Type 0} (o : Option A) → is_some o ≡ true → o ≢ none
is_some_ne none h = cc
is_some_ne (some x) h = λ e. cc

ne_is_some : {A : Type 0} (o : Option A) → o ≢ none → is_some o ≡ true
ne_is_some none h = absurd (h refl)
ne_is_some (some x) h = refl

ids_of-All :
    (o : Option (Map GoString Bool)) (P : GoString → Type 0)
    → All P (ids_of o) ↔ ((id : GoString) → found o id ≡ true → P id)
ids_of-All none P = (λ h id e. absurd (ground (arith, e)), λ h. tt)
ids_of-All (some result) P = (
  λ h id e.
      lookup-All-keys P result id (sort-All leb_string P (keys result) h)
        (is_some_ne (lookup id result) e),
  λ h. All-sort leb_string P (keys result) (
      All-map (λ id. lookup id result ≢ none) P (keys result)
        (λ id e. h id (ne_is_some (lookup id result) e)) (All-keys result)),
)

-- A search for some terms, as one result.
abbrev outcome : InvertedIndex → GoString → List GoString → Option (Map GoString Bool)
outcome idx term terms = elim (lookup term idx.postings) [
  | none ↦ none
  | some posting ↦ narrow idx.postings terms (all_ids posting)
]

search_terms-ids_of :
    (idx : InvertedIndex) (term : GoString) (terms : List GoString)
    → search_terms idx (term ∷ terms) ≡ ids_of (outcome idx term terms)
unfolding search_terms
search_terms-ids_of idx term terms = elim (Option-cases (lookup term idx.postings)) [
  | inl missing ↦ rw (missing, search_terms, outcome) refl
  | inr (posting, there) ↦ elim (Option-cases (narrow idx.postings terms (all_ids posting))) [
    | inl e ↦ rw (there, search_terms, outcome, e) refl
    | inr (r, e) ↦ rw (there, search_terms, outcome, e) refl
  ]
]

found-outcome :
    (idx : InvertedIndex) (term : GoString) (terms : List GoString) (id : GoString)
    → found (outcome idx term terms) id ≡ has_all idx.postings (term ∷ terms) id
found-outcome idx term terms id = elim (Option-cases (lookup term idx.postings)) [
  | inl missing ↦ rw (missing, outcome) (unfold lookup in ground arith)
  | inr (posting, there) ↦
      rw (there, outcome)
        (found-narrow idx.postings terms (all_ids posting) id ∙ rw (lookup-all_ids id posting) refl)
]

has_all-mentions_all :
    (documents : List (GoString × GoString)) (terms : List GoString) (id : GoString)
    → has_all (add_all new documents).postings terms id ≡ mentions_all documents terms id
unfolding new
has_all-mentions_all documents [] id = refl
has_all-mentions_all documents (term ∷ terms) id =
    rw (has-add_all new documents term id, has_all-mentions_all documents terms id)
      (unfold lookup in refl)

-- The text is ASCII.
abbrev pub IsAscii : GoString → Type 0
IsAscii text = All (λ byte. byte < 128) text

-- After any documents of ASCII text are added, a search whose query is ASCII text and has a term
-- answers identifiers in ascending order, and exactly those under which, for every term of the
-- query, some document with the term was added: a predicate holds of all answers if and only if it
-- holds of all such identifiers.
pub search_all-add_all :
    (documents : List (GoString × GoString)) (query : GoString)
    → All (λ document. IsAscii document.1) documents
    → IsAscii query
    → tokenize query ≢ []
    → IsSorted leb_string (search_all (add_all new documents) query)
      × ((P : GoString → Type 0)
          → All P (search_all (add_all new documents) query)
            ↔ ((id : GoString) → mentions_all documents (tokenize query) id ≡ true → P id))
unfolding search_all
search_all-add_all documents query ascii ascii_query some_term = on_terms (tokenize query) some_term
  where
    on_terms :
        (terms : List GoString)
        → terms ≢ []
        → IsSorted leb_string (search_terms (add_all new documents) terms)
          × ((P : GoString → Type 0)
              → All P (search_terms (add_all new documents) terms)
                ↔ ((id : GoString) → mentions_all documents terms id ≡ true → P id))
    on_terms [] h = absurd (h refl)
    on_terms (term ∷ terms) h =
        let idx = add_all new documents in
        let found_is = λ (id : GoString).
          found-outcome idx term terms id ∙ has_all-mentions_all documents (term ∷ terms) id in
        rw (search_terms-ids_of idx term terms) (
          ids_of-IsSorted (outcome idx term terms),
          λ P.
              let all = ids_of-All (outcome idx term terms) P in
              (
                λ a id e. all.0 a id (found_is id ∙ e),
                λ a. all.1 (λ id e. a id (sym (found_is id) ∙ e)),
              ),
        )
