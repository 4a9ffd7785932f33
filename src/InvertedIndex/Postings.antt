-- ===== src/InvertedIndex/Postings.antt =====
-- The postings of 24-Inverted-Index/main.go against the documents that were added.
use design_with_ts_go.Base.{
  ℕ, ◌+◌, ◌≡◌, refl, ◌∙◌, ite, if_pos, if_neg, Bool, true, false, ◌&&◌, ◌||◌, some, List, [], ◌∷◌,
  arith, get_or, is_some, nat_key, same_key, Map, lookup, assign, lookup-assign, GoString,
  string_key, int_key,
}
use design_with_ts_go.InvertedIndex.{
  InvertedIndex, tokenize, count_terms, post_counts, add_document, add_all,
}

unfoldable pub is_member : GoString → List GoString → Bool
is_member term [] = false
is_member term (t ∷ terms) = ite (same_key t term) true (is_member term terms)

-- The posting of the term has the document.
abbrev pub has : Map GoString (Map GoString ℕ) → GoString → GoString → Bool
has postings term id = is_some (lookup id (get_or (lookup term postings) []))

-- A document was added under the identifier with the term in its text.
unfoldable pub mentions : List (GoString × GoString) → GoString → GoString → Bool
unfolding is_member
mentions [] term id = false
mentions ((i, text) ∷ documents) term id =
    mentions documents term id || (ite (same_key i id) true false && is_member term (tokenize text))

lookup-count_terms :
    (term : GoString) (terms : List GoString) (counts : Map GoString ℕ)
    → is_some (lookup term (count_terms terms counts))
      ≡ (is_member term terms || is_some (lookup term counts))
unfolding count_terms is_member
lookup-count_terms term [] counts = refl
lookup-count_terms term (t ∷ terms) counts =
    let n = get_or (lookup t counts) 0 + 1 in
    lookup-count_terms term terms (assign t n counts)
    ∙ rw (lookup-assign term t n counts) (elim (same_key t term) [
      | yes p ↦
          rw
            (
              if_pos (same_key t term) p (some n) (lookup term counts),
              if_pos (same_key t term) p true (is_member term terms),
            )
            (or_true (is_member term terms))
      | no p ↦
          rw
            (
              if_neg (same_key t term) p (some n) (lookup term counts),
              if_neg (same_key t term) p true (is_member term terms),
            )
            refl
    ])
  where
    or_true : (b : Bool) → (b || true) ≡ true
    or_true true = refl
    or_true false = refl

has-assign :
    (postings : Map GoString (Map GoString ℕ)) (t i : GoString) (n : ℕ) (term id : GoString)
    → has (assign t (assign i n (get_or (lookup t postings) [])) postings) term id ≡ (
        has postings term id
        || (ite (same_key t term) true false && ite (same_key i id) true false))
has-assign postings t i n term id =
    rw (lookup-assign term t (assign i n (get_or (lookup t postings) [])) postings)
      (elim (same_key t term) [
        | yes p ↦
            rw
              (
                if_pos (same_key t term) p (some (assign i n (get_or (lookup t postings) [])))
                    (lookup term postings),
                if_pos (same_key t term) p true false,
                lookup-assign id i n (get_or (lookup t postings) []),
                p,
              )
              (ground arith)
        | no p ↦
            rw
              (
                if_neg (same_key t term) p (some (assign i n (get_or (lookup t postings) [])))
                    (lookup term postings),
                if_neg (same_key t term) p true false,
              )
              (ground arith)
      ])

has-post_counts :
    (id : GoString) (counts : Map GoString ℕ) (postings : Map GoString (Map GoString ℕ))
    (term other : GoString)
    → has (post_counts id counts postings) term other ≡ (
        has postings term other
        || (ite (same_key id other) true false && is_some (lookup term counts)))
unfolding post_counts lookup
has-post_counts id [] postings term other = ground arith
has-post_counts id ((t, n) ∷ counts) postings term other =
    has-post_counts id counts (assign t (assign id n (get_or (lookup t postings) [])) postings) term
      other
    ∙ rw (has-assign postings t id n term other) (ground arith)

pub has-add_all :
    (idx : InvertedIndex) (documents : List (GoString × GoString)) (term id : GoString)
    → has (add_all idx documents).postings term id
      ≡ (has idx.postings term id || mentions documents term id)
unfolding add_all mentions add_document
has-add_all idx [] term id = ground arith
has-add_all idx ((i, text) ∷ documents) term id =
    has-add_all (add_document idx i text) documents term id
    ∙ rw
        (
          has-post_counts i (count_terms (tokenize text) []) idx.postings term id,
          lookup-count_terms term (tokenize text) [],
        )
        (ground arith)
