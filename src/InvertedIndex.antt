-- ===== src/InvertedIndex.antt =====
-- 24-Inverted-Index/main.go: the inverted index. Text is ASCII: `strings.ToLower` of other letters
-- is not modelled. A nil slice is the empty list.
mod Postings
mod Searches
mod Tests
use design_with_ts_go.Base.{
  ℕ, zero, suc, ◌+◌, ◌-◌, ◌*◌, ◌/◌, ◌%◌, ◌^◌, ◌≤◌, ◌<◌, max, min, ◌≡◌, refl, sym, ap, ◌∙◌, ◌≢◌, ◌↔◌,
  ◌⊎◌, inl, inr, ite, if_pos, if_neg, Bool, true, false, not, ◌&&◌, ◌||◌, Option, none, some, List,
  [], ◌∷◌, ◌++◌, arith, ℕ_discrete, ltb, leb, ◌==◌, if◌then◌else◌, Bool-cases, Option-cases, length,
  get_elem?, set, replicate, length-append, length-set, length-replicate, All, get_or, is_some, Key,
  nat_key, same_key, Map, IsMap, lookup, assign, delete, lookup-assign, lookup-delete, assign-IsMap,
  delete-IsMap, length-assign, GoString, str, GoString-discrete, string_key, fnv1a_from,
  fnv1a_from-lt, fnv1a, assign_all, or_else, map_some, map_some_ne, Entries, map_values,
  Entries_map, length-map_values, lookup-map_values, map_values-IsMap, Entries-assign,
  Entries-lookup, Entries_weaken, Entries-assign_ne, ite-elim, keys, All-keys, lookup-All-keys,
  IsOrder, insert, sort, IsSorted, All-insert, All-sort, sort-All, sort-IsSorted, leb_string,
  leb_string-IsOrder, is_newer, newer, merge_newer, lookup-merge_newer, merge_newer-IsMap,
  get_elem?-lt, get_elem?-set, All-get, All-map, lookup-assign_all, assign_all-IsMap, ◌+ℤ◌, total,
  total-assign, total_ext, ℤ, pos, negsuc, pos_part, neg_part, sub_ℕ, ◌≤ℤ◌, leb_ℤ, ltb_ℤ,
  ℤ-discrete, int_key, count_of, raise_all, count_of-raise_all, raise_all-IsMap, add_parts,
  add_zero, add_assoc, zero_add, ℤ_ext,
}

pub record InvertedIndex : Type 0 where
  pub postings : Map GoString (Map GoString ℕ)

unfoldable pub new : InvertedIndex
new = record { postings = [] }

-- `strings.ToLower` of a byte
abbrev pub lower : ℕ → ℕ
lower byte = if leb 65 byte && leb byte 90 then byte + 32 else byte

-- `[a-z0-9]`
abbrev pub is_token : ℕ → Bool
is_token byte = (leb 97 byte && leb byte 122) || (leb 48 byte && leb byte 57)

-- A token that ends, before those that follow.
abbrev pub end_token : GoString → List GoString → List GoString
end_token [] terms = terms
end_token (byte ∷ token) terms = (byte ∷ token) ∷ terms

-- The matches of `[a-z0-9]+` in the lower-case text, after the token that has begun.
unfoldable pub tokenize_from : GoString → GoString → List GoString
tokenize_from token [] = end_token token []
tokenize_from token (byte ∷ text) =
    let inside = tokenize_from (token ++ lower byte ∷ []) text in
    let outside = tokenize_from [] text in
    if is_token (lower byte) then inside else end_token token outside

unfoldable pub tokenize : GoString → List GoString
unfolding tokenize_from
tokenize text = tokenize_from [] text

-- The loop of `AddDocument` that counts the terms.
unfoldable pub count_terms : List GoString → Map GoString ℕ → Map GoString ℕ
unfolding lookup assign
count_terms [] counts = counts
count_terms (term ∷ terms) counts =
    count_terms terms (assign term (get_or (lookup term counts) 0 + 1) counts)

-- The loop of `AddDocument` that posts the counts.
unfoldable pub post_counts :
    GoString → Map GoString ℕ → Map GoString (Map GoString ℕ) → Map GoString (Map GoString ℕ)
unfolding lookup assign
post_counts id [] postings = postings
post_counts id ((term, count) ∷ counts) postings =
    post_counts id counts
      (assign term (assign id count (get_or (lookup term postings) [])) postings)

unfoldable pub add_document : InvertedIndex → GoString → GoString → InvertedIndex
unfolding tokenize count_terms post_counts
add_document idx id text = record {
  postings = post_counts id (count_terms (tokenize text) []) idx.postings;
}

-- The loop that begins the result.
unfoldable pub all_ids : Map GoString ℕ → Map GoString Bool
all_ids [] = []
all_ids ((id, _) ∷ posting) = (id, true) ∷ all_ids posting

-- The loop that deletes from the result what a posting does not have.
unfoldable pub keep_ids : Map GoString ℕ → Map GoString Bool → Map GoString Bool
unfolding lookup
keep_ids posting [] = []
keep_ids posting ((id, b) ∷ result) =
    let rest = keep_ids posting result in
    if is_some (lookup id posting) then (id, b) ∷ rest else rest

-- The loop over the other terms; `none` is the early return.
unfoldable pub narrow :
    Map GoString (Map GoString ℕ) → List GoString → Map GoString Bool → Option (Map GoString Bool)
unfolding keep_ids lookup
narrow postings [] result = some result
narrow postings (term ∷ terms) result = elim (lookup term postings) [
  | none ↦ none
  | some posting ↦ narrow postings terms (keep_ids posting result)
]

unfoldable pub search_terms : InvertedIndex → List GoString → List GoString
unfolding all_ids narrow sort lookup
search_terms idx [] = []
search_terms idx (term ∷ terms) = elim (lookup term idx.postings) [
  | none ↦ []
  | some posting ↦ elim (narrow idx.postings terms (all_ids posting)) [
    | none ↦ []
    | some result ↦ sort leb_string (keys result)
  ]
]

unfoldable pub search_all : InvertedIndex → GoString → List GoString
unfolding tokenize search_terms
search_all idx query = search_terms idx (tokenize query)

-- Documents added one after the other, each an identifier and a text.
unfoldable pub add_all : InvertedIndex → List (GoString × GoString) → InvertedIndex
unfolding add_document
add_all idx [] = idx
add_all idx ((id, text) ∷ documents) = add_all (add_document idx id text) documents
