-- ===== src/InvertedIndex/Tests.antt =====
-- A run of the index of 24-Inverted-Index/main.go, and an instance of its theorem.
use design_with_ts_go.Base.{
  ◌≡◌, refl, ◌↔◌, true, List, [], ◌∷◌, arith, ℕ_discrete, All, nat_key, lookup, assign, GoString,
  GoString-discrete, string_key, insert, sort, IsSorted, leb_string, int_key,
}
use design_with_ts_go.InvertedIndex.{
  new, tokenize_from, tokenize, count_terms, post_counts, add_document, all_ids, keep_ids, narrow,
  search_terms, search_all, add_all,
}
use design_with_ts_go.InvertedIndex.Searches.{mentions_all, search_all-add_all}

program : Unit {0}
unfolding new tokenize_from tokenize count_terms post_counts add_document all_ids keep_ids narrow
    search_terms search_all add_all sort insert leb_string lookup assign GoString-discrete
    ℕ_discrete
program = tt

-- "Go cat", "cat" and "cat,go"
abbrev documents : List (GoString × GoString)
documents =
    (50 ∷ [], 71 ∷ 111 ∷ 32 ∷ 99 ∷ 97 ∷ 116 ∷ [])
    ∷ (51 ∷ [], 99 ∷ 97 ∷ 116 ∷ [])
    ∷ (49 ∷ [], 99 ∷ 97 ∷ 116 ∷ 44 ∷ 103 ∷ 111 ∷ [])
    ∷ []

-- "cat GO"
abbrev query : GoString
query = 99 ∷ 97 ∷ 116 ∷ 32 ∷ 71 ∷ 79 ∷ []

search_test :
    (tokenize query ≡ (99 ∷ 97 ∷ 116 ∷ []) ∷ (103 ∷ 111 ∷ []) ∷ [])
    × (search_all (add_all new documents) query ≡ (49 ∷ []) ∷ (50 ∷ []) ∷ [])
    × (search_all (add_all new documents) (33 ∷ []) ≡ [])
unfolding program
search_test = (refl, refl, refl)

search_all-add_all_example :
    IsSorted leb_string (search_all (add_all new documents) query)
    × ((P : GoString → Type 0)
        → All P (search_all (add_all new documents) query)
          ↔ ((id : GoString) → mentions_all documents (tokenize query) id ≡ true → P id))
unfolding program
search_all-add_all_example =
    search_all-add_all documents query (ground arith) (ground arith) (ground arith)
