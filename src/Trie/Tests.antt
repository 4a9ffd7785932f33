-- ===== src/Trie/Tests.antt =====
-- 07-Trie/main.go: small tries.
use design_with_ts_go.Base.{
  ◌≡◌, refl, ◌↔◌, true, false, none, some, List, [], ◌∷◌, ◌++◌, ℕ_discrete, nat_key, str,
  GoString-discrete, string_key, int_key, Among,
}
use design_with_ts_go.Trie.{
  Word, TrieNode, new, insert, delete, delete_from, find, put, drop, find_node, search, starts_with,
  collect, words_with_prefix,
}
use design_with_ts_go.Trie.Runs.{Call, inserts, deletes, call, run, search-run}
use design_with_ts_go.Trie.WellFormed.{IsTrie, run-IsTrie}
use design_with_ts_go.Trie.Words.{Stores}
use design_with_ts_go.Trie.Listing.{words_with_prefix_iff}

-- `git`, `go` and `gone`, of which `gone` is deleted again.
abbrev calls : List Call
calls =
    inserts (str "git") (str "1")
    ∷ inserts (str "gone") (str "2")
    ∷ inserts (str "go") (str "3")
    ∷ deletes (str "gone")
    ∷ []

abbrev sample : TrieNode
sample = run new calls

pruned_test : starts_with sample (str "gon") ≡ false
unfolding run call insert delete delete_from new find put drop ℕ_discrete starts_with find_node
pruned_test = refl

search_test : search sample (str "go") ≡ some (str "3")
unfolding run call insert delete delete_from new find put drop ℕ_discrete search find_node
search_test = refl

words_test : words_with_prefix sample (str "g") ≡ str "git" ∷ str "go" ∷ []
unfolding run call insert delete delete_from new find put drop ℕ_discrete words_with_prefix collect
    find_node
words_test = refl

-- The empty prefix is found in an empty trie.
empty_test : starts_with new [] ≡ true
unfolding starts_with find_node
empty_test = refl

search-run_example : search sample (str "gone") ≡ none
unfolding GoString-discrete ℕ_discrete
search-run_example = search-run calls (str "gone")

run-IsTrie_example : IsTrie sample
run-IsTrie_example = run-IsTrie calls

words_with_prefix_iff_example :
    Among (str "go") (words_with_prefix sample (str "g"))
    ↔ ((rest : Word) × (str "go" ≡ str "g" ++ rest) × Stores sample (str "go"))
words_with_prefix_iff_example = words_with_prefix_iff sample (str "g") (str "go") (run-IsTrie calls)
