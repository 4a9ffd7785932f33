-- ===== src/Trie/Runs.antt =====
-- 07-Trie/main.go: sequences of insertions and deletions.
use design_with_ts_go.Base.{
  ◌≡◌, refl, ap, ◌∙◌, inl, inr, ite, Option, none, some, List, [], ◌∷◌, arith, is_some, nat_key,
  same_key, GoString, string_key, int_key,
}
use design_with_ts_go.Trie.{Word, TrieNode, new, insert, search, find_node, delete, find}
use design_with_ts_go.Trie.Reads.{search-insert}
use design_with_ts_go.Trie.Deletes.{delete_from-cases}

-- A deletion answers whether the word was stored, after it a search misses that word, and a search
-- of any other word finds what it found before.
pub search-delete :
    (t : TrieNode) (word other : Word)
    → ((delete t word).1 ≡ is_some (search t word))
      × (search (delete t word).0 other ≡ ite (same_key word other) none (search t other))
unfolding delete
search-delete t word other = elim (delete_from-cases t word) [
  | inl (stays, unread) ↦ (
    rw (stays, unread) refl,
    rw stays (elim (same_key word other) [ yes e ↦ ground arith | no ne ↦ ground arith ]),
  )
  | inr (next, old, gone, read, removes) ↦ (rw (gone, read) refl, rw gone (removes other))
]

pub data Call : Type 0 where
  inserts : Word → GoString → Call
  deletes : Word → Call

unfoldable pub call : TrieNode → Call → TrieNode
unfolding insert delete
call t (inserts word value) = insert t word value
call t (deletes word) = (delete t word).0

unfoldable pub run : TrieNode → List Call → TrieNode
unfolding call
run t [] = t
run t (c ∷ calls) = run (call t c) calls

-- What the calls leave stored of a word, from what was stored before.
abbrev pub stored : Option GoString → List Call → Word → Option GoString
stored before [] word = before
stored before (inserts other value ∷ calls) word =
    stored (ite (same_key other word) (some value) before) calls word
stored before (deletes other ∷ calls) word =
    stored (ite (same_key other word) none before) calls word

search-run_from :
    (t : TrieNode) (calls : List Call) (word : Word)
    → search (run t calls) word ≡ stored (search t word) calls word
unfolding run call
search-run_from t [] word = refl
search-run_from t (inserts other value ∷ calls) word =
    search-run_from (insert t other value) calls word
    ∙ ap (λ before. stored before calls word) (search-insert t other word value)
search-run_from t (deletes other ∷ calls) word =
    search-run_from (delete t other).0 calls word
    ∙ ap (λ before. stored before calls word) (search-delete t other word).1

search-new : (word : Word) → search new word ≡ none
unfolding new search find_node find
search-new [] = refl
search-new (char ∷ word) = refl

-- After any insertions and deletions on a new trie, a search of a word finds the value that was
-- inserted last under it, if it was not deleted since, and misses otherwise.
pub search-run :
    (calls : List Call) (word : Word) → search (run new calls) word ≡ stored none calls word
search-run calls word =
    search-run_from new calls word ∙ ap (λ before. stored before calls word) (search-new word)
