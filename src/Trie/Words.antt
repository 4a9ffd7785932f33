-- ===== src/Trie/Words.antt =====
-- 07-Trie/main.go: the words under a prefix.
use mathlib.Core.Path.{subst}
use mathlib.Core.Option.{some-injective}
use design_with_ts_go.Base.{
  ℕ, ◌≡◌, refl, ◌↔◌, inl, inr, true, false, none, some, [], ◌∷◌, ◌++◌, arith, Option-cases, is_some,
  nat_key, string_key, int_key,
}
use design_with_ts_go.Trie.{
  Word, TrieNode, Children, node, leaf, child, children_of, find, find_node, search, step,
  starts_with,
}
use design_with_ts_go.Trie.Reads.{search_step, search_empty}
use design_with_ts_go.Trie.WellFormed.{IsTrie-children, IsAlive, IsTrie, find-IsTrie}

-- Some value is stored under the word.
abbrev pub Stores : TrieNode → Word → Type 0
Stores n word = is_some (search n word) ≡ true

find_first : (c : ℕ) (n : TrieNode) (children : Children) → find c (child c n children) ≡ some n
unfolding find
find_first c n children = ground arith

-- A live node has a word below it.
some_word : (n : TrieNode) → IsAlive n → IsTrie n → (word : Word) × Stores n word
unfolding IsTrie
some_word (node children true value) alive h =
    ([], rw (search_empty (node children true value)) refl)
some_word (node leaf false value) alive h = absurd (ground arith)
some_word (node (child c n children) false value) alive h =
    let (word, stored) = some_word n h.1 h.2 in
    (
      c ∷ word,
      rw (search_step (node (child c n children) false value) c word, find_first c n children)
          stored,
    )

pub find_node-append :
    (t : TrieNode) (prefix word : Word)
    → find_node t (prefix ++ word) ≡ step (λ n. find_node n word) (find_node t prefix)
unfolding find_node
find_node-append t [] word = refl
find_node-append t (char ∷ prefix) word = elim (Option-cases (find char (children_of t))) [
  | inl missing ↦ rw missing refl
  | inr (n, found) ↦ rw found (find_node-append n prefix word)
]

-- A search below the node of a prefix.
pub search-append :
    (t n : TrieNode) (prefix word : Word)
    → find_node t prefix ≡ some n
    → search t (prefix ++ word) ≡ search n word
unfolding search
search-append t n prefix word found = rw (find_node-append t prefix word, found) refl

find_node-IsTrie :
    (t n : TrieNode) (prefix : Word)
    → IsAlive t
    → IsTrie t
    → find_node t prefix ≡ some n
    → IsAlive n × IsTrie n
unfolding find_node
find_node-IsTrie t n [] alive h found =
    subst (λ k. IsAlive k × IsTrie k) (some-injective t n found) (alive, h)
find_node-IsTrie t n (char ∷ prefix) alive h found =
    elim (Option-cases (find char (children_of t))) [
      | inl missing ↦ absurd (ground (arith, missing))
      | inr (c, there) ↦
          let (live, k) = find-IsTrie char (children_of t) c (IsTrie-children t h) there in
          find_node-IsTrie c n prefix live k (rw (there, find_node) at found)
    ]

found_IsTrie :
    (t n : TrieNode) (char : ℕ) (prefix : Word)
    → IsTrie t
    → find_node t (char ∷ prefix) ≡ some n
    → IsAlive n × IsTrie n
unfolding find_node
found_IsTrie t n char prefix h found = elim (Option-cases (find char (children_of t))) [
  | inl missing ↦ absurd (ground (arith, missing))
  | inr (c, there) ↦
      let (live, k) = find-IsTrie char (children_of t) c (IsTrie-children t h) there in
      find_node-IsTrie c n prefix live k (rw (there, find_node) at found)
]

pub found_any-IsTrie :
    (t n : TrieNode) (prefix : Word) → IsTrie t → find_node t prefix ≡ some n → IsTrie n
unfolding find_node
found_any-IsTrie t n [] h found = subst IsTrie (some-injective t n found) h
found_any-IsTrie t n (char ∷ prefix) h found = (found_IsTrie t n char prefix h found).1

pub unfound :
    (t : TrieNode) (prefix word : Word) → find_node t prefix ≡ none → ¬ Stores t (prefix ++ word)
unfolding search
unfound t prefix word missing stored = cc (rw (find_node-append t prefix word, missing) at stored)

-- In a trie without dead branches a prefix that is not empty is found exactly where some stored
-- word starts with it; the empty prefix is always found.
pub starts_with_iff :
    (t : TrieNode) (char : ℕ) (prefix : Word)
    → IsTrie t
    → (starts_with t [] ≡ true)
      × ((starts_with t (char ∷ prefix) ≡ true)
          ↔ ((word : Word) × Stores t ((char ∷ prefix) ++ word)))
unfolding starts_with find_node
starts_with_iff t char prefix h = (
  refl,
  (
    (λ found. elim (Option-cases (find_node t (char ∷ prefix))) [
      | inl missing ↦ absurd (ground (arith, missing))
      | inr (n, there) ↦
          let (live, k) = found_IsTrie t n char prefix h there in
          let (word, stored) = some_word n live k in
          (word, rw (search-append t n (char ∷ prefix) word there) stored)
    ]),
    λ (word, stored). elim (Option-cases (find_node t (char ∷ prefix))) [
      | inl missing ↦ absurd (unfound t (char ∷ prefix) word missing stored)
      | inr (n, there) ↦ rw (there, find_node) refl
    ],
  ),
)
