-- ===== src/Trie/Deletes.antt =====
-- 07-Trie/main.go: `Search` after a deletion.
use design_with_ts_go.Base.{
  ℕ, ◌≡◌, refl, sym, ◌∙◌, ◌⊎◌, inl, inr, ite, if_pos, if_neg, true, false, not, ◌&&◌, Option, none,
  some, [], ◌∷◌, arith, ℕ_discrete, if◌then◌else◌, Bool-cases, Option-cases, nat_key, same_key,
  GoString, string_key, int_key,
}
use design_with_ts_go.Trie.{
  Word, TrieNode, Children, node, leaf, child, children_of, is_end, is_empty, find, find_node,
  search, prune, delete_from,
}
use design_with_ts_go.Trie.Finds.{find-put, find-drop}
use design_with_ts_go.Trie.Reads.{below, search_step, ite_cons}

-- What is left of a child after the deletion below it.
abbrev pub left : TrieNode → Option TrieNode
left n = if not (is_end n) && is_empty (children_of n) then none else some n

below-left : (n : TrieNode) (word : Word) → below (left n) word ≡ search n word
unfolding search find_node find
below-left (node leaf true value) word = refl
below-left (node (child c n children) true value) word = refl
below-left (node (child c n children) false value) word = refl
below-left (node leaf false value) [] = refl
below-left (node leaf false value) (c ∷ word) = refl

find-prune :
    (n next : TrieNode) (char d : ℕ)
    → find d (children_of (prune n char next))
      ≡ ite (ℕ_discrete char d) (left next) (find d (children_of n))
find-prune (node children end value) next char d =
    elim (Bool-cases (not (is_end next) && is_empty (children_of next))) [
      | inl dead ↦ rw dead (find-drop d char children)
      | inr alive ↦ rw alive (find-put d char next children)
    ]

search-prune_empty : (n next : TrieNode) (char : ℕ) → search (prune n char next) [] ≡ search n []
unfolding search find_node
search-prune_empty (node children end value) next char = refl

same_branch :
    (char d : ℕ) (next : TrieNode) (children : Children) (word other : Word)
    → search next other ≡ ite (same_key word other) none (below (find char children) other)
    → below (ite (ℕ_discrete char d) (left next) (find d children)) other
      ≡ ite
          (ℕ_discrete char d)
          (ite (same_key word other) none (below (find d children) other))
          (below (find d children) other)
same_branch char d next children word other deeper = elim (ℕ_discrete char d) [
  | yes e ↦ ground (arith, deeper, below-left next other)
  | no ne ↦ ground arith
]

-- A search of each word after the deletion of one.
abbrev pub Removes : TrieNode → Word → TrieNode → Type 0
Removes t word next =
    (other : Word) → search next other ≡ ite (same_key word other) none (search t other)

prune-Removes :
    (n c next : TrieNode) (char : ℕ) (word : Word)
    → find char (children_of n) ≡ some c
    → Removes c word next
    → Removes n (char ∷ word) (prune n char next)
prune-Removes n c next char word found h [] =
    search-prune_empty n next char
    ∙ sym (if_neg (same_key (char ∷ word) []) (λ e. cc) none (search n []))
prune-Removes n c next char word found h (d ∷ other) =
    rw
      (
        search_step (prune n char next) d other,
        find-prune n next char d,
        ite_cons char d word other none (search n (d ∷ other)),
        search_step n d other,
      )
      (same_branch char d next (children_of n) word other (rw found (h other)))

end-Removes :
    (children : Children) (value : GoString)
    → Removes (node children true value) [] (node children false [])
unfolding search find_node
end-Removes children value [] = sym (if_pos (same_key {K = Word} [] []) refl none (some value))
end-Removes children value (d ∷ other) = sym (
    if_neg (same_key {K = Word} [] (d ∷ other)) (λ e. cc) none
      (search (node children true value) (d ∷ other)))

-- A deletion of a word that is not stored, and one of a word that is.
pub delete_from-cases :
    (t : TrieNode) (word : Word)
    → ((delete_from t word ≡ none) × (search t word ≡ none))
      ⊎ ((next : TrieNode) × (value : GoString) × (delete_from t word ≡ some next)
          × (search t word ≡ some value)
          × Removes t word next)
unfolding delete_from search find_node
delete_from-cases (node children false value) [] = inl (refl, refl)
delete_from-cases (node children true value) [] =
    inr (node children false [], value, refl, refl, end-Removes children value)
delete_from-cases (node children end value) (char ∷ word) =
    elim (Option-cases (find char children)) [
      | inl missing ↦ inl (rw (missing, delete_from) refl, rw (missing, search, find_node) refl)
      | inr (c, found) ↦ elim (delete_from-cases c word) [
        | inl (stays, unread) ↦ inl (
          rw (found, stays, delete_from) refl,
          search_step (node children end value) char word ∙ rw found unread,
        )
        | inr (next, old, gone, read, removes) ↦ inr (
          prune (node children end value) char next,
          old,
          rw (found, gone, delete_from) refl,
          search_step (node children end value) char word ∙ rw found read,
          prune-Removes (node children end value) c next char word found removes,
        )
      ]
    ]
