-- ===== src/Trie/Reads.antt =====
-- 07-Trie/main.go: `Search` as a recursion on the word, and after an insertion.
use design_with_ts_go.Base.{
  ℕ, ◌≡◌, refl, sym, ap, ◌∙◌, ite, if_pos, if_neg, true, Option, none, some, [], ◌∷◌, arith,
  ℕ_discrete, if◌then◌else◌, get_or, nat_key, same_key, GoString, string_key, int_key,
}
use design_with_ts_go.Trie.{
  Word, TrieNode, Children, node, children_of, is_end, value_of, find, put, fresh, insert,
  find_node, search,
}
use design_with_ts_go.Trie.Finds.{find-put}

-- What a search of the rest of the word reads below a node.
abbrev pub below : Option TrieNode → Word → Option GoString
below none word = none
below (some n) word = search n word

pub search_step :
    (n : TrieNode) (char : ℕ) (word : Word)
    → search n (char ∷ word) ≡ below (find char (children_of n)) word
unfolding search find_node
search_step n char word = ground arith

pub search_empty : (n : TrieNode) → search n [] ≡ (if is_end n then some (value_of n) else none)
unfolding search find_node
search_empty n = refl

search-fresh : (word : Word) → search fresh word ≡ none
unfolding search find_node find
search-fresh [] = refl
search-fresh (char ∷ word) = refl

below-get_or : (o : Option TrieNode) (word : Word) → search (get_or o fresh) word ≡ below o word
below-get_or none word = search-fresh word
below-get_or (some n) word = refl

cons_ext : (c d : ℕ) (word other : Word) → c ≡ d → word ≡ other → c ∷ word ≡ d ∷ other
cons_ext c d word other e p = cc

cons_head : (c d : ℕ) (word other : Word) → c ∷ word ≡ d ∷ other → c ≡ d
cons_head c d word other e = cc

cons_tail : (c d : ℕ) (word other : Word) → c ∷ word ≡ d ∷ other → word ≡ other
cons_tail c d word other e = cc

-- The comparison of two words, rune by rune.
pub ite_cons :
    {A : Type 0} (c d : ℕ) (word other : Word) (x y : A)
    → ite (same_key (c ∷ word) (d ∷ other)) x y
      ≡ ite (ℕ_discrete c d) (ite (same_key word other) x y) y
ite_cons c d word other x y =
    let whole = same_key (c ∷ word) (d ∷ other) in
    let rest = ite (same_key word other) x y in
    elim (ℕ_discrete c d) [
      | no ne ↦
          if_neg whole (λ e. ne (cons_head c d word other e)) x y
          ∙ sym (if_neg (ℕ_discrete c d) ne rest y)
      | yes e ↦ elim (same_key word other) [
        | yes p ↦
            if_pos whole (cons_ext c d word other e p) x y
            ∙ sym (if_pos (ℕ_discrete c d) e rest y ∙ if_pos (same_key word other) p x y)
        | no ne ↦
            if_neg whole (λ q. ne (cons_tail c d word other q)) x y
            ∙ sym (if_pos (ℕ_discrete c d) e rest y ∙ if_neg (same_key word other) ne x y)
      ]
    ]

same_branch :
    (char d : ℕ) (next : TrieNode) (children : Children) (word other : Word) (value : GoString)
    → search next other ≡ ite (same_key word other) (some value) (below (find char children) other)
    → below (ite (ℕ_discrete char d) (some next) (find d children)) other
      ≡ ite
          (ℕ_discrete char d)
          (ite (same_key word other) (some value) (below (find d children) other))
          (below (find d children) other)
same_branch char d next children word other value deeper = elim (ℕ_discrete char d) [
  | yes e ↦ ground (arith, deeper)
  | no ne ↦ ground arith
]

-- After an insertion a search of that word finds the value, and a search of any other word finds
-- what it found before.
pub search-insert :
    (t : TrieNode) (word other : Word) (value : GoString)
    → search (insert t word value) other ≡ ite (same_key word other) (some value) (search t other)
unfolding insert
search-insert (node children end old) [] [] value =
    search_empty (node children true value)
    ∙ sym (if_pos (same_key {K = Word} [] []) refl (some value) (search (node children end old) []))
search-insert (node children end old) [] (d ∷ other) value =
    search_step (node children true value) d other
    ∙ sym (
        if_neg (same_key {K = Word} [] (d ∷ other)) (λ e. cc) (some value)
          (search (node children end old) (d ∷ other))
        ∙ search_step (node children end old) d other)
search-insert (node children end old) (char ∷ word) [] value =
    search_empty
      (node (put char (insert (get_or (find char children) fresh) word value) children) end old)
    ∙ sym (
        if_neg (same_key (char ∷ word) []) (λ e. cc) (some value)
          (search (node children end old) [])
        ∙ search_empty (node children end old))
search-insert (node children end old) (char ∷ word) (d ∷ other) value =
    let next = insert (get_or (find char children) fresh) word value in
    let deeper = search-insert (get_or (find char children) fresh) word other value in
    let before = search_step (node children end old) d other in
    rw
      (
        search_step (node (put char next children) end old) d other,
        find-put d char next children,
        ite_cons char d word other (some value) (search (node children end old) (d ∷ other)),
        before,
      )
      (same_branch char d next children word other value (
        deeper
        ∙ ap (ite (same_key word other) (some value)) (below-get_or (find char children) other)))
