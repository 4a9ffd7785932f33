-- ===== src/Trie/Listing.antt =====
-- 07-Trie/main.go: the words that `WordsWithPrefix` lists.
use design_with_ts_go.Base.{
  ℕ, ◌≡◌, refl, sym, ap, ◌∙◌, ◌≢◌, ◌↔◌, inl, inr, Bool, true, false, none, some, [], ◌∷◌, ◌++◌,
  arith, ℕ_discrete, Option-cases, is_some, nat_key, GoString, string_key, int_key, Among,
  Among-append,
}
use mathlib.Core.Path.{subst, subst}
use design_with_ts_go.Trie.{
  Word, TrieNode, Children, node, leaf, child, find, find_node, collect, collect_children,
  words_with_prefix,
}
use design_with_ts_go.Trie.Reads.{below, search_step, search_empty}
use design_with_ts_go.Trie.WellFormed.{IsTrie, AreTries}
use design_with_ts_go.Trie.Words.{found_any-IsTrie, Stores, search-append, unfound}

snoc-append : (word rest : Word) (c : ℕ) → (word ++ c ∷ []) ++ rest ≡ word ++ c ∷ rest
snoc-append [] rest c = refl
snoc-append (d ∷ word) rest c = ap (λ w. d ∷ w) (snoc-append word rest c)

append_nil : (word : Word) → word ++ [] ≡ word
append_nil [] = refl
append_nil (d ∷ word) = ap (λ w. d ∷ w) (append_nil word)

-- Some value is stored under the word below one of the children.
abbrev Under : Children → ℕ → Word → Type 0
Under children c word = is_some (below (find c children) word) ≡ true

child_first :
    (c : ℕ) (n : TrieNode) (children : Children) (word : Word)
    → Stores n word
    → Under (child c n children) c word
unfolding find
child_first c n children word h = ground (arith, h)

-- A child under another rune, which the first one does not hide.
child_later :
    (c d : ℕ) (n : TrieNode) (children : Children) (word : Word)
    → find c children ≡ none
    → Under children d word
    → Under (child c n children) d word
unfolding find
child_later c d n children word absent h = elim (ℕ_discrete c d) [
  | yes e ↦ absurd (cc (rw (subst (λ k. find k children ≡ none) e absent) at h))
  | no ne ↦ ground (arith, h)
]

leaf_empty : (c : ℕ) (word : Word) → ¬ Under leaf c word
unfolding find
leaf_empty c word h = cc

child_here :
    (d c : ℕ) (n : TrieNode) (children : Children) (word : Word)
    → d ≡ c
    → Under (child d n children) c word
    → Stores n word
unfolding find
child_here d c n children word e h = ground (arith, h)

child_elsewhere :
    (d c : ℕ) (n : TrieNode) (children : Children) (word : Word)
    → d ≢ c
    → Under (child d n children) c word
    → Under children c word
unfolding find
child_elsewhere d c n children word ne h = ground (arith, h)

child_step :
    (children : Children) (end : Bool) (value : GoString) (c : ℕ) (word : Word)
    → Under children c word
    → Stores (node children end value) (c ∷ word)
child_step children end value c word h = rw (search_step (node children end value) c word) h

mutual
  unfolding collect IsTrie

  collect_sound :
      (n : TrieNode) (prefix word : Word)
      → IsTrie n
      → Among word (collect n prefix)
      → (rest : Word) × (word ≡ prefix ++ rest) × Stores n rest
  collect_sound (node children true value) prefix word h (inl e) =
      ([], sym e ∙ sym (append_nil prefix), rw (search_empty (node children true value)) refl)
  collect_sound (node children true value) prefix word h (inr m) =
      let (c, rest, e, under) = collect_children_sound children prefix word h m in
      (c ∷ rest, e, child_step children true value c rest under)
  collect_sound (node children false value) prefix word h m =
      let (c, rest, e, under) = collect_children_sound children prefix word h m in
      (c ∷ rest, e, child_step children false value c rest under)

  collect_children_sound :
      (children : Children) (prefix word : Word)
      → AreTries children
      → Among word (collect_children children prefix)
      → (c : ℕ) × (rest : Word) × (word ≡ prefix ++ c ∷ rest) × Under children c rest
  collect_children_sound leaf prefix word h m = absurd m
  collect_children_sound (child c n children) prefix word h m =
      elim ((Among-append word (collect n (prefix ++ c ∷ [])) (collect_children children prefix)).0
        m) [
          | inl here ↦
              let (rest, e, stored) = collect_sound n (prefix ++ c ∷ []) word h.2 here in
              (c, rest, e ∙ snoc-append prefix rest c, child_first c n children rest stored)
          | inr later ↦
              let (d, rest, e, under) = collect_children_sound children prefix word h.3 later in
              (d, rest, e, child_later c d n children rest h.0 under)
        ]

mutual
  unfolding collect

  collect_complete :
      (n : TrieNode) (prefix rest : Word)
      → Stores n rest
      → Among (prefix ++ rest) (collect n prefix)
  collect_complete (node children true value) prefix [] stored = inl (sym (append_nil prefix))
  collect_complete (node children false value) prefix [] stored =
      absurd (cc (rw (search_empty (node children false value)) at stored))
  collect_complete (node children true value) prefix (c ∷ rest) stored = inr (
      collect_children_complete children prefix c rest
        (rw (search_step (node children true value) c rest) at stored))
  collect_complete (node children false value) prefix (c ∷ rest) stored =
      collect_children_complete children prefix c rest
        (rw (search_step (node children false value) c rest) at stored)

  collect_children_complete :
      (children : Children) (prefix : Word) (c : ℕ) (rest : Word)
      → Under children c rest
      → Among (prefix ++ c ∷ rest) (collect_children children prefix)
  collect_children_complete leaf prefix c rest under = absurd (leaf_empty c rest under)
  collect_children_complete (child d n children) prefix c rest under =
      (Among-append (prefix ++ c ∷ rest) (collect n (prefix ++ d ∷ []))
          (collect_children children prefix)).1
        (elim (ℕ_discrete d c) [
          | yes e ↦ inl (
              subst (λ k. Among (prefix ++ k ∷ rest) (collect n (prefix ++ d ∷ []))) e
                (subst (λ w. Among w (collect n (prefix ++ d ∷ []))) (snoc-append prefix rest d)
                  (collect_complete n (prefix ++ d ∷ []) rest
                    (child_here d c n children rest e under))))
          | no ne ↦ inr (
              collect_children_complete children prefix c rest
                (child_elsewhere d c n children rest ne under))
        ])

words_missing :
    (t : TrieNode) (prefix : Word) → find_node t prefix ≡ none → [] ≡ words_with_prefix t prefix
unfolding words_with_prefix
words_missing t prefix missing = rw (missing, words_with_prefix) refl

words_there :
    (t n : TrieNode) (prefix : Word)
    → find_node t prefix ≡ some n
    → collect n prefix ≡ words_with_prefix t prefix
unfolding words_with_prefix
words_there t n prefix there = rw (there, words_with_prefix) refl

-- In a trie without dead branches `WordsWithPrefix` lists exactly the stored words that start with
-- the prefix.
pub words_with_prefix_iff :
    (t : TrieNode) (prefix word : Word)
    → IsTrie t
    → Among word (words_with_prefix t prefix)
      ↔ ((rest : Word) × (word ≡ prefix ++ rest) × Stores t word)
words_with_prefix_iff t prefix word h = elim (Option-cases (find_node t prefix)) [
  | inl missing ↦
      subst (λ ws. Among word ws ↔ ((rest : Word) × (word ≡ prefix ++ rest) × Stores t word))
        (words_missing t prefix missing)
        (
          (λ m. absurd m),
          λ (rest, e, stored). unfound t prefix rest missing (subst (Stores t) e stored),
        )
  | inr (n, there) ↦
      subst (λ ws. Among word ws ↔ ((rest : Word) × (word ≡ prefix ++ rest) × Stores t word))
        (words_there t n prefix there)
        (
          (λ m.
              let (rest, e, stored) =
                collect_sound n prefix word (found_any-IsTrie t n prefix h there) m in
              (
                rest,
                e,
                subst (Stores t) (sym e) (rw (search-append t n prefix rest there) stored),
              )),
          λ (rest, e, stored).
              subst (λ w. Among w (collect n prefix)) (sym e)
                (collect_complete n prefix rest
                  (rw (search-append t n prefix rest there) at (subst (Stores t) e stored))),
        )
]
