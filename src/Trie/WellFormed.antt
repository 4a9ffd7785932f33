-- ===== src/Trie/WellFormed.antt =====
-- 07-Trie/main.go: tries without dead branches.
use mathlib.Core.Option.{some-injective}
use design_with_ts_go.Base.{
  ℕ, ◌≡◌, refl, ◌⊎◌, inl, inr, true, false, not, ◌&&◌, none, some, List, [], ◌∷◌, arith, ℕ_discrete,
  Bool-cases, Option-cases, get_or, nat_key, GoString, string_key, ite-elim, int_key,
}
use mathlib.Core.Path.{subst}
use design_with_ts_go.Trie.{
  Word, TrieNode, Children, new, node, leaf, child, children_of, is_end, is_empty, find, put, drop,
  fresh, insert, prune, delete, delete_from,
}
use design_with_ts_go.Trie.Finds.{find-put, find-drop}
use design_with_ts_go.Trie.Runs.{Call, inserts, deletes, call, run}

-- The node ends a word, or has children.
abbrev pub IsAlive : TrieNode → Type 0
IsAlive n = (is_end n ≡ true) ⊎ (is_empty (children_of n) ≡ false)

-- Each child is alive and stands under one rune.
unfoldable mutual
  pub IsTrie : TrieNode → Type 0
  IsTrie (node children end value) = AreTries children

  pub AreTries : Children → Type 0
  AreTries leaf = Unit
  AreTries (child char n children) =
      (find char children ≡ none) × IsAlive n × IsTrie n × AreTries children

pub IsTrie-children : (n : TrieNode) → IsTrie n → AreTries (children_of n)
unfolding IsTrie
IsTrie-children (node children end value) h = h

pub find-IsTrie :
    (char : ℕ) (children : Children) (n : TrieNode)
    → AreTries children
    → find char children ≡ some n
    → IsAlive n × IsTrie n
unfolding find IsTrie
find-IsTrie char leaf n h found = cc
find-IsTrie char (child c m children) n h found = elim (ℕ_discrete c char) [
  | yes e ↦
      let same : some m ≡ some n = ground arith in
      subst (λ k. IsAlive k × IsTrie k) (some-injective m n same) (h.1, h.2)
  | no ne ↦ find-IsTrie char children n h.3 (ground arith)
]

put-AreTries :
    (char : ℕ) (n : TrieNode) (children : Children)
    → AreTries children
    → IsAlive n
    → IsTrie n
    → AreTries (put char n children)
unfolding put find IsTrie
put-AreTries char n leaf h alive k = (refl, alive, k, tt)
put-AreTries char n (child c m children) h alive k =
    ite-elim AreTries (ℕ_discrete c char) (child c n children) (child c m (put char n children))
      (λ e. (h.0, alive, k, h.3))
      (λ ne. (
        ground (arith, find-put c char n children),
        h.1,
        h.2,
        put-AreTries char n children h.3 alive k,
      ))

drop-AreTries : (char : ℕ) (children : Children) → AreTries children → AreTries (drop char children)
unfolding drop find IsTrie
drop-AreTries char leaf h = tt
drop-AreTries char (child c m children) h =
    ite-elim AreTries (ℕ_discrete c char) (drop char children) (child c m (drop char children))
      (λ e. drop-AreTries char children h.3)
      (λ ne. (ground (arith, find-drop c char children), h.1, h.2, drop-AreTries char children h.3))

put_some : (char : ℕ) (n : TrieNode) (children : Children) → is_empty (put char n children) ≡ false
unfolding put
put_some char n leaf = refl
put_some char n (child c m children) = ground arith

fresh-IsTrie : IsTrie fresh
unfolding IsTrie
fresh-IsTrie = tt

found_or_fresh-IsTrie :
    (char : ℕ) (children : Children)
    → AreTries children
    → IsTrie (get_or (find char children) fresh)
found_or_fresh-IsTrie char children h = elim (Option-cases (find char children)) [
  | inl missing ↦ rw missing fresh-IsTrie
  | inr (n, found) ↦ rw found (find-IsTrie char children n h found).1
]

insert-IsTrie :
    (t : TrieNode) (word : Word) (value : GoString)
    → IsTrie t
    → IsAlive (insert t word value) × IsTrie (insert t word value)
unfolding insert IsTrie
insert-IsTrie (node children end old) [] value h = (inl refl, h)
insert-IsTrie (node children end old) (char ∷ word) value h =
    let n = get_or (find char children) fresh in
    let (alive, k) = insert-IsTrie n word value (found_or_fresh-IsTrie char children h) in
    (
      inr (put_some char (insert n word value) children),
      put-AreTries char (insert n word value) children h alive k,
    )

prune-IsTrie : (n next : TrieNode) (char : ℕ) → IsTrie n → IsTrie next → IsTrie (prune n char next)
unfolding IsTrie
prune-IsTrie (node children end value) next char h k =
    elim (Bool-cases (not (is_end next) && is_empty (children_of next))) [
      | inl dead ↦ rw dead (drop-AreTries char children h)
      | inr kept ↦ rw kept (put-AreTries char next children h (alive next kept) k)
    ]
  where
    alive : (m : TrieNode) → (not (is_end m) && is_empty (children_of m)) ≡ false → IsAlive m
    alive m e = ground arith

emptied-IsTrie :
    (children : Children) (value : GoString)
    → IsTrie (node children true value)
    → IsTrie (node children false [])
unfolding IsTrie
emptied-IsTrie children value h = h

delete_from-IsTrie :
    (t next : TrieNode) (word : Word) → IsTrie t → delete_from t word ≡ some next → IsTrie next
unfolding delete_from
delete_from-IsTrie (node children true value) next [] h e =
    subst IsTrie (some-injective (node children false []) next e) (emptied-IsTrie children value h)
delete_from-IsTrie (node children false value) next [] h e = cc
delete_from-IsTrie (node children end value) next (char ∷ word) h e =
    elim (Option-cases (find char children)) [
      | inl missing ↦ absurd (ground (arith, missing))
      | inr (c, found) ↦ elim (Option-cases (delete_from c word)) [
        | inl stays ↦ absurd (ground (arith, stays))
        | inr (after, gone) ↦
            subst IsTrie
              (some-injective (prune (node children end value) char after) next
                (rw (found, gone, delete_from) at e))
              (prune-IsTrie (node children end value) after char h (
                delete_from-IsTrie c after word
                  (find-IsTrie char children c (IsTrie-children (node children end value) h)
                    found).1
                  gone))
      ]
    ]

delete-IsTrie : (t : TrieNode) (word : Word) → IsTrie t → IsTrie (delete t word).0
unfolding delete
delete-IsTrie t word h = elim (Option-cases (delete_from t word)) [
  | inl stays ↦ rw stays h
  | inr (next, gone) ↦ rw gone (delete_from-IsTrie t next word h gone)
]

run_from-IsTrie : (t : TrieNode) (calls : List Call) → IsTrie t → IsTrie (run t calls)
unfolding run call
run_from-IsTrie t [] h = h
run_from-IsTrie t (inserts word value ∷ calls) h =
    run_from-IsTrie (insert t word value) calls (insert-IsTrie t word value h).1
run_from-IsTrie t (deletes word ∷ calls) h =
    run_from-IsTrie (delete t word).0 calls (delete-IsTrie t word h)

-- After any insertions and deletions on a new trie, the children of each node stand under different
-- runes, and each child ends a word or has children: no dead branch is left.
pub run-IsTrie : (calls : List Call) → IsTrie (run new calls)
unfolding new
run-IsTrie calls = run_from-IsTrie new calls fresh-IsTrie
