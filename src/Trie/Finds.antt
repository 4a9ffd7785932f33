-- ===== src/Trie/Finds.antt =====
-- 07-Trie/main.go: what is found among children after `put` and `drop`.
use design_with_ts_go.Base.{
  ℕ, ◌≡◌, refl, ite, none, some, arith, ℕ_discrete, nat_key, string_key, int_key,
}
use design_with_ts_go.Trie.{TrieNode, Children, leaf, child, find, put, drop}

pub find-put :
    (c d : ℕ) (n : TrieNode) (children : Children)
    → find c (put d n children) ≡ ite (ℕ_discrete d c) (some n) (find c children)
unfolding find put
find-put c d n leaf = refl
find-put c d n (child e m children) = ground (arith, find-put c d n children)

pub find-drop :
    (c d : ℕ) (children : Children)
    → find c (drop d children) ≡ ite (ℕ_discrete d c) none (find c children)
unfolding find drop
find-drop c d leaf = ground arith
find-drop c d (child e m children) = ground (arith, find-drop c d children)
