-- ===== src/BTree/Tests.antt =====
-- 21-B-Tree/main.go: a small tree of degree 2.
use design_with_ts_go.Base.{
  ◌≡◌, refl, ◌↔◌, ◌⊎◌, true, false, some, List, [], ◌∷◌, ◌++◌, arith, ℕ_discrete, nat_key,
  string_key, ℤ, pos, ℤ-discrete, int_key, Among,
}
use design_with_ts_go.BTree.{
  BTree, BTreeNode, node, end, cons, new, insert, grown, insert_non_full, choose, split_child,
  insert_key, slide, depth, search,
}
use design_with_ts_go.BTree.Searches.{Answers}
use design_with_ts_go.BTree.Members.{Holds}
use design_with_ts_go.BTree.Runs.{IsBTree, insert_all, insert-IsBTree, search-insert_all}
use design_with_ts_go.BTree.Shape.{IsTree}

abbrev empty_tree : BTree
empty_tree = record { root = node [] end true; min_degree = 2 }

abbrev keys : List ℤ
keys = pos 1 ∷ pos 2 ∷ pos 3 ∷ pos 4 ∷ []

abbrev leaf_of : List ℤ → BTreeNode
leaf_of ks = node ks end true

insert_all_test :
    insert_all empty_tree keys
    ≡ some (record {
      root =
          node
            (pos 2 ∷ [])
            (cons (leaf_of (pos 1 ∷ [])) (cons (leaf_of (pos 3 ∷ pos 4 ∷ [])) end))
            false;
      min_degree = 2;
    })
unfolding insert_all insert grown insert_non_full choose split_child insert_key slide depth
    ℤ-discrete ℕ_discrete
insert_all_test = refl

-- A key of an inner node is inserted a second time.
twice_test :
    insert_all empty_tree (keys ++ pos 2 ∷ [])
    ≡ some (record {
      root =
          node
            (pos 2 ∷ [])
            (cons (leaf_of (pos 1 ∷ [])) (cons (leaf_of (pos 2 ∷ pos 3 ∷ pos 4 ∷ [])) end))
            false;
      min_degree = 2;
    })
unfolding insert_all insert grown insert_non_full choose split_child insert_key slide depth
    ℤ-discrete ℕ_discrete
twice_test = refl

search-insert_all_example :
    (last : BTree) × (insert_all empty_tree keys ≡ some last)
    × IsBTree last
    × ((x : ℤ) → Answers (search last x) (Among x keys))
unfolding new
search-insert_all_example = search-insert_all (pos 2) empty_tree keys refl

empty-IsBTree : IsBTree empty_tree
unfolding IsTree
empty-IsBTree = record {
  height = 0;
  degree = omega arith;
  tree = (refl, refl, tt);
  fits = omega arith;
}

insert-IsBTree_example :
    (next : BTree) × (insert empty_tree (pos 7) ≡ some next)
    × IsBTree next
    × ((x : ℤ) → Holds x next.root ↔ (Holds x empty_tree.root ⊎ (pos 7 ≡ x)))
insert-IsBTree_example = insert-IsBTree empty_tree (pos 7) empty-IsBTree
