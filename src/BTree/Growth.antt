-- ===== src/BTree/Growth.antt =====
-- 21-B-Tree/main.go: insertion from the root.
use design_with_ts_go.Base.{
  ℕ, zero, suc, ◌-◌, ◌*◌, ◌≤◌, ◌<◌, ◌≡◌, refl, ap, ◌↔◌, inl, inr, true, false, Option, none, some,
  [], ◌∷◌, arith, Bool-cases, length, nat_key, string_key, ℤ, int_key,
}
use design_with_ts_go.BTree.{
  BTreeNode, node, end, cons, keys_of, depth, is_full, grown, insert_non_full,
}
use design_with_ts_go.BTree.Keys.{slide-position}
use design_with_ts_go.BTree.Shape.{IsTree, IsSubtree}
use design_with_ts_go.BTree.Members.{Holds}
use design_with_ts_go.BTree.Focus.{position-IsFocus}
use design_with_ts_go.BTree.Splits.{IsSplit, full-IsSplit}
use design_with_ts_go.BTree.Choices.{halved, split_child_lem}
use design_with_ts_go.BTree.Insertions.{leaf-IsInserted, Inserts, small_child, full_child}

module _ (t : ℕ) (degree : 2 ≤ t) where
  pub insert_non_full-IsInserted : (h fuel : ℕ) → h < fuel → Inserts t degree fuel h
  unfolding insert_non_full IsTree
  insert_non_full-IsInserted h zero enough lo hi n key tree room low high = absurd (omega arith)
  insert_non_full-IsInserted zero (suc fuel) enough lo hi (node ks cs leaf) key tree room low high =
      leaf-IsInserted t degree fuel lo hi ks cs leaf key tree room low high
  insert_non_full-IsInserted (suc h) (suc fuel) enough lo hi (node ks cs true) key tree room low
        high =
      absurd (cc tree.0)
  insert_non_full-IsInserted (suc h) (suc fuel) enough lo hi (node ks cs false) key tree room low
        high =
      let more = insert_non_full-IsInserted h fuel (omega arith) in
      let f = position-IsFocus (IsSubtree t h) lo ks cs hi key tree.1 low high in
      rw (slide-position ks key) (elim (Bool-cases (is_full t f.child)) [
        | inr small ↦ small_child t degree fuel h more lo hi ks cs key f small room
        | inl full ↦
            full_child t degree fuel h more lo hi ks cs key f
              (full-IsSplit t h f.low f.high f.child (omega arith) full f.fits.0) full room
      ])

  pub depth-IsTree : (h : ℕ) (lo hi : Option ℤ) (n : BTreeNode) → IsTree t h lo hi n → depth n ≡ h
  unfolding IsTree depth
  depth-IsTree zero lo hi (node ks cs leaf) tree = rw tree.1 refl
  depth-IsTree (suc h) lo hi (node ks end leaf) tree = absurd tree.1
  depth-IsTree (suc h) lo hi (node [] (cons c end) leaf) tree =
      ap suc (depth-IsTree h lo hi c tree.1.0)
  depth-IsTree (suc h) lo hi (node [] (cons c (cons d cs)) leaf) tree = absurd tree.1
  depth-IsTree (suc h) lo hi (node (k ∷ ks) (cons c cs) leaf) tree =
      ap suc (depth-IsTree h lo (some k) c tree.1.2.0)

  -- The root before the insertion: a tree that has room.
  pub record IsGrown (root : BTreeNode) : Type 0 where
    pub height : ℕ
    pub next : BTreeNode
    pub run : grown t root ≡ some next
    pub tree : IsTree t height none none next
    pub room : length (keys_of next) < 2 * t - 1
    pub same : (x : ℤ) → Holds x next ↔ Holds x root

  pub new_root :
      (h : ℕ) (root : BTreeNode) → is_full t root ≡ true → IsSplit t h none none root → IsGrown root
  unfolding grown IsTree Holds
  new_root h root full s = record {
    height = suc h;
    next = halved t [] (cons root end) 0 s.middle root;
    run = rw full (split_child_lem t [] (cons root end) 0 s.middle root refl s.at);
    tree = (
      refl,
      (
        tt,
        tt,
        (s.left, omega (arith, s.left_size), omega (arith, s.left_size)),
        (s.right, omega (arith, s.right_size), omega (arith, s.right_size)),
      ),
    );
    room = omega arith;
    same = λ x. ground (arith, s.same x);
  }

  pub old_root :
      (h : ℕ) (root : BTreeNode)
      → is_full t root ≡ false
      → IsTree t h none none root
      → length (keys_of root) < 2 * t - 1
      → IsGrown root
  unfolding grown
  old_root h root small tree room = record {
    height = h;
    next = root;
    run = rw small refl;
    tree = tree;
    room = room;
    same = λ x. (λ m. m, λ m. m);
  }
