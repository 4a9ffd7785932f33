-- ===== src/BTree/Insertions.antt =====
-- 21-B-Tree/main.go: what `insertNonFull` makes of a tree.
use design_with_ts_go.Base.{
  ℕ, suc, ◌-◌, ◌*◌, ◌≤◌, ◌<◌, ◌≡◌, refl, ap, ◌∙◌, ◌↔◌, ◌⊎◌, inl, inr, Bool, true, false, Option,
  some, List, arith, ◌==◌, Bool-cases, length, nat_key, string_key, ℤ, ltb_ℤ, int_key,
}
use design_with_ts_go.BTree.{
  BTreeNode, Nodes, node, keys_of, set_child, insert_child, insert_at, insert_key, left_half,
  right_half, is_full, choose, insert_below, insert_non_full,
}
use design_with_ts_go.BTree.Bounds.{LoLe, LeHi, le_of_ltb, le_of_not}
use design_with_ts_go.BTree.Keys.{
  position, position-le, insert_key_lem, Among-insert_at, length-insert_at,
}
use design_with_ts_go.BTree.Shape.{IsTree, IsSubtree}
use design_with_ts_go.BTree.Members.{
  Holds, HoldsAny-Others, HoldsAny-set_child, HoldsAny-insert_child,
}
use design_with_ts_go.BTree.Focus.{IsFocus}
use design_with_ts_go.BTree.Splits.{IsSplit}
use design_with_ts_go.BTree.Choices.{
  child_at-left, child_at-right, set_child-left, set_child-right, choose_small, choose_full,
  insert_below_lem,
}

-- The tree after an insertion, which holds the key beside those it held before.
pub record IsInserted (t h : ℕ) (lo hi : Option ℤ) (n : BTreeNode) (key : ℤ)
    (result : Option BTreeNode) : Type 0 where
  pub next : BTreeNode
  pub run : result ≡ some next
  pub tree : IsTree t h lo hi next
  pub fits : length (keys_of next) ≤ 2 * t - 1
  pub grows : length (keys_of n) ≤ length (keys_of next)
  pub same : (x : ℤ) → Holds x next ↔ (Holds x n ⊎ (key ≡ x))

module _ (t : ℕ) (degree : 2 ≤ t) where
  pub leaf-IsInserted :
      (fuel : ℕ) (lo hi : Option ℤ) (ks : List ℤ) (cs : Nodes) (leaf : Bool) (key : ℤ)
      → IsTree t 0 lo hi (node ks cs leaf)
      → length ks < 2 * t - 1
      → LoLe lo key
      → LeHi key hi
      → IsInserted t 0 lo hi
          (node ks cs leaf)
          key
          (insert_non_full t (suc fuel) (node ks cs leaf) key)
  unfolding insert_non_full IsTree Holds
  leaf-IsInserted fuel lo hi ks cs true key tree room low high =
      let (order, size, same) = insert_key_lem lo ks hi key tree.2 low high in
      record {
        next = node (insert_key ks key) cs true;
        run = refl;
        tree = (refl, tree.1, order);
        fits = omega arith;
        grows = omega arith;
        same = λ x. ground (arith, same x);
      }
  leaf-IsInserted fuel lo hi ks cs false key tree room low high = absurd (cc tree.0)

  -- An insertion into a node of a height that has room.
  abbrev pub Inserts : ℕ → ℕ → Type 0
  Inserts fuel h =
      (lo hi : Option ℤ) (n : BTreeNode) (key : ℤ)
      → IsTree t h lo hi n
      → length (keys_of n) < 2 * t - 1
      → LoLe lo key
      → LeHi key hi
      → IsInserted t h lo hi n key (insert_non_full t fuel n key)

  pub not_full :
      (n : BTreeNode)
      → is_full t n ≡ false
      → length (keys_of n) ≤ 2 * t - 1
      → length (keys_of n) < 2 * t - 1
  not_full n e b = different (length (keys_of n)) (2 * t - 1) e b
    where
      different : (a c : ℕ) → (a == c) ≡ false → a ≤ c → a < c
      different a c p q = ground arith

  module _ (fuel h : ℕ) (more : Inserts fuel h) (lo hi : Option ℤ) (ks : List ℤ) (cs : Nodes)
      (key : ℤ) where
    abbrev at : ℕ
    at = position ks key

    abbrev result : Option BTreeNode
    result =
        insert_below (λ child. insert_non_full t fuel child key)
          (choose t (node ks cs false) key at)

    pub small_child :
        (f : IsFocus (IsSubtree t h) lo ks cs hi at key)
        → is_full t f.child ≡ false
        → length ks < 2 * t - 1
        → IsInserted t (suc h) lo hi (node ks cs false) key result
    unfolding IsTree Holds
    small_child f small room =
        let below =
          more f.low f.high f.child key f.fits.0 (not_full f.child small f.fits.1) f.from f.to in
        record {
          next = node ks (set_child cs at below.next) false;
          run = rw (choose_small t ks cs at key f.child f.at small) (
              insert_below_lem (λ child. insert_non_full t fuel child key) ks cs at f.child
                below.next f.at below.run);
          tree = (
            refl,
            f.put below.next (below.tree, below.fits, omega (arith, below.grows, f.fits.2)),
          );
          fits = omega arith;
          grows = omega arith;
          same = λ x. ground (
            arith,
            below.same x,
            HoldsAny-Others x cs at f.child f.at,
            HoldsAny-set_child x cs at f.child below.next f.at,
          );
        }

    -- The insertion into one of the halves of a full child.
    module _ (f : IsFocus (IsSubtree t h) lo ks cs hi at key) (s : IsSplit t h f.low f.high f.child)
        (full : is_full t f.child ≡ true) (room : length ks < 2 * t - 1) where
      into_right :
          ltb_ℤ s.middle key ≡ true → IsInserted t (suc h) lo hi (node ks cs false) key result
      unfolding IsTree Holds
      into_right above =
          let left = left_half t f.child in
          let right = right_half t f.child in
          let chosen =
            choose_full t ks cs at key s.middle f.child f.at full s.at (position-le ks key) in
          let others = λ (x : ℤ). HoldsAny-Others x cs at f.child f.at in
          let run = λ (child : BTreeNode). insert_non_full t fuel child key in
          let below =
            more (some s.middle) f.high right key s.right (omega (arith, s.right_size))
              (le_of_ltb s.middle key above) f.to in
          record {
            next =
                node (insert_at ks at s.middle)
                  (insert_child (set_child cs at left) (suc at) below.next) false;
            run =
                rw (chosen, above)
                  (insert_below_lem run (insert_at ks at s.middle)
                      (insert_child (set_child cs at left) (suc at) right) (suc at) right below.next
                      (child_at-right cs at f.child left right f.at) below.run
                    ∙ ap (λ c. some (node (insert_at ks at s.middle) c false))
                        (set_child-right cs at f.child left right below.next f.at));
            tree = (
              refl,
              f.split s.middle left below.next s.low s.high
                  (s.left, omega (arith, s.left_size), omega (arith, s.left_size))
                  (below.tree, below.fits, omega (arith, below.grows, s.right_size)),
            );
            fits = omega (arith, length-insert_at ks at s.middle);
            grows = omega (arith, length-insert_at ks at s.middle);
            same = λ x. ground (
              arith,
              below.same x,
              s.same x,
              others x,
              Among-insert_at x s.middle ks at,
              HoldsAny-insert_child x (set_child cs at left) (suc at) below.next,
              HoldsAny-set_child x cs at f.child left f.at,
            );
          }

      into_left :
          ltb_ℤ s.middle key ≡ false → IsInserted t (suc h) lo hi (node ks cs false) key result
      unfolding IsTree Holds
      into_left under =
          let left = left_half t f.child in
          let right = right_half t f.child in
          let chosen =
            choose_full t ks cs at key s.middle f.child f.at full s.at (position-le ks key) in
          let others = λ (x : ℤ). HoldsAny-Others x cs at f.child f.at in
          let run = λ (child : BTreeNode). insert_non_full t fuel child key in
          let below =
            more f.low (some s.middle) left key s.left (omega (arith, s.left_size)) f.from
              (le_of_not s.middle key under) in
          record {
            next =
                node (insert_at ks at s.middle)
                  (insert_child (set_child cs at below.next) (suc at) right) false;
            run =
                rw (chosen, under)
                  (insert_below_lem run (insert_at ks at s.middle)
                      (insert_child (set_child cs at left) (suc at) right) at left below.next
                      (child_at-left cs at f.child left right f.at) below.run
                    ∙ ap (λ c. some (node (insert_at ks at s.middle) c false))
                        (set_child-left cs at f.child left right below.next f.at));
            tree = (
              refl,
              f.split s.middle below.next right s.low s.high
                  (below.tree, below.fits, omega (arith, below.grows, s.left_size))
                  (s.right, omega (arith, s.right_size), omega (arith, s.right_size)),
            );
            fits = omega (arith, length-insert_at ks at s.middle);
            grows = omega (arith, length-insert_at ks at s.middle);
            same = λ x. ground (
              arith,
              below.same x,
              s.same x,
              others x,
              Among-insert_at x s.middle ks at,
              HoldsAny-insert_child x (set_child cs at below.next) (suc at) right,
              HoldsAny-set_child x cs at f.child below.next f.at,
            );
          }

      pub full_child : IsInserted t (suc h) lo hi (node ks cs false) key result
      full_child = elim (Bool-cases (ltb_ℤ s.middle key)) [
        | inl above ↦ into_right above
        | inr under ↦ into_left under
      ]
