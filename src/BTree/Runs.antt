-- ===== src/BTree/Runs.antt =====
-- 21-B-Tree/main.go: searches after any insertions.
use design_with_ts_go.Base.{
  ℕ, zero, suc, ◌+◌, ◌-◌, ◌*◌, ◌≤◌, ◌≡◌, refl, ap, ◌↔◌, ◌⊎◌, inl, inr, true, false, Option, none,
  some, List, [], ◌∷◌, arith, Bool-cases, length, get_elem?, nat_key, string_key, keys, ℤ, pos,
  negsuc, pos_part, ltb_ℤ, int_key, Among,
}
use mathlib.Core.Path.{subst}
use mathlib.Core.Option.{some-injective}
use design_with_ts_go.BTree.{
  BTree, BTreeNode, Nodes, node, end, keys_of, first_from, is_at, search_btree, search_child,
  search, new, insert, is_full, with_root, depth,
}
use design_with_ts_go.BTree.Bounds.{LoLe, LeHi, Among-LoLe}
use design_with_ts_go.BTree.Shape.{IsTree, IsSubtree}
use design_with_ts_go.BTree.Members.{Holds, HoldsAny}
use design_with_ts_go.BTree.Searches.{Answers, leaf_keys, Between_inside, Between-Finds}
use design_with_ts_go.BTree.Splits.{full-IsSplit}
use design_with_ts_go.BTree.Insertions.{not_full}
use design_with_ts_go.BTree.Growth.{
  insert_non_full-IsInserted, depth-IsTree, IsGrown, new_root, old_root,
}

module _ (t : ℕ) (x : ℤ) where
  IsTree-inside :
      (h : ℕ) (lo hi : Option ℤ) (n : BTreeNode)
      → IsTree t h lo hi n
      → Holds x n
      → LoLe lo x × LeHi x hi
  unfolding IsTree Holds
  IsTree-inside zero lo hi (node ks cs leaf) tree (inl m) = Among-LoLe lo ks hi x tree.2 m
  IsTree-inside zero lo hi (node ks cs leaf) tree (inr m) = absurd (subst (HoldsAny x) tree.1 m)
  IsTree-inside (suc h) lo hi (node ks cs leaf) tree m =
      Between_inside (IsSubtree t h) x (λ l u c s. IsTree-inside h l u c s.0) lo ks cs hi tree.1 m

  leaf_answers :
      (lo hi : Option ℤ) (ks : List ℤ)
      → IsTree t 0 lo hi (node ks end true)
      → Answers (search_btree (node ks end true) x) (Holds x (node ks end true))
  unfolding IsTree Holds search_btree
  leaf_answers lo hi ks tree = elim (Bool-cases (is_at (get_elem? ks (first_from ks x)) x)) [
    | inl there ↦ (true, rw there refl, ground (arith, leaf_keys lo ks hi x tree.2))
    | inr absent ↦ (false, rw absent refl, ground (arith, leaf_keys lo ks hi x tree.2))
  ]

  inner_answers :
      (ks : List ℤ) (cs : Nodes)
      → ((is_at (get_elem? ks (first_from ks x)) x ≡ true) × Among x ks)
        ⊎ ((is_at (get_elem? ks (first_from ks x)) x ≡ false)
            × Answers (search_child cs (first_from ks x) x) (Among x ks ⊎ HoldsAny x cs))
      → Answers (search_btree (node ks cs false) x) (Holds x (node ks cs false))
  unfolding Holds search_btree
  inner_answers ks cs (inl (there, m)) = (true, rw there refl, (λ _. inl m, λ _. refl))
  inner_answers ks cs (inr (absent, (found, run, right))) = (found, rw absent run, right)

  search-Answers :
      (h : ℕ) (lo hi : Option ℤ) (n : BTreeNode)
      → IsTree t h lo hi n
      → Answers (search_btree n x) (Holds x n)
  unfolding IsTree
  search-Answers zero lo hi (node ks cs leaf) tree =
      rw (tree.0, tree.1) (leaf_answers lo hi ks (refl, refl, tree.2))
  search-Answers (suc h) lo hi (node ks cs leaf) tree = rw tree.0 (
      inner_answers ks cs (
        Between-Finds (IsSubtree t h) x (λ l u c s. IsTree-inside h l u c s.0)
          (λ l u c s. search-Answers h l u c s.0) lo ks cs hi tree.1))

-- A tree with its leaves at one depth, its keys in order, at most one key less than twice the
-- minimum degree in every node, and at least one key less than the minimum degree in every node but
-- the root.
pub record IsBTree (b : BTree) : Type 0 where
  pub height : ℕ
  pub degree : 2 ≤ b.min_degree
  pub tree : IsTree b.min_degree height none none b.root
  pub fits : length (keys_of b.root) ≤ 2 * b.min_degree - 1

root-IsGrown : (b : BTree) → (k : IsBTree b) → IsGrown b.min_degree k.degree b.root
root-IsGrown b k = elim (Bool-cases (is_full b.min_degree b.root)) [
  | inl full ↦
      new_root b.min_degree k.degree k.height b.root full
        (full-IsSplit b.min_degree k.height none none b.root (omega (arith, k.degree)) full k.tree)
  | inr small ↦
      old_root b.min_degree k.degree k.height b.root small k.tree
        (not_full b.min_degree k.degree b.root small k.fits)
]

-- In a B-tree of degree 2 or more `Insert` does not panic and its fuel is enough; the tree after it
-- is a B-tree again: its leaves are at one depth, its keys in order, no node has more than 2t-1 keys
-- and none but the root fewer than t-1; and it holds the new key beside those it held before.
pub insert-IsBTree :
    (b : BTree) (key : ℤ)
    → IsBTree b
    → (next : BTree) × (insert b key ≡ some next)
      × IsBTree next
      × ((x : ℤ) → Holds x next.root ↔ (Holds x b.root ⊎ (key ≡ x)))
unfolding insert
insert-IsBTree b key k =
    let t = b.min_degree in
    let g = root-IsGrown b k in
    let i =
      insert_non_full-IsInserted t k.degree g.height (depth g.next + 1)
        (omega (arith, depth-IsTree t k.degree g.height none none g.next g.tree)) none none g.next
        key g.tree g.room tt tt in
    (
      record b { root = i.next },
      rw g.run (ap (with_root b) i.run),
      record { height = g.height; degree = k.degree; tree = i.tree; fits = i.fits },
      λ x. ground (arith, i.same x, g.same x),
    )

-- `none` is a panic on the way.
unfoldable pub insert_all : BTree → List ℤ → Option BTree
unfolding insert
insert_all b [] = some b
insert_all b (key ∷ keys) = elim (insert b key) [ none ↦ none | some next ↦ insert_all next keys ]

insert_all-IsBTree :
    (b : BTree) (keys : List ℤ)
    → IsBTree b
    → (last : BTree) × (insert_all b keys ≡ some last)
      × IsBTree last
      × ((x : ℤ) → Holds x last.root ↔ (Holds x b.root ⊎ Among x keys))
unfolding insert_all
insert_all-IsBTree b [] k = (b, refl, k, λ x. ground arith)
insert_all-IsBTree b (key ∷ keys) k =
    let (next, e, n, here) = insert-IsBTree b key k in
    let (last, run, l, all) = insert_all-IsBTree next keys n in
    (last, rw (e, insert_all) run, l, λ x. ground (arith, here x, all x))

new-IsBTree :
    (degree : ℤ) (b : BTree) → new degree ≡ some b → IsBTree b × ((x : ℤ) → ¬ Holds x b.root)
unfolding new IsTree Holds
new-IsBTree degree b e = elim (Bool-cases (ltb_ℤ degree (pos 2))) [
  | inl small ↦ absurd (ground (arith, small))
  | inr enough ↦
      subst (λ c. IsBTree c × ((x : ℤ) → ¬ Holds x c.root))
        (some-injective (record { root = node [] end true; min_degree = pos_part degree }) b
          (rw enough at e))
        (
          record {
            height = 0;
            degree = two_or_more degree enough;
            tree = (refl, refl, tt);
            fits = omega arith;
          },
          λ x h. elim h [ inl z ↦ z | inr z ↦ z ],
        )
]
  where
    two_or_more : (d : ℤ) → ltb_ℤ d (pos 2) ≡ false → 2 ≤ pos_part d
    two_or_more (pos n) h = ground arith
    two_or_more (negsuc n) h = ground arith

-- After any insertions into a new tree, none of which panics, the tree is a B-tree, with t-1 to
-- 2t-1 keys in every node but the root, and a search of any key answers, without a panic, and
-- answers true exactly for the keys that were inserted.
pub search-insert_all :
    (degree : ℤ) (b : BTree) (keys : List ℤ)
    → new degree ≡ some b
    → (last : BTree) × (insert_all b keys ≡ some last)
      × IsBTree last
      × ((x : ℤ) → Answers (search last x) (Among x keys))
unfolding search
search-insert_all degree b keys e =
    let (start, empty) = new-IsBTree degree b e in
    let (last, run, l, held) = insert_all-IsBTree b keys start in
    (
      last,
      run,
      l,
      λ x.
          let (found, result, right) =
            search-Answers last.min_degree x l.height none none last.root l.tree in
          (found, result, ground (arith, right, held x, empty x)),
    )
