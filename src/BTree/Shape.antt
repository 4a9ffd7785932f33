-- ===== src/BTree/Shape.antt =====
-- 21-B-Tree/main.go: the shape of a B-tree: leaves at one depth, keys in order, and every node but
-- the root with at least one key less than the minimum degree and at most one less than twice that.
use design_with_ts_go.Base.{
  ℕ, zero, suc, ◌-◌, ◌+◌, ◌*◌, ◌≤◌, ◌≡◌, true, false, Option, some, List, [], ◌∷◌, length, nat_key,
  string_key, ℤ, int_key,
}
use design_with_ts_go.BTree.{BTreeNode, Nodes, node, end, cons, keys_of}
use design_with_ts_go.BTree.Bounds.{LoLe, LeHi, InOrder}

-- The keys of a node and its children by turns.
abbrev pub Between :
    (Option ℤ → Option ℤ → BTreeNode → Type 0) → Option ℤ → List ℤ → Nodes → Option ℤ → Type 0
Between P lo ks end hi = ⊥
Between P lo [] (cons c end) hi = P lo hi c
Between P lo [] (cons c (cons d cs)) hi = ⊥
Between P lo (k ∷ ks) (cons c cs) hi =
    LoLe lo k × LeHi k hi × P lo (some k) c × Between P (some k) ks cs hi

-- A tree of a height, with all keys between the bounds.
unfoldable pub IsTree : ℕ → ℕ → Option ℤ → Option ℤ → BTreeNode → Type 0
IsTree t zero lo hi (node ks cs leaf) = (leaf ≡ true) × (cs ≡ end) × InOrder lo ks hi
IsTree t (suc h) lo hi (node ks cs leaf) =
    (leaf ≡ false)
    × Between
        (λ l u c.
          IsTree t h l u c × (length (keys_of c) ≤ 2 * t - 1) × (t ≤ length (keys_of c) + 1))
        lo ks cs hi

-- A tree below a node.
abbrev pub IsSubtree : ℕ → ℕ → Option ℤ → Option ℤ → BTreeNode → Type 0
IsSubtree t h lo hi c =
    IsTree t h lo hi c × (length (keys_of c) ≤ 2 * t - 1) × (t ≤ length (keys_of c) + 1)
