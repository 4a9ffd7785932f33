-- ===== src/BTree/Choices.antt =====
-- 21-B-Tree/main.go: the child into which an insertion goes, after the split of a full one.
use design_with_ts_go.Base.{
  ℕ, zero, suc, ◌≤◌, ◌≡◌, refl, ap, true, false, Option, some, List, [], ◌∷◌, arith, if◌then◌else◌,
  length, get_elem?, nat_key, string_key, ℤ, ltb_ℤ, int_key,
}
use design_with_ts_go.BTree.{
  put_child, BTreeNode, Nodes, node, end, cons, child_at, set_child, insert_child, insert_at,
  left_half, right_half, median, is_full, split_child, choose, insert_below,
}

pub child_at-left :
    (cs : Nodes) (i : ℕ) (c a b : BTreeNode)
    → child_at cs i ≡ some c
    → child_at (insert_child (set_child cs i a) (suc i) b) i ≡ some a
child_at-left end i c a b e = cc
child_at-left (cons d cs) zero c a b e = refl
child_at-left (cons d cs) (suc i) c a b e = child_at-left cs i c a b e

pub child_at-right :
    (cs : Nodes) (i : ℕ) (c a b : BTreeNode)
    → child_at cs i ≡ some c
    → child_at (insert_child (set_child cs i a) (suc i) b) (suc i) ≡ some b
child_at-right end i c a b e = cc
child_at-right (cons d cs) zero c a b e = first_child cs
  where
    first_child : (rest : Nodes) → child_at (insert_child rest 0 b) 0 ≡ some b
    first_child rest = refl
child_at-right (cons d cs) (suc i) c a b e = child_at-right cs i c a b e

pub set_child-left :
    (cs : Nodes) (i : ℕ) (c a b m : BTreeNode)
    → child_at cs i ≡ some c
    → set_child (insert_child (set_child cs i a) (suc i) b) i m
      ≡ insert_child (set_child cs i m) (suc i) b
set_child-left end i c a b m e = cc
set_child-left (cons d cs) zero c a b m e = refl
set_child-left (cons d cs) (suc i) c a b m e = ap (cons d) (set_child-left cs i c a b m e)

pub set_child-right :
    (cs : Nodes) (i : ℕ) (c a b m : BTreeNode)
    → child_at cs i ≡ some c
    → set_child (insert_child (set_child cs i a) (suc i) b) (suc i) m
      ≡ insert_child (set_child cs i a) (suc i) m
set_child-right end i c a b m e = cc
set_child-right (cons d cs) zero c a b m e = refl
set_child-right (cons d cs) (suc i) c a b m e = ap (cons d) (set_child-right cs i c a b m e)

pub get_elem?-insert_at :
    (ks : List ℤ) (i : ℕ) (m : ℤ) → i ≤ length ks → get_elem? (insert_at ks i m) i ≡ some m
get_elem?-insert_at ks zero m h = refl
get_elem?-insert_at [] (suc i) m h = absurd (omega arith)
get_elem?-insert_at (k ∷ ks) (suc i) m h = get_elem?-insert_at ks i m (omega arith)

-- The node with the halves of one child in its place.
abbrev pub halved : ℕ → List ℤ → Nodes → ℕ → ℤ → BTreeNode → BTreeNode
halved t ks cs i m c =
    node (insert_at ks i m) (insert_child (set_child cs i (left_half t c)) (suc i) (right_half t c))
      false

pub split_child_lem :
    (t : ℕ) (ks : List ℤ) (cs : Nodes) (i : ℕ) (m : ℤ) (c : BTreeNode)
    → child_at cs i ≡ some c
    → median t c ≡ some m
    → split_child t (node ks cs false) i ≡ some (halved t ks cs i m c)
unfolding split_child
split_child_lem t ks cs i m c at middle = rw (at, middle) refl

pub choose_small :
    (t : ℕ) (ks : List ℤ) (cs : Nodes) (i : ℕ) (key : ℤ) (c : BTreeNode)
    → child_at cs i ≡ some c
    → is_full t c ≡ false
    → choose t (node ks cs false) key i ≡ some (node ks cs false, i)
unfolding choose
choose_small t ks cs i key c at small = rw (at, small) refl

pub choose_full :
    (t : ℕ) (ks : List ℤ) (cs : Nodes) (i : ℕ) (key m : ℤ) (c : BTreeNode)
    → child_at cs i ≡ some c
    → is_full t c ≡ true
    → median t c ≡ some m
    → i ≤ length ks
    → choose t (node ks cs false) key i
      ≡ some (halved t ks cs i m c, if ltb_ℤ m key then suc i else i)
unfolding choose
choose_full t ks cs i key m c at full middle inside =
    rw (at, full, split_child_lem t ks cs i m c at middle, get_elem?-insert_at ks i m inside) refl

-- The insertion into the chosen child.
pub insert_below_lem :
    (more : BTreeNode → Option BTreeNode) (ks : List ℤ) (cs : Nodes) (i : ℕ) (c m : BTreeNode)
    → child_at cs i ≡ some c
    → more c ≡ some m
    → insert_below more (some (node ks cs false, i)) ≡ some (node ks (set_child cs i m) false)
insert_below_lem more ks cs i c m at e = rw at (ap (put_child (node ks cs false) i) e)
