-- ===== src/BTree/Splits.antt =====
-- 21-B-Tree/main.go: the halves of a full node.
use design_with_ts_go.Base.{
  ℕ, zero, suc, ◌+◌, ◌-◌, ◌*◌, ◌≤◌, ◌≡◌, refl, sym, ap, ◌↔◌, ◌⊎◌, true, false, Option, some, List,
  [], ◌∷◌, arith, ==_iff, leb, length, get_elem?, nat_key, string_key, get_elem?-lt, ℤ, int_key,
}
use mathlib.Core.Option.{some-injective}
use design_with_ts_go.BTree.{
  BTreeNode, Nodes, node, end, cons, keys_of, count, take, drop, take_children, drop_children,
  left_half, right_half, median, is_full,
}
use design_with_ts_go.BTree.Bounds.{LoLe, LeHi, InOrder, LoLe-trans}
use design_with_ts_go.BTree.Shape.{Between, IsTree, IsSubtree}
use design_with_ts_go.BTree.Members.{Holds, Among_cut, HoldsAny_cut}

length-take : {A : Type 0} (n : ℕ) (xs : List A) → n ≤ length xs → length (take n xs) ≡ n
length-take zero xs h = refl
length-take (suc n) [] h = absurd (omega arith)
length-take (suc n) (x ∷ xs) h = ap suc (length-take n xs (omega arith))

length-drop : {A : Type 0} (n : ℕ) (xs : List A) → length (drop n xs) ≡ length xs - n
length-drop zero xs = omega arith
length-drop (suc n) [] = omega arith
length-drop (suc n) (x ∷ xs) = omega (arith, length-drop n xs)

halves-InOrder :
    (lo : Option ℤ) (ks : List ℤ) (hi : Option ℤ) (i : ℕ) (m : ℤ)
    → get_elem? ks i ≡ some m
    → InOrder lo ks hi
    → InOrder lo (take i ks) (some m)
      × InOrder (some m) (drop (suc i) ks) hi
      × LoLe lo m
      × LeHi m hi
halves-InOrder lo [] hi i m e h = cc
halves-InOrder lo (k ∷ ks) hi zero m e h = rw (sym (some-injective k m e)) (tt, h.2, h.0, h.1)
halves-InOrder lo (k ∷ ks) hi (suc i) m e h =
    let (left, right, low, high) = halves-InOrder (some k) ks hi i m e h.2 in
    ((h.0, low, left), right, LoLe-trans lo k m h.0 low, high)

module _ (P : Option ℤ → Option ℤ → BTreeNode → Type 0) where
  Between_cut :
      (lo : Option ℤ) (ks : List ℤ) (cs : Nodes) (hi : Option ℤ) (i : ℕ) (m : ℤ)
      → get_elem? ks i ≡ some m
      → Between P lo ks cs hi
      → Between P lo (take i ks) (take_children (suc i) cs) (some m)
        × Between P (some m) (drop (suc i) ks) (drop_children (suc i) cs) hi
        × LoLe lo m
        × LeHi m hi
  Between_cut lo [] cs hi i m e h = cc
  Between_cut lo (k ∷ ks) end hi i m e h = absurd h
  Between_cut lo (k ∷ ks) (cons c cs) hi zero m e h =
      rw (sym (some-injective k m e)) (h.2, h.3, h.0, h.1)
  Between_cut lo (k ∷ ks) (cons c cs) hi (suc i) m e h =
      let (left, right, low, high) = Between_cut (some k) ks cs hi i m e h.3 in
      ((h.0, low, h.2, left), right, LoLe-trans lo k m h.0 low, high)

  Between-count :
      (lo : Option ℤ) (ks : List ℤ) (cs : Nodes) (hi : Option ℤ)
      → Between P lo ks cs hi
      → count cs ≡ length ks + 1
  Between-count lo [] end hi h = absurd h
  Between-count lo (k ∷ ks) end hi h = absurd h
  Between-count lo [] (cons c end) hi h = refl
  Between-count lo [] (cons c (cons d cs)) hi h = absurd h
  Between-count lo (k ∷ ks) (cons c cs) hi h = omega (arith, Between-count (some k) ks cs hi h.3)

-- A full node has a median key, and its halves are trees on both sides of it.
pub record IsSplit (t h : ℕ) (lo hi : Option ℤ) (full : BTreeNode) : Type 0 where
  pub middle : ℤ
  pub at : median t full ≡ some middle
  pub low : LoLe lo middle
  pub high : LeHi middle hi
  pub left : IsTree t h lo (some middle) (left_half t full)
  pub right : IsTree t h (some middle) hi (right_half t full)
  pub left_size : length (keys_of (left_half t full)) + 1 ≡ t
  pub right_size : length (keys_of (right_half t full)) + 1 ≡ t
  pub same :
      (x : ℤ)
      → Holds x full ↔ (Holds x (left_half t full) ⊎ ((middle ≡ x) ⊎ Holds x (right_half t full)))

full_length : (t : ℕ) (n : BTreeNode) → is_full t n ≡ true → length (keys_of n) ≡ 2 * t - 1
full_length t n e = (==_iff (length (keys_of n)) (2 * t - 1)).0 e

leaf-IsSplit :
    (i : ℕ) (lo hi : Option ℤ) (ks : List ℤ) (m : ℤ)
    → get_elem? ks i ≡ some m
    → length ks ≡ 2 * suc i - 1
    → InOrder lo ks hi
    → IsSplit (suc i) zero lo hi (node ks end true)
unfolding IsTree Holds
leaf-IsSplit i lo hi ks m at size h =
    let one : suc i - 1 ≡ i = omega arith in
    let (left, right, low, high) = halves-InOrder lo ks hi i m at h in
    record {
      middle = m;
      at = rw one at;
      low = low;
      high = high;
      left = (refl, refl, rw one left);
      right = (refl, refl, right);
      left_size = rw one (omega (arith, length-take i ks (omega arith)));
      right_size = omega (arith, length-drop (suc i) ks);
      same = λ x. rw one (ground (arith, Among_cut x ks i m at));
    }

inner-IsSplit :
    (i h : ℕ) (lo hi : Option ℤ) (ks : List ℤ) (cs : Nodes) (m : ℤ)
    → get_elem? ks i ≡ some m
    → length ks ≡ 2 * suc i - 1
    → Between (IsSubtree (suc i) h) lo ks cs hi
    → IsSplit (suc i) (suc h) lo hi (node ks cs false)
unfolding IsTree Holds
inner-IsSplit i h lo hi ks cs m at size b =
    let one : suc i - 1 ≡ i = omega arith in
    let (left, right, low, high) = Between_cut (IsSubtree (suc i) h) lo ks cs hi i m at b in
    let enough : leb (suc i) (count cs) ≡ true =
      ground (arith, Between-count (IsSubtree (suc i) h) lo ks cs hi b) in
    record {
      middle = m;
      at = rw (enough, one) at;
      low = low;
      high = high;
      left = (refl, rw one left);
      right = (refl, right);
      left_size = rw one (omega (arith, length-take i ks (omega arith)));
      right_size = omega (arith, length-drop (suc i) ks);
      same = λ x. rw one (ground (arith, Among_cut x ks i m at, HoldsAny_cut x cs (suc i)));
    }

pub full-IsSplit :
    (t h : ℕ) (lo hi : Option ℤ) (full : BTreeNode)
    → 1 ≤ t
    → is_full t full ≡ true
    → IsTree t h lo hi full
    → IsSplit t h lo hi full
unfolding IsTree
full-IsSplit zero h lo hi full p f tree = absurd (omega arith)
full-IsSplit (suc i) zero lo hi (node ks cs leaf) p f tree =
    let size = full_length (suc i) (node ks cs leaf) f in
    let (m, at) = get_elem?-lt ks i (omega arith) in
    rw (tree.0, tree.1) (leaf-IsSplit i lo hi ks m at size tree.2)
full-IsSplit (suc i) (suc h) lo hi (node ks cs leaf) p f tree =
    let size = full_length (suc i) (node ks cs leaf) f in
    let (m, at) = get_elem?-lt ks i (omega arith) in
    rw tree.0 (inner-IsSplit i h lo hi ks cs m at size tree.1)
