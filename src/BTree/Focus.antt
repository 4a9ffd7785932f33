-- ===== src/BTree/Focus.antt =====
-- 21-B-Tree/main.go: the child below which a key belongs.
use design_with_ts_go.Base.{
  ℕ, suc, ◌≡◌, refl, ◌≢◌, inl, inr, Option, some, List, [], ◌∷◌, arith, ℕ_discrete, Bool-cases,
  nat_key, string_key, ℤ, ◌≤ℤ◌, ltb_ℤ, int_key,
}
use design_with_ts_go.BTree.{
  BTreeNode, Nodes, end, cons, child_at, set_child, insert_child, insert_at,
}
use design_with_ts_go.BTree.Bounds.{LeHi-trans, LoLe, LeHi, LoLe-trans, le_of_ltb, le_of_not}
use design_with_ts_go.BTree.Keys.{position}
use design_with_ts_go.BTree.Shape.{Between}

module _ (P : Option ℤ → Option ℤ → BTreeNode → Type 0) where
  -- The child at an index, with its bounds, and what may stand in its place: another child, or two
  -- with a key between them.
  pub record IsFocus (lo : Option ℤ) (ks : List ℤ) (cs : Nodes) (hi : Option ℤ) (i : ℕ) (key : ℤ)
      : Type 0 where
    pub low : Option ℤ
    pub high : Option ℤ
    pub child : BTreeNode
    pub at : child_at cs i ≡ some child
    pub fits : P low high child
    pub from : LoLe low key
    pub to : LeHi key high
    pub put : (m : BTreeNode) → P low high m → Between P lo ks (set_child cs i m) hi
    pub split :
        (k : ℤ) (a b : BTreeNode)
        → LoLe low k
        → LeHi k high
        → P low (some k) a
        → P (some k) high b
        → Between P lo (insert_at ks i k) (insert_child (set_child cs i a) (suc i) b) hi

  first_child-IsFocus :
      (lo : Option ℤ) (k : ℤ) (ks : List ℤ) (c : BTreeNode) (cs : Nodes) (hi : Option ℤ) (key : ℤ)
      → Between P lo (k ∷ ks) (cons c cs) hi
      → LoLe lo key
      → key ≤ℤ k
      → IsFocus lo (k ∷ ks) (cons c cs) hi 0 key
  first_child-IsFocus lo k ks c cs hi key h low before = record {
    low = lo;
    high = some k;
    child = c;
    at = refl;
    fits = h.2;
    from = low;
    to = before;
    put = λ m p. (h.0, h.1, p, h.3);
    split = λ j a b p q l r. (p, LeHi-trans j k hi q h.1, l, (q, h.1, r, h.3));
  }

  later_child-IsFocus :
      (lo : Option ℤ) (k : ℤ) (ks : List ℤ) (c : BTreeNode) (cs : Nodes) (hi : Option ℤ) (key : ℤ)
      (i : ℕ)
      → Between P lo (k ∷ ks) (cons c cs) hi
      → IsFocus (some k) ks cs hi i key
      → IsFocus lo (k ∷ ks) (cons c cs) hi (suc i) key
  later_child-IsFocus lo k ks c cs hi key i h f = record {
    low = f.low;
    high = f.high;
    child = f.child;
    at = f.at;
    fits = f.fits;
    from = f.from;
    to = f.to;
    put = λ m p. (h.0, h.1, h.2, f.put m p);
    split = λ j a b p q l r. (h.0, h.1, h.2, f.split j a b p q l r);
  }

  -- Keys from a bound on: where the position is not the first, the bound is at most the key.
  position_after :
      (lo : Option ℤ) (ks : List ℤ) (cs : Nodes) (hi : Option ℤ) (key : ℤ)
      → Between P lo ks cs hi
      → position ks key ≢ 0
      → LoLe lo key
  position_after lo [] cs hi key h ne = absurd (ne refl)
  position_after lo (k ∷ ks) end hi key h ne = absurd h
  position_after lo (k ∷ ks) (cons c cs) hi key h ne = elim (ℕ_discrete (position ks key) 0) [
    | no later ↦ LoLe-trans lo k key h.0 (position_after (some k) ks cs hi key h.3 later)
    | yes first ↦ elim (Bool-cases (ltb_ℤ key k)) [
      | inl before ↦ absurd (ne (rw (first, before) refl))
      | inr after ↦ LoLe-trans lo k key h.0 (le_of_not key k after)
    ]
  ]

  pub position-IsFocus :
      (lo : Option ℤ) (ks : List ℤ) (cs : Nodes) (hi : Option ℤ) (key : ℤ)
      → Between P lo ks cs hi
      → LoLe lo key
      → LeHi key hi
      → IsFocus lo ks cs hi (position ks key) key
  position-IsFocus lo [] end hi key h low high = absurd h
  position-IsFocus lo (k ∷ ks) end hi key h low high = absurd h
  position-IsFocus lo [] (cons c (cons d cs)) hi key h low high = absurd h
  position-IsFocus lo [] (cons c end) hi key h low high = record {
    low = lo;
    high = hi;
    child = c;
    at = refl;
    fits = h;
    from = low;
    to = high;
    put = λ m p. p;
    split = λ j a b p q l r. (p, q, l, r);
  }
  position-IsFocus lo (k ∷ ks) (cons c cs) hi key h low high =
      elim (ℕ_discrete (position ks key) 0) [
        | no later ↦
            let here : position (k ∷ ks) key ≡ suc (position ks key) = ground arith in
            rw here (
              later_child-IsFocus lo k ks c cs hi key (position ks key) h (
                position-IsFocus (some k) ks cs hi key h.3
                  (position_after (some k) ks cs hi key h.3 later) high))
        | yes first ↦ elim (Bool-cases (ltb_ℤ key k)) [
          | inl before ↦
              let here : position (k ∷ ks) key ≡ 0 = rw (first, before) refl in
              rw here (first_child-IsFocus lo k ks c cs hi key h low (le_of_ltb key k before))
          | inr after ↦
              let here : position (k ∷ ks) key ≡ suc (position ks key) = rw (first, after) refl in
              rw here (
                later_child-IsFocus lo k ks c cs hi key (position ks key) h
                  (position-IsFocus (some k) ks cs hi key h.3 (le_of_not key k after) high))
        ]
      ]
