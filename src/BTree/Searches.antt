-- ===== src/BTree/Searches.antt =====
-- 21-B-Tree/main.go: what a search finds.
use design_with_ts_go.BTree.Shape.{Between}
use design_with_ts_go.BTree.Members.{Holds, HoldsAny}
use design_with_ts_go.Base.{
  ◌+◌, ◌<◌, ◌≡◌, refl, sym, ◌∙◌, ◌≢◌, ◌↔◌, ◌⊎◌, inl, inr, ite, if_pos, if_neg, Bool, true, false,
  Option, some, List, [], ◌∷◌, arith, ltb→lt, Bool-cases, get_elem?, nat_key, string_key, ℤ,
  pos_part, neg_part, ◌≤ℤ◌, ltb_ℤ, ℤ-discrete, int_key, Among, ℤ_ext, ℤ_ext, ℤ_ext, ℤ_ext,
}
use mathlib.Core.Path.{subst}
use design_with_ts_go.BTree.{
  end, cons, search_child, search_btree, Nodes, cons, search_child, Nodes, search_btree, BTreeNode,
  first_from, is_at,
}
use design_with_ts_go.BTree.Bounds.{
  LeHi-trans, LoLe-trans, LeHi, LoLe, InOrder, Among-LoLe, le_of_not,
}

-- The search answers, and answers whether the key is there.
abbrev pub Answers : Option Bool → Type 0 → Type 0
Answers result There = (found : Bool) × (result ≡ some found) × ((found ≡ true) ↔ There)

equal_of_not : (a b : ℤ) → ltb_ℤ a b ≡ false → ltb_ℤ b a ≡ false → a ≡ b
equal_of_not a b p q = ℤ_ext a b (omega (arith, le_of_not a b p, le_of_not b a q))

strict_of_ltb : (a b : ℤ) → ltb_ℤ a b ≡ true → pos_part a + neg_part b < pos_part b + neg_part a
strict_of_ltb a b e = ltb→lt (pos_part a + neg_part b) (pos_part b + neg_part a) e

-- A key equal to another is not below it.
not_above : (a b : ℤ) → ltb_ℤ a b ≡ true → a ≢ b
not_above a b e same = irreflexive b (subst (λ k. ltb_ℤ k b ≡ true) same e)
  where
    irreflexive : (k : ℤ) → ¬ (ltb_ℤ k k ≡ true)
    irreflexive k e = absurd (omega (arith, strict_of_ltb k k e))

-- The keys of a leaf.
pub leaf_keys :
    (lo : Option ℤ) (ks : List ℤ) (hi : Option ℤ) (x : ℤ)
    → InOrder lo ks hi
    → (is_at (get_elem? ks (first_from ks x)) x ≡ true) ↔ Among x ks
leaf_keys lo [] hi x h = (λ e. cc, λ m. absurd m)
leaf_keys lo (k ∷ ks) hi x h = elim (Bool-cases (ltb_ℤ k x)) [
  | inl below ↦
      let differs = not_above k x below in
      rw below (ground (arith, leaf_keys (some k) ks hi x h.2, differs))
  | inr here ↦ rw here (
    (λ e. inl (at_here k x e)),
    λ m. elim m [
      | inl e ↦ if_pos (ℤ-discrete k x) e true false
      | inr later ↦
          let least = (Among-LoLe (some k) ks hi x h.2 later).0 in
          let most = le_of_not k x here in
          if_pos (ℤ-discrete k x) (ℤ_ext k x (omega arith)) true false
    ],
  )
]
  where
    at_here : (j y : ℤ) → ite (ℤ-discrete j y) true false ≡ true → j ≡ y
    at_here j y e = elim (ℤ-discrete j y) [
      | yes p ↦ p
      | no p ↦ absurd (cc (sym (if_neg (ℤ-discrete j y) p true false) ∙ e))
    ]

module _ (P : Option ℤ → Option ℤ → BTreeNode → Type 0) (x : ℤ)
    (inside : (lo hi : Option ℤ) (c : BTreeNode)
      → P lo hi c
      → Holds x c
      → LoLe lo x × LeHi x hi) where
  pub Between_inside :
      (lo : Option ℤ) (ks : List ℤ) (cs : Nodes) (hi : Option ℤ)
      → Between P lo ks cs hi
      → Among x ks ⊎ HoldsAny x cs
      → LoLe lo x × LeHi x hi
  unfolding Holds
  Between_inside lo [] end hi h m = absurd h
  Between_inside lo (k ∷ ks) end hi h m = absurd h
  Between_inside lo [] (cons c (cons d cs)) hi h m = absurd h
  Between_inside lo [] (cons c end) hi h (inl m) = absurd m
  Between_inside lo [] (cons c end) hi h (inr (inl held)) = inside lo hi c h held
  Between_inside lo [] (cons c end) hi h (inr (inr z)) = absurd z
  Between_inside lo (k ∷ ks) (cons c cs) hi h (inl (inl e)) = rw (sym e) (h.0, h.1)
  Between_inside lo (k ∷ ks) (cons c cs) hi h (inl (inr m)) =
      let (low, high) = Between_inside (some k) ks cs hi h.3 (inl m) in
      (LoLe-trans lo k x h.0 low, high)
  Between_inside lo (k ∷ ks) (cons c cs) hi h (inr (inl held)) =
      let (low, high) = inside lo (some k) c h.2 held in (low, LeHi-trans x k hi high h.1)
  Between_inside lo (k ∷ ks) (cons c cs) hi h (inr (inr m)) =
      let (low, high) = Between_inside (some k) ks cs hi h.3 (inr m) in
      (LoLe-trans lo k x h.0 low, high)

  -- The search among the keys, and in the child at the index found there.
  abbrev pub Finds : List ℤ → Nodes → Type 0
  Finds ks cs =
      ((is_at (get_elem? ks (first_from ks x)) x ≡ true) × Among x ks)
      ⊎ ((is_at (get_elem? ks (first_from ks x)) x ≡ false)
          × Answers (search_child cs (first_from ks x) x) (Among x ks ⊎ HoldsAny x cs))

  module _
      (answers : (lo hi : Option ℤ) (c : BTreeNode)
        → P lo hi c
        → Answers (search_btree c x) (Holds x c)) where
    head_Finds :
        (lo : Option ℤ) (k : ℤ) (ks : List ℤ) (c : BTreeNode) (cs : Nodes) (hi : Option ℤ)
        → Between P lo (k ∷ ks) (cons c cs) hi
        → x ≤ℤ k
        → k ≢ x
        → Answers (search_btree c x) (Among x (k ∷ ks) ⊎ HoldsAny x (cons c cs))
    unfolding Holds
    head_Finds lo k ks c cs hi h before differs =
        let (found, run, right) = answers lo (some k) c h.2 in
        let not_later : ¬ (Among x ks ⊎ HoldsAny x cs) =
          λ m. differs (ℤ_ext k x (omega (arith, (Between_inside (some k) ks cs hi h.3 m).0))) in
        (found, run, ground (arith, right, not_later, differs))

    later :
        (k : ℤ) (ks : List ℤ) (c : BTreeNode) (cs : Nodes)
        → k ≢ x
        → ¬ Holds x c
        → Finds ks cs
        → ((is_at (get_elem? ks (first_from ks x)) x ≡ true) × Among x (k ∷ ks))
          ⊎ ((is_at (get_elem? ks (first_from ks x)) x ≡ false)
              × Answers
                  (search_child cs (first_from ks x) x)
                  (Among x (k ∷ ks) ⊎ HoldsAny x (cons c cs)))
    unfolding Holds
    later k ks c cs differs not_first (inl (at, m)) = inl (at, inr m)
    later k ks c cs differs not_first (inr (at, (found, run, right))) =
        inr (at, (found, run, ground (arith, right, differs, not_first)))

    pub Between-Finds :
        (lo : Option ℤ) (ks : List ℤ) (cs : Nodes) (hi : Option ℤ)
        → Between P lo ks cs hi
        → Finds ks cs
    unfolding Holds search_btree
    Between-Finds lo [] end hi h = absurd h
    Between-Finds lo (k ∷ ks) end hi h = absurd h
    Between-Finds lo [] (cons c (cons d cs)) hi h = absurd h
    Between-Finds lo [] (cons c end) hi h =
        let (found, run, right) = answers lo hi c h in
        inr (refl, (found, run, ground (arith, right)))
    Between-Finds lo (k ∷ ks) (cons c cs) hi h = elim (Bool-cases (ltb_ℤ k x)) [
      | inl below ↦
          let differs = not_above k x below in
          let not_first : ¬ Holds x c = λ held. differs (
            ℤ_ext k x
              (omega (arith, strict_of_ltb k x below, (inside lo (some k) c h.2 held).1))) in
          rw below (later k ks c cs differs not_first (Between-Finds (some k) ks cs hi h.3))
      | inr here ↦ rw here (elim (ℤ-discrete k x) [
        | yes e ↦ inl (if_pos (ℤ-discrete k x) e true false, inl e)
        | no differs ↦ inr (
          if_neg (ℤ-discrete k x) differs true false,
          head_Finds lo k ks c cs hi h (le_of_not k x here) differs,
        )
      ])
    ]
