-- ===== src/BTree/Members.antt =====
-- 21-B-Tree/main.go: the keys that a tree holds.
use mathlib.Core.Option.{some-injective}
use design_with_ts_go.Base.{
  ℕ, zero, suc, ◌≡◌, ◌↔◌, ◌⊎◌, inl, inr, some, List, [], ◌∷◌, arith, get_elem?, nat_key, string_key,
  ℤ, int_key, Among,
}
use design_with_ts_go.BTree.{
  BTreeNode, Nodes, node, end, cons, child_at, set_child, insert_child, take, drop, take_children,
  drop_children,
}

unfoldable mutual
  pub Holds : ℤ → BTreeNode → Type 0
  Holds x (node ks cs leaf) = Among x ks ⊎ HoldsAny x cs

  pub HoldsAny : ℤ → Nodes → Type 0
  HoldsAny x end = ⊥
  HoldsAny x (cons c cs) = Holds x c ⊎ HoldsAny x cs

-- Some child but the one at the index holds the key.
abbrev pub Others : ℤ → Nodes → ℕ → Type 0
Others x end i = ⊥
Others x (cons c cs) zero = HoldsAny x cs
Others x (cons c cs) (suc i) = Holds x c ⊎ Others x cs i

pub HoldsAny-Others :
    (x : ℤ) (cs : Nodes) (i : ℕ) (c : BTreeNode)
    → child_at cs i ≡ some c
    → HoldsAny x cs ↔ (Holds x c ⊎ Others x cs i)
unfolding Holds
HoldsAny-Others x end i c e = cc
HoldsAny-Others x (cons d cs) zero c e = rw (some-injective d c e) (λ h. h, λ h. h)
HoldsAny-Others x (cons d cs) (suc i) c e = ground (arith, HoldsAny-Others x cs i c e)

pub HoldsAny-set_child :
    (x : ℤ) (cs : Nodes) (i : ℕ) (c m : BTreeNode)
    → child_at cs i ≡ some c
    → HoldsAny x (set_child cs i m) ↔ (Holds x m ⊎ Others x cs i)
unfolding Holds
HoldsAny-set_child x end i c m e = cc
HoldsAny-set_child x (cons d cs) zero c m e = (λ h. h, λ h. h)
HoldsAny-set_child x (cons d cs) (suc i) c m e = ground (arith, HoldsAny-set_child x cs i c m e)

pub HoldsAny-insert_child :
    (x : ℤ) (cs : Nodes) (i : ℕ) (m : BTreeNode)
    → HoldsAny x (insert_child cs i m) ↔ (Holds x m ⊎ HoldsAny x cs)
unfolding Holds
HoldsAny-insert_child x end zero m = (λ h. h, λ h. h)
HoldsAny-insert_child x (cons c cs) zero m = (λ h. h, λ h. h)
HoldsAny-insert_child x end (suc i) m = (λ h. h, λ h. h)
HoldsAny-insert_child x (cons c cs) (suc i) m = ground (arith, HoldsAny-insert_child x cs i m)

-- A list that is cut at an element, and children that are cut.
pub Among_cut :
    (x : ℤ) (ks : List ℤ) (i : ℕ) (m : ℤ)
    → get_elem? ks i ≡ some m
    → Among x ks ↔ (Among x (take i ks) ⊎ ((m ≡ x) ⊎ Among x (drop (suc i) ks)))
Among_cut x [] i m e = cc
Among_cut x (k ∷ ks) zero m e =
    rw (some-injective k m e) (λ h. inr h, λ h. elim h [ inl z ↦ absurd z | inr r ↦ r ])
Among_cut x (k ∷ ks) (suc i) m e = ground (arith, Among_cut x ks i m e)

pub HoldsAny_cut :
    (x : ℤ) (cs : Nodes) (n : ℕ)
    → HoldsAny x cs ↔ (HoldsAny x (take_children n cs) ⊎ HoldsAny x (drop_children n cs))
unfolding Holds
HoldsAny_cut x cs zero = (λ h. inr h, λ h. elim h [ inl z ↦ absurd z | inr r ↦ r ])
HoldsAny_cut x end (suc n) = ground arith
HoldsAny_cut x (cons c cs) (suc n) = ground (arith, HoldsAny_cut x cs n)
