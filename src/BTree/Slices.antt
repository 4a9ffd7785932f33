-- ===== src/BTree/Slices.antt =====
-- 21-B-Tree/main.go: the nodes, and slices of keys and of children.
use design_with_ts_go.Base.{
  ℕ, zero, suc, Bool, Option, none, some, List, [], ◌∷◌, nat_key, string_key, keys, ℤ, int_key,
}

mutual
  pub data BTreeNode : Type 0 where
    node : List ℤ → Nodes → Bool → BTreeNode

  -- `[]*BTreeNode`
  pub data Nodes : Type 0 where
    end : Nodes
    cons : BTreeNode → Nodes → Nodes

abbrev pub keys_of : BTreeNode → List ℤ
keys_of (node keys children leaf) = keys

abbrev pub children_of : BTreeNode → Nodes
children_of (node keys children leaf) = children

-- A slice with one more element, after the `copy` that makes room at an index.
abbrev pub insert_at {ℓ} : {A : Type ℓ} → List A → ℕ → A → List A
insert_at xs zero x = x ∷ xs
insert_at [] (suc i) x = x ∷ []
insert_at (y ∷ xs) (suc i) x = y ∷ insert_at xs i x

abbrev pub take {ℓ} : {A : Type ℓ} → ℕ → List A → List A
take zero xs = []
take (suc n) [] = []
take (suc n) (x ∷ xs) = x ∷ take n xs

abbrev pub drop {ℓ} : {A : Type ℓ} → ℕ → List A → List A
drop zero xs = xs
drop (suc n) [] = []
drop (suc n) (x ∷ xs) = drop n xs

abbrev pub child_at : Nodes → ℕ → Option BTreeNode
child_at end i = none
child_at (cons n children) zero = some n
child_at (cons n children) (suc i) = child_at children i

abbrev pub set_child : Nodes → ℕ → BTreeNode → Nodes
set_child end i m = end
set_child (cons n children) zero m = cons m children
set_child (cons n children) (suc i) m = cons n (set_child children i m)

abbrev pub insert_child : Nodes → ℕ → BTreeNode → Nodes
insert_child children zero m = cons m children
insert_child end (suc i) m = cons m end
insert_child (cons n children) (suc i) m = cons n (insert_child children i m)

abbrev pub take_children : ℕ → Nodes → Nodes
take_children zero children = end
take_children (suc n) end = end
take_children (suc n) (cons m children) = cons m (take_children n children)

abbrev pub drop_children : ℕ → Nodes → Nodes
drop_children zero children = children
drop_children (suc n) end = end
drop_children (suc n) (cons m children) = drop_children n children

abbrev pub count : Nodes → ℕ
count end = 0
count (cons n children) = suc (count children)
