-- ===== src/BTree.antt =====
-- 21-B-Tree/main.go: search and insertion. A node owns its children, which no other pointer reaches,
-- so that a tree of values stands for the tree of pointers. `none` is a panic at an index that is
-- out of range, and in an insertion also the end of the fuel, which bounds the depth.
mod Slices
mod Keys
mod Bounds
mod Searches
mod Shape
mod Members
mod Focus
mod Splits
mod Choices
mod Insertions
mod Growth
mod Runs
mod Tests
use design_with_ts_go.Base.{
  ℕ, zero, suc, ◌+◌, ◌-◌, ◌*◌, ◌/◌, ◌%◌, ◌^◌, ◌≤◌, ◌<◌, max, min, ◌≡◌, refl, sym, ap, ◌∙◌, ◌≢◌, ◌↔◌,
  ◌⊎◌, inl, inr, ite, if_pos, if_neg, Bool, true, false, not, ◌&&◌, ◌||◌, Option, none, some, List,
  [], ◌∷◌, ◌++◌, arith, ℕ_discrete, ==_iff, ltb, ltb→lt, lt→ltb, leb, ◌==◌, if◌then◌else◌,
  Bool-cases, Option-cases, length, get_elem?, set, replicate, length-append, length-set,
  length-replicate, All, get_or, is_some, Key, nat_key, same_key, Map, IsMap, lookup, assign,
  delete, lookup-assign, lookup-delete, assign-IsMap, delete-IsMap, length-assign, GoString, str,
  GoString-discrete, string_key, fnv1a_from, fnv1a_from-lt, fnv1a, assign_all, or_else, map_some,
  map_some_ne, Entries, map_values, Entries_map, length-map_values, lookup-map_values,
  map_values-IsMap, Entries-assign, Entries-lookup, Entries_weaken, Entries-assign_ne, ite-elim,
  if-elim, keys, All-keys, lookup-All-keys, IsOrder, sort, IsSorted, All-insert, All-sort, sort-All,
  sort-IsSorted, leb_string, leb_string-IsOrder, is_newer, newer, merge_newer, lookup-merge_newer,
  merge_newer-IsMap, get_elem?-lt, get_elem?-set, All-get, All-map, lookup-assign_all,
  assign_all-IsMap, ◌+ℤ◌, total, total-assign, total_ext, ℤ, pos, negsuc, pos_part, neg_part, sub_ℕ,
  ◌≤ℤ◌, leb_ℤ, ltb_ℤ, ℤ-discrete, int_key, count_of, raise_all, count_of-raise_all, raise_all-IsMap,
  add_parts, shifted, bit_or-shifted, mask, bit_and-mask, Among, Among-append, add_zero, add_assoc,
  zero_add, ℤ_ext, ℤ_ext, ℤ_ext, ℤ_ext,
}
unfoldable pub use Slices.*

pub record BTree : Type 0 where
  pub root : BTreeNode
  pub min_degree : ℕ

-- `none` is the exit on a degree below 2.
unfoldable pub new : ℤ → Option BTree
new min_degree =
    if ltb_ℤ min_degree (pos 2)
    then none
    else some (record { root = node [] end true; min_degree = pos_part min_degree })

-- The first loop of `searchBTree`: the index of the first key that is not below `key`.
abbrev pub first_from : List ℤ → ℤ → ℕ
first_from [] key = 0
first_from (k ∷ keys) key = if ltb_ℤ k key then suc (first_from keys key) else 0

-- `i < len(node.keys) && key == node.keys[i]`
abbrev pub is_at : Option ℤ → ℤ → Bool
is_at none key = false
is_at (some k) key = ite (ℤ-discrete k key) true false

unfoldable mutual
  pub search_btree : BTreeNode → ℤ → Option Bool
  search_btree (node keys children leaf) key =
      let below = search_child children (first_from keys key) key in
      if is_at (get_elem? keys (first_from keys key)) key
      then some true
      else if leaf
      then some false
      else below

  -- `searchBTree(node.children[i], key)`
  pub search_child : Nodes → ℕ → ℤ → Option Bool
  search_child end i key = none
  search_child (cons n children) zero key = search_btree n key
  search_child (cons n children) (suc i) key = search_child children i key

unfoldable pub search : BTree → ℤ → Option Bool
unfolding search_btree
search t key = search_btree t.root key

-- The loops of `insertNonFull` from `i = count - 1` down, while the key is below; the result is
-- `i + 1`.
abbrev pub is_below : ℤ → Option ℤ → Bool
is_below key none = false
is_below key (some k) = ltb_ℤ key k

unfoldable pub slide : List ℤ → ℤ → ℕ → ℕ
slide keys key zero = 0
slide keys key (suc i) =
    let rest = slide keys key i in if is_below key (get_elem? keys i) then rest else suc i

-- The two halves of a full node.
abbrev pub left_half : ℕ → BTreeNode → BTreeNode
left_half t (node keys children leaf) =
    node (take (t - 1) keys) (if leaf then children else take_children t children) leaf

abbrev pub right_half : ℕ → BTreeNode → BTreeNode
right_half t (node keys children leaf) =
    node (drop t keys) (if leaf then end else drop_children t children) leaf

-- `children[minDegree:]` is in range.
abbrev pub can_cut : ℕ → BTreeNode → Bool
can_cut t (node keys children leaf) = leaf || leb t (count children)

-- `full.keys[t.minDegree-1]`, and the test that the slices are in range.
abbrev pub median : ℕ → BTreeNode → Option ℤ
median t full = if can_cut t full then get_elem? (keys_of full) (t - 1) else none

abbrev pub split_with : ℕ → BTreeNode → ℕ → BTreeNode → Option ℤ → Option BTreeNode
split_with t parent index full none = none
split_with t (node keys children leaf) index full (some middle) = some (
    node (insert_at keys index middle)
      (insert_child (set_child children index (left_half t full)) (suc index) (right_half t full))
      leaf)

abbrev pub split_of : ℕ → BTreeNode → ℕ → Option BTreeNode → Option BTreeNode
split_of t parent index none = none
split_of t parent index (some full) = split_with t parent index full (median t full)

unfoldable pub split_child : ℕ → BTreeNode → ℕ → Option BTreeNode
split_child t parent index = split_of t parent index (child_at (children_of parent) index)

-- `len(keys) == 2*t.minDegree-1`
abbrev pub is_full : ℕ → BTreeNode → Bool
is_full t n = length (keys_of n) == 2 * t - 1

-- The keys of a leaf after the insertion at `i + 1`, unless `keys[i]` is the key.
unfoldable pub insert_key : List ℤ → ℤ → List ℤ
unfolding slide
insert_key keys key =
    let at = slide keys key (length keys) in
    if not (at == 0) && is_at (get_elem? keys (at - 1)) key then keys else insert_at keys at key

abbrev pub put_child : BTreeNode → ℕ → Option BTreeNode → Option BTreeNode
put_child n i none = none
put_child (node keys children leaf) i (some m) = some (node keys (set_child children i m) leaf)

abbrev pub into_child :
    (BTreeNode → Option BTreeNode) → BTreeNode → ℕ → Option BTreeNode → Option BTreeNode
into_child more parent i none = none
into_child more parent i (some child) = put_child parent i (more child)

-- `t.insertNonFull(node.children[i], key)`, the recursive call an argument.
abbrev pub insert_below : (BTreeNode → Option BTreeNode) → Option (BTreeNode × ℕ) → Option BTreeNode
insert_below more none = none
insert_below more (some (parent, i)) = into_child more parent i (child_at (children_of parent) i)

-- `key > node.keys[i]`
abbrev pub is_above : ℤ → Option ℤ → Bool
is_above key none = false
is_above key (some k) = ltb_ℤ k key

-- After the split: the node, and the index of the half in which the key belongs.
abbrev pub choose_half : ℤ → ℕ → Option BTreeNode → Option (BTreeNode × ℕ)
choose_half key i none = none
choose_half key i (some parent) =
    some (parent, if is_above key (get_elem? (keys_of parent) i) then suc i else i)

abbrev pub choose_child : ℕ → BTreeNode → ℤ → ℕ → Option BTreeNode → Option (BTreeNode × ℕ)
choose_child t n key i none = none
choose_child t n key i (some child) =
    if is_full t child then choose_half key i (split_child t n i) else some (n, i)

unfoldable pub choose : ℕ → BTreeNode → ℤ → ℕ → Option (BTreeNode × ℕ)
unfolding split_child
choose t n key i = choose_child t n key i (child_at (children_of n) i)

unfoldable pub insert_non_full : ℕ → ℕ → BTreeNode → ℤ → Option BTreeNode
unfolding insert_key choose slide
insert_non_full t zero n key = none
insert_non_full t (suc fuel) (node keys children true) key =
    some (node (insert_key keys key) children true)
insert_non_full t (suc fuel) (node keys children false) key =
    insert_below (λ child. insert_non_full t fuel child key)
      (choose t (node keys children false) key (slide keys key (length keys)))

-- The depth of the leaves.
unfoldable mutual
  pub depth : BTreeNode → ℕ
  depth (node keys children leaf) = depth_first children

  pub depth_first : Nodes → ℕ
  depth_first end = 0
  depth_first (cons n children) = suc (depth n)

-- The root, split below a new one when it is full.
unfoldable pub grown : ℕ → BTreeNode → Option BTreeNode
unfolding split_child
grown t root = if is_full t root then split_child t (node [] (cons root end) false) 0 else some root

abbrev pub with_root : BTree → Option BTreeNode → Option BTree
with_root t none = none
with_root t (some root) = some (record t { root = root })

abbrev pub insert_grown : BTree → ℤ → Option BTreeNode → Option BTree
insert_grown t key none = none
insert_grown t key (some root) =
    with_root t (insert_non_full t.min_degree (depth root + 1) root key)

unfoldable pub insert : BTree → ℤ → Option BTree
unfolding grown insert_non_full depth
insert t key = insert_grown t key (grown t.min_degree t.root)
