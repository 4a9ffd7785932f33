-- ===== src/BinaryHeap.antt =====
-- 06-Min-Heap-Max-Heap/main.go: the binary heap over any comparator. Each loop runs on fuel, the
-- index of its first round going up and the number of elements going down.
mod Swaps
mod Order
mod SiftDown
mod Descent
mod SiftUp
mod Heaps
mod Extracts
mod Weights
mod Runs
mod Tests
use design_with_ts_go.Base.{
  ℕ, zero, suc, ◌+◌, ◌-◌, ◌*◌, ◌/◌, ◌%◌, ◌^◌, ◌≤◌, ◌<◌, max, min, ◌≡◌, refl, sym, ap, ◌∙◌, ◌≢◌, ◌↔◌,
  ◌⊎◌, inl, inr, ite, if_pos, if_neg, Bool, true, false, not, ◌&&◌, ◌||◌, Option, none, some, List,
  [], ◌∷◌, ◌++◌, arith, ℕ_discrete, ltb, ltb→lt, lt→ltb, leb, ◌==◌, if◌then◌else◌, Bool-cases,
  Option-cases, length, get_elem?, set, replicate, length-append, length-set, length-replicate, All,
  get_or, is_some, Key, nat_key, same_key, Map, IsMap, lookup, assign, delete, lookup-assign,
  lookup-delete, assign-IsMap, delete-IsMap, length-assign, GoString, str, GoString-discrete,
  string_key, fnv1a_from, fnv1a_from-lt, fnv1a, assign_all, or_else, map_some, map_some_ne, Entries,
  map_values, Entries_map, length-map_values, lookup-map_values, map_values-IsMap, Entries-assign,
  Entries-lookup, Entries_weaken, Entries-assign_ne, ite-elim, if-elim, keys, All-keys,
  lookup-All-keys, IsOrder, sort, IsSorted, All-insert, All-sort, sort-All, sort-IsSorted,
  leb_string, leb_string-IsOrder, is_newer, newer, merge_newer, lookup-merge_newer,
  merge_newer-IsMap, get_elem?-lt, get_elem?-set, All-get, All-map, lookup-assign_all,
  assign_all-IsMap, ◌+ℤ◌, total, total-assign, total_ext, ℤ, pos, negsuc, pos_part, neg_part, sub_ℕ,
  ◌≤ℤ◌, leb_ℤ, ltb_ℤ, ℤ-discrete, int_key, count_of, raise_all, count_of-raise_all, raise_all-IsMap,
  add_parts, shifted, bit_or-shifted, mask, bit_and-mask, Among, Among-append, add_zero, add_assoc,
  zero_add, ℤ_ext, ℤ_ext,
}

-- The record's other field, the comparator, is an argument of the operations.
pub record BinaryHeap (T : Type 0) : Type 0 where
  pub data_of : List T

module _ {T : Type 0} where
  unfoldable pub size : BinaryHeap T → ℕ
  size h = length h.data_of

  -- `none` is the answer `false`.
  unfoldable pub peek : BinaryHeap T → Option T
  peek h = get_elem? h.data_of 0

  -- `data[:len(data)-1]`
  abbrev pub without_last : List T → List T
  without_last [] = []
  without_last (x ∷ []) = []
  without_last (x ∷ y ∷ rest) = x ∷ without_last (y ∷ rest)

  -- `data[len(data)-1]`, of a list that is not empty
  abbrev pub last_of : T → List T → T
  last_of x [] = x
  last_of x (y ∷ rest) = last_of y rest

  -- The last element in the place of the first.
  abbrev pub move_last : T → List T → List T
  move_last last [] = []
  move_last last (x ∷ rest) = last ∷ rest

module _ {T : Type 0} (higher_priority : T → T → Bool) where
  -- `h.higherPriority(h.data[i], h.data[j])`. Both indexes are in range where it is called.
  abbrev pub compare_some : Option T → Option T → Bool
  compare_some none b = false
  compare_some (some x) none = false
  compare_some (some x) (some y) = higher_priority x y

  abbrev pub higher : List T → ℕ → ℕ → Bool
  higher data_of i j = compare_some (get_elem? data_of i) (get_elem? data_of j)

  -- `h.data[i], h.data[j] = h.data[j], h.data[i]`
  abbrev swap_some : List T → ℕ → ℕ → Option T → Option T → List T
  swap_some data_of i j none b = data_of
  swap_some data_of i j (some x) none = data_of
  swap_some data_of i j (some x) (some y) = set (set data_of i y) j x

  unfoldable pub swap : List T → ℕ → ℕ → List T
  swap data_of i j = swap_some data_of i j (get_elem? data_of i) (get_elem? data_of j)

  unfoldable pub sift_up : ℕ → ℕ → List T → List T
  unfolding swap
  sift_up fuel zero data_of = data_of
  sift_up zero (suc index) data_of = data_of
  sift_up (suc fuel) (suc index) data_of =
      let rest = sift_up fuel (index / 2) (swap data_of (suc index) (index / 2)) in
      if not (higher data_of (suc index) (index / 2)) then data_of else rest

  -- `best` after the test of the left child, and after that of the right one.
  abbrev pub best_left : List T → ℕ → ℕ
  best_left data_of index =
      let left = index * 2 + 1 in
      if ltb left (length data_of) && higher data_of left index then left else index

  abbrev pub best : List T → ℕ → ℕ
  best data_of index =
      let right = index * 2 + 2 in
      if ltb right (length data_of) && higher data_of right (best_left data_of index)
      then right
      else best_left data_of index

  unfoldable pub sift_down : ℕ → ℕ → List T → List T
  unfolding swap
  sift_down zero index data_of = data_of
  sift_down (suc fuel) index data_of =
      let rest = sift_down fuel (best data_of index) (swap data_of index (best data_of index)) in
      if best data_of index == index then data_of else rest

  -- The loop of the constructor, from `count - 1` down to 0.
  unfoldable pub heapify : ℕ → List T → List T
  unfolding sift_down
  heapify zero data_of = data_of
  heapify (suc count) data_of = heapify count (sift_down (length data_of) count data_of)

  unfoldable pub new : List T → BinaryHeap T
  unfolding heapify
  new values = record { data_of = heapify (length values / 2) values }

  unfoldable pub insert : BinaryHeap T → T → BinaryHeap T
  unfolding sift_up
  insert h value =
      let longer = h.data_of ++ value ∷ [] in
      record { data_of = sift_up (length longer - 1) (length longer - 1) longer }

  abbrev pub extract_from : List T → Option (T × BinaryHeap T)
  extract_from [] = none
  extract_from (top ∷ rest) =
      let left = move_last (last_of top rest) (without_last (top ∷ rest)) in
      some (top, record { data_of = sift_down (length left) 0 left })

  unfoldable pub extract : BinaryHeap T → Option (T × BinaryHeap T)
  unfolding sift_down
  extract h = extract_from h.data_of
