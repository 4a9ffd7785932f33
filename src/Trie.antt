-- ===== src/Trie.antt =====
-- 07-Trie/main.go: the prefix tree. A word is the list of its runes. A node owns its children, which
-- no other pointer reaches, so that a tree of values stands for the tree of pointers; the order of
-- the children is the one in which `range` visits them.
mod Finds
mod Reads
mod Deletes
mod WellFormed
mod Runs
mod Words
mod Listing
mod Tests
use design_with_ts_go.Base.{
  ℕ, zero, suc, ◌+◌, ◌-◌, ◌*◌, ◌/◌, ◌%◌, ◌^◌, ◌≤◌, ◌<◌, max, min, ◌≡◌, refl, sym, ap, ◌∙◌, ◌≢◌, ◌↔◌,
  ◌⊎◌, inl, inr, ite, if_pos, if_neg, Bool, true, false, not, ◌&&◌, ◌||◌, Option, none, some, List,
  [], ◌∷◌, ◌++◌, arith, ℕ_discrete, ltb, leb, ◌==◌, if◌then◌else◌, Bool-cases, Option-cases, length,
  get_elem?, set, replicate, length-append, length-set, length-replicate, All, get_or, is_some, Key,
  nat_key, same_key, Map, IsMap, lookup, assign, lookup-assign, lookup-delete, assign-IsMap,
  delete-IsMap, length-assign, GoString, str, GoString-discrete, string_key, fnv1a_from,
  fnv1a_from-lt, fnv1a, assign_all, or_else, map_some, map_some_ne, Entries, map_values,
  Entries_map, length-map_values, lookup-map_values, map_values-IsMap, Entries-assign,
  Entries-lookup, Entries_weaken, Entries-assign_ne, ite-elim, keys, All-keys, lookup-All-keys,
  IsOrder, sort, IsSorted, All-insert, All-sort, sort-All, sort-IsSorted, leb_string,
  leb_string-IsOrder, is_newer, newer, merge_newer, lookup-merge_newer, merge_newer-IsMap,
  get_elem?-lt, get_elem?-set, All-get, All-map, lookup-assign_all, assign_all-IsMap, ◌+ℤ◌, total,
  total-assign, total_ext, ℤ, pos, negsuc, pos_part, neg_part, sub_ℕ, ◌≤ℤ◌, leb_ℤ, ltb_ℤ,
  ℤ-discrete, int_key, count_of, raise_all, count_of-raise_all, raise_all-IsMap, add_parts, Among,
  Among-append, add_zero, add_assoc, zero_add, ℤ_ext, ℤ_ext,
}

abbrev pub Word : Type 0
Word = List ℕ

mutual
  pub data TrieNode : Type 0 where
    node : Children → Bool → GoString → TrieNode

  -- `map[rune]*TrieNode`
  pub data Children : Type 0 where
    leaf : Children
    child : ℕ → TrieNode → Children → Children

abbrev pub children_of : TrieNode → Children
children_of (node children end value) = children

abbrev pub is_end : TrieNode → Bool
is_end (node children end value) = end

abbrev pub value_of : TrieNode → GoString
value_of (node children end value) = value

-- `node.children[char]`; `none` is nil.
unfoldable pub find : ℕ → Children → Option TrieNode
find char leaf = none
find char (child c n children) = ite (ℕ_discrete c char) (some n) (find char children)

-- `node.children[char] = n`
unfoldable pub put : ℕ → TrieNode → Children → Children
put char n leaf = child char n leaf
put char n (child c m children) =
    ite (ℕ_discrete c char) (child c n children) (child c m (put char n children))

-- `delete(node.children, char)`
unfoldable pub drop : ℕ → Children → Children
drop char leaf = leaf
drop char (child c n children) =
    ite (ℕ_discrete c char) (drop char children) (child c n (drop char children))

-- `len(children) == 0`
abbrev pub is_empty : Children → Bool
is_empty leaf = true
is_empty (child c n children) = false

abbrev pub fresh : TrieNode
fresh = node leaf false []

unfoldable pub new : TrieNode
new = fresh

unfoldable pub insert : TrieNode → Word → GoString → TrieNode
unfolding find put
insert (node children end old) [] value = node children true value
insert (node children end old) (char ∷ word) value =
    node (put char (insert (get_or (find char children) fresh) word value) children) end old

-- The steps of `findNode`; `step` is the body of its loop.
abbrev pub step : (TrieNode → Option TrieNode) → Option TrieNode → Option TrieNode
step more none = none
step more (some n) = more n

unfoldable pub find_node : TrieNode → Word → Option TrieNode
unfolding find
find_node n [] = some n
find_node n (char ∷ word) = step (λ next. find_node next word) (find char (children_of n))

-- The value of the node, and `none` for the answer `false`.
abbrev pub answer_of : Option TrieNode → Option GoString
answer_of none = none
answer_of (some n) = if is_end n then some (value_of n) else none

unfoldable pub search : TrieNode → Word → Option GoString
unfolding find_node
search t word = answer_of (find_node t word)

unfoldable pub starts_with : TrieNode → Word → Bool
unfolding find_node
starts_with t prefix = is_some (find_node t prefix)

-- The child after the deletion below it, which is dropped when nothing is left of it.
abbrev pub prune : TrieNode → ℕ → TrieNode → TrieNode
prune (node children end value) char next =
    node
      (if not (is_end next) && is_empty (children_of next)
        then drop char children
        else put char next children)
      end value

-- `none` is the answer `false`, after which nothing has changed.
unfoldable pub delete_from : TrieNode → Word → Option TrieNode
unfolding find put drop
delete_from (node children end value) [] = if end then some (node children false []) else none
delete_from n (char ∷ word) =
    map_some (prune n char) (step (λ next. delete_from next word) (find char (children_of n)))

abbrev pub or_same : TrieNode → Option TrieNode → TrieNode × Bool
or_same t none = (t, false)
or_same t (some next) = (next, true)

unfoldable pub delete : TrieNode → Word → TrieNode × Bool
unfolding delete_from
delete t word = or_same t (delete_from t word)

unfoldable mutual
  pub collect : TrieNode → Word → List Word
  collect (node children end value) word =
      (if end then word ∷ [] else []) ++ collect_children children word

  pub collect_children : Children → Word → List Word
  collect_children leaf word = []
  collect_children (child char n children) word =
      collect n (word ++ char ∷ []) ++ collect_children children word

unfoldable pub words_with_prefix : TrieNode → Word → List Word
unfolding find_node collect
words_with_prefix t prefix = elim (find_node t prefix) [ none ↦ [] | some n ↦ collect n prefix ]
