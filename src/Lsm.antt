-- ===== src/Lsm.antt =====
-- 22-LSM-Tree/main.go: the memtable, the tables flushed from it (oldest first) and their
-- compaction. A method that changes its receiver returns the new tree.
mod Tables
mod Reads
mod Tests
use design_with_ts_go.Base.{
  ℕ, zero, suc, ◌+◌, ◌-◌, ◌*◌, ◌/◌, ◌%◌, ◌^◌, ◌≤◌, ◌<◌, max, min, ◌≡◌, refl, sym, ap, ◌∙◌, ◌≢◌, ◌↔◌,
  ◌⊎◌, inl, inr, ite, if_pos, if_neg, Bool, true, false, not, ◌&&◌, ◌||◌, Option, none, some, List,
  [], ◌∷◌, ◌++◌, arith, ℕ_discrete, ltb, leb, ◌==◌, if◌then◌else◌, Bool-cases, Option-cases, length,
  get_elem?, set, replicate, length-append, length-set, length-replicate, All, get_or, is_some, Key,
  nat_key, same_key, Map, IsMap, lookup, assign, delete, lookup-assign, lookup-delete, assign-IsMap,
  delete-IsMap, length-assign, GoString, str, GoString-discrete, string_key, fnv1a_from,
  fnv1a_from-lt, fnv1a, assign_all, or_else, map_some, is_newer, newer, merge_newer,
  lookup-merge_newer, merge_newer-IsMap, get_elem?-lt, get_elem?-set, All-get, All-map,
  lookup-assign_all, assign_all-IsMap, ◌+ℤ◌, total, total-assign, total_ext, ℤ, pos, negsuc,
  pos_part, neg_part, sub_ℕ, ◌≤ℤ◌, leb_ℤ, ltb_ℤ, ℤ-discrete, int_key, count_of, raise_all,
  count_of-raise_all, raise_all-IsMap,
}

pub record LsmValue : Type 0 where
  pub value : GoString
  pub deleted : Bool
  pub sequence : ℕ

pub record LsmTree : Type 0 where
  pub memtable : Map GoString LsmValue
  pub sstables : List (Map GoString LsmValue)
  pub sequence : ℕ
  pub flush_threshold : ℕ

abbrev empty_tree : ℕ → LsmTree
empty_tree threshold = record {
  memtable = [];
  sstables = [];
  sequence = 0;
  flush_threshold = threshold;
}

unfoldable pub new : ℤ → LsmTree
new (pos zero) = empty_tree 4
new (pos (suc n)) = empty_tree (suc n)
new (negsuc _) = empty_tree 4

unfoldable pub flush : LsmTree → LsmTree
flush t =
    if length t.memtable == 0
    then t
    else record t { memtable = []; sstables = t.sstables ++ assign_all t.memtable [] ∷ [] }

-- The end of `Put` and `Delete`: the entry is stored, and a full memtable flushed.
unfoldable pub store : LsmTree → GoString → LsmValue → LsmTree
unfolding flush
store t key entry =
    let t' = record t { memtable = assign key entry t.memtable; sequence = t.sequence + 1 } in
    if leb t'.flush_threshold (length t'.memtable) then flush t' else t'

unfoldable pub put : LsmTree → GoString → GoString → LsmTree
unfolding store
put t key value = store t key (record { value = value; deleted = false; sequence = t.sequence + 1 })

unfoldable pub delete_key : LsmTree → GoString → LsmTree
unfolding store
delete_key t key = store t key (record { value = []; deleted = true; sequence = t.sequence + 1 })

-- The loop of `Get` over the tables, from the last one down.
unfoldable pub search_tables : GoString → List (Map GoString LsmValue) → Option LsmValue
search_tables key [] = none
search_tables key (table ∷ tables) = or_else (search_tables key tables) (lookup key table)

-- What `Get` returns of the entry that it found.
abbrev pub answer : Option LsmValue → GoString × Bool
answer none = ([], false)
answer (some entry) = (entry.value, not entry.deleted)

unfoldable pub get : LsmTree → GoString → GoString × Bool
unfolding search_tables
get t key = answer (or_else (lookup key t.memtable) (search_tables key t.sstables))

-- The first loop of `Compact`.
unfoldable pub merge_tables :
    List (Map GoString LsmValue) → Map GoString LsmValue → Map GoString LsmValue
merge_tables [] merged = merged
merge_tables (table ∷ tables) merged =
    merge_tables tables (merge_newer (λ entry. entry.sequence) table merged)

-- The second loop of `Compact`, over the entries of the merged map.
unfoldable pub drop_deleted : Map GoString LsmValue → Map GoString LsmValue → Map GoString LsmValue
drop_deleted [] merged = merged
drop_deleted ((key, entry) ∷ entries) merged =
    drop_deleted entries (if entry.deleted then delete key merged else merged)

unfoldable pub compact : LsmTree → LsmTree
unfolding merge_tables drop_deleted
compact t =
    let merged = merge_tables t.sstables [] in
    record t { sstables = drop_deleted merged merged ∷ [] }

-- The calls of a client.
pub data Call : Type 0 where
  put_call : GoString → GoString → Call
  delete_call : GoString → Call
  flush_call : Call
  compact_call : Call

unfoldable pub step : LsmTree → Call → LsmTree
unfolding put delete_key flush compact
step t (put_call key value) = put t key value
step t (delete_call key) = delete_key t key
step t flush_call = flush t
step t compact_call = compact t

unfoldable pub run : LsmTree → List Call → LsmTree
unfolding step
run t [] = t
run t (call ∷ calls) = run (step t call) calls
