-- ===== src/Lsm/Reads.antt =====
-- `Get` of 22-LSM-Tree/main.go against the plain record of what was put and deleted.
use design_with_ts_go.Base.{
  ℕ, zero, suc, ◌+◌, ◌≤◌, ◌≡◌, refl, sym, ap, ◌∙◌, inl, inr, ite, Bool, true, false, Option, none,
  some, List, [], ◌∷◌, arith, leb, ◌==◌, Bool-cases, length, nat_key, same_key, lookup, assign,
  lookup-assign, assign-IsMap, GoString, string_key, assign_all, or_else, lookup-assign_all,
  assign_all-IsMap, ℤ, pos, negsuc, int_key,
}
use design_with_ts_go.Lsm.{
  LsmValue, LsmTree, new, flush, store, put, delete_key, search_tables, answer, get, merge_tables,
  compact, Call, put_call, delete_call, flush_call, compact_call, step, run, empty_tree,
}
use design_with_ts_go.Lsm.Tables.{
  InRange, Layered, Layered-append, search-append, merge_tables_lem, live, drop_deleted_lem,
}

-- The tables hold what was written up to some number, and the memtable what was written since.
abbrev pub IsValid : LsmTree → Type 0
IsValid t =
    (flushed : ℕ) × Layered 0 t.sstables flushed
    × InRange flushed t.sequence t.memtable
    × (flushed ≤ t.sequence)

nothing : InRange 0 0 []
unfolding lookup
nothing = (tt, λ key e f. cc)

new-IsValid : (threshold : ℕ) → IsValid (empty_tree threshold)
unfolding lookup
new-IsValid threshold = (0, omega arith, nothing, omega arith)

module _ (t : LsmTree) (h : IsValid t) where
  copy_lookup : (key : GoString) → lookup key (assign_all t.memtable []) ≡ lookup key t.memtable
  unfolding lookup
  copy_lookup key = lookup-assign_all key t.memtable [] h.2.0 ∙ at_end (lookup key t.memtable)
    where
      at_end : (o : Option LsmValue) → or_else o none ≡ o
      at_end none = refl
      at_end (some e) = refl

  flush-IsValid : IsValid (flush t)
  unfolding flush lookup
  flush-IsValid = elim (Bool-cases (length t.memtable == 0)) [
    | inl empty ↦ rw empty h
    | inr full ↦
        let copy = assign_all t.memtable [] in
        let range : InRange h.0 t.sequence copy =
          (assign_all-IsMap t.memtable [] tt, λ k e f. h.2.1 k e (sym (copy_lookup k) ∙ f)) in
        rw full (
          t.sequence,
          Layered-append 0 h.0 t.sequence t.sstables copy h.1 h.3 range,
          (tt, λ k e f. cc),
          omega arith,
        )
  ]

  get-flush : (key : GoString) → get (flush t) key ≡ get t key
  unfolding flush get lookup
  get-flush key = elim (Bool-cases (length t.memtable == 0)) [
    | inl empty ↦ rw empty
    | inr full ↦
        rw full (rw (search-append key t.sstables (assign_all t.memtable []), copy_lookup key))
  ]

  compact-IsValid : IsValid (compact t)
  unfolding compact
  compact-IsValid =
      let (range, _) = merge_tables_lem 0 h.0 t.sstables [] nothing h.1 in
      let (kept, _) = drop_deleted_lem h.0 (merge_tables t.sstables []) range in
      (h.0, (h.0, omega arith, kept, omega arith), h.2, h.3)

  get-compact : (key : GoString) → get (compact t) key ≡ get t key
  unfolding compact get search_tables
  get-compact key =
      let merged = merge_tables t.sstables [] in
      let (range, finds) = merge_tables_lem 0 h.0 t.sstables [] nothing h.1 in
      let (_, kept) = drop_deleted_lem h.0 merged range in
      let found : lookup key merged ≡ search_tables key t.sstables =
        finds key ∙ or_none (search_tables key t.sstables) in
      rw (kept key, ← found)
        (same_answer (lookup key t.memtable) (lookup key merged) (λ e f. (range.1 key e f).2))
    where
      or_none : (o : Option LsmValue) → or_else o (lookup key []) ≡ o
      or_none none = unfold lookup in refl
      or_none (some e) = refl

      same_answer :
          (m s : Option LsmValue)
          → ((e : LsmValue) → s ≡ some e → e.deleted ≡ true → e.value ≡ [])
          → answer (or_else m (live s)) ≡ answer (or_else m s)
      same_answer (some x) s tomb = refl
      same_answer none none tomb = refl
      same_answer none (some e) tomb = ground (arith, tomb e refl)

  module _ (key : GoString) (entry : LsmValue) (next : entry.sequence ≡ t.sequence + 1)
      (tomb : entry.deleted ≡ true → entry.value ≡ []) where
    abbrev stored : LsmTree
    stored = record t { memtable = assign key entry t.memtable; sequence = t.sequence + 1 }

    stored-IsValid : IsValid stored
    stored-IsValid = (
      h.0,
      h.1,
      (
        assign-IsMap key entry t.memtable h.2.0,
        λ k e f. ground (arith, h.2.1 k e, h.3, lookup-assign k key entry t.memtable),
      ),
      omega arith,
    )

    get-stored :
        (k : GoString) → get stored k ≡ ite (same_key key k) (answer (some entry)) (get t k)
    unfolding get
    get-stored k = ground (arith, lookup-assign k key entry t.memtable)

-- An entry is stored, and the rest reads as before, whether or not the memtable was flushed.
store_lem :
    (t : LsmTree) (key : GoString) (entry : LsmValue)
    → IsValid t
    → entry.sequence ≡ t.sequence + 1
    → (entry.deleted ≡ true → entry.value ≡ [])
    → IsValid (store t key entry)
      × ((k : GoString)
          → get (store t key entry) k ≡ ite (same_key key k) (answer (some entry)) (get t k))
unfolding store
store_lem t key entry h next tomb =
    let t' = stored t h key entry next tomb in
    let v = stored-IsValid t h key entry next tomb in
    let reads = get-stored t h key entry next tomb in
    elim (Bool-cases (leb t'.flush_threshold (length t'.memtable))) [
      | inl full ↦ rw full (flush-IsValid t' v, λ k. get-flush t' v k ∙ reads k)
      | inr room ↦ rw room (v, reads)
    ]

-- What the last call for the key leaves: a value, or nothing.
abbrev pub after_call : Call → GoString → GoString × Bool → GoString × Bool
after_call (put_call k value) key last = ite (same_key k key) (value, true) last
after_call (delete_call k) key last = ite (same_key k key) ([], false) last
after_call flush_call key last = last
after_call compact_call key last = last

abbrev pub last_put : GoString → GoString × Bool → List Call → GoString × Bool
last_put key last [] = last
last_put key last (call ∷ calls) = last_put key (after_call call key last) calls

step_lem :
    (t : LsmTree) (call : Call)
    → IsValid t
    → IsValid (step t call)
      × ((key : GoString) → get (step t call) key ≡ after_call call key (get t key))
unfolding step put delete_key
step_lem t (put_call key value) h = store_lem t key _ h refl (λ e. cc)
step_lem t (delete_call key) h = store_lem t key _ h refl (λ e. refl)
step_lem t flush_call h = (flush-IsValid t h, get-flush t h)
step_lem t compact_call h = (compact-IsValid t h, get-compact t h)

run_lem :
    (t : LsmTree) (calls : List Call) (key : GoString)
    → IsValid t
    → get (run t calls) key ≡ last_put key (get t key) calls
unfolding run
run_lem t [] key h = refl
run_lem t (call ∷ calls) key h =
    let (valid, reads) = step_lem t call h in
    run_lem (step t call) calls key valid ∙ ap (λ last. last_put key last calls) (reads key)

new_lem :
    (threshold : ℤ)
    → IsValid (new threshold) × ((key : GoString) → get (new threshold) key ≡ ([], false))
unfolding new get search_tables lookup
new_lem (pos zero) = (new-IsValid 4, λ key. refl)
new_lem (pos (suc n)) = (new-IsValid (suc n), λ key. refl)
new_lem (negsuc n) = (new-IsValid 4, λ key. refl)

-- Whatever puts, deletions, flushes and compactions came before, and whatever the threshold,
-- `Get` answers what the last put or deletion of the key left: flushing and compacting, with its
-- dropping of tombstones, are never seen by a reader.
pub get-run :
    (threshold : ℤ) (calls : List Call) (key : GoString)
    → get (run (new threshold) calls) key ≡ last_put key ([], false) calls
get-run threshold calls key =
    let (valid, reads) = new_lem threshold in
    run_lem (new threshold) calls key valid ∙ ap (λ last. last_put key last calls) (reads key)
