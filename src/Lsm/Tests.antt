-- ===== src/Lsm/Tests.antt =====
-- A run of the tree of 22-LSM-Tree/main.go, and an instance of its theorem.
use design_with_ts_go.Base.{
  ◌≡◌, refl, true, false, List, [], ◌∷◌, ℕ_discrete, length, nat_key, lookup, assign, delete, str,
  GoString-discrete, string_key, assign_all, merge_newer, pos, int_key,
}
use design_with_ts_go.Lsm.{
  new, flush, store, put, delete_key, search_tables, get, merge_tables, drop_deleted, compact, Call,
  put_call, delete_call, flush_call, compact_call, step, run,
}
use design_with_ts_go.Lsm.Reads.{last_put, get-run}

program : Unit {0}
unfolding new flush store put delete_key search_tables get merge_tables drop_deleted compact step
    run merge_newer assign_all lookup assign delete GoString-discrete ℕ_discrete
program = tt

abbrev calls : List Call
calls =
    put_call (str "a") (str "1")
    ∷ put_call (str "b") (str "2")
    ∷ delete_call (str "a")
    ∷ flush_call
    ∷ put_call (str "c") (str "3")
    ∷ compact_call
    ∷ []

tables_run : length (run (new (pos 2)) calls).sstables ≡ 1
unfolding program
tables_run = refl

lsm_test :
    (get (run (new (pos 2)) calls) (str "a") ≡ ([], false))
    × (get (run (new (pos 2)) calls) (str "b") ≡ (str "2", true))
unfolding program
lsm_test = (refl, refl)

get-run_example : get (run (new (pos 2)) calls) (str "a") ≡ last_put (str "a") ([], false) calls
get-run_example = get-run (pos 2) calls (str "a")
