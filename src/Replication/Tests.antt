-- ===== src/Replication/Tests.antt =====
-- Runs of the store of 38-Replication/main.go, and an instance of its theorem.
use design_with_ts_go.Base.{
  ◌≡◌, refl, true, false, none, some, List, [], ◌∷◌, ℕ_discrete, nat_key, lookup, assign, str,
  GoString-discrete, string_key, assign_all, pos, negsuc, int_key,
}
use design_with_ts_go.Replication.{
  new, write_replicas, write, read_from, read, promote, failover, Call, write_call, failover_call,
  run,
}
use design_with_ts_go.Replication.Consistency.{last_written, read-run}

program : Unit {0}
unfolding new write_replicas write read_from read promote failover run assign_all lookup assign
    GoString-discrete ℕ_discrete
program = tt

abbrev calls : List Call
calls =
    write_call (str "k") (str "v1")
    ∷ failover_call (pos 1)
    ∷ write_call (str "k") (str "v2")
    ∷ failover_call (negsuc 0)
    ∷ failover_call (pos 7)
    ∷ []

replica_test : read (run (new 2) calls) (str "k") true ≡ some (str "v2")
unfolding program
replica_test = refl

failover_out_of_range : (failover (new 2) (pos 2)).1 ≡ false
unfolding program
failover_out_of_range = refl

read-run_example : read (run (new 2) calls) (str "k") false ≡ last_written (str "k") none calls
read-run_example = read-run 2 calls (str "k") false
