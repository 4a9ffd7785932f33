-- ===== src/LeaderElection/Tests.antt =====
-- A run of the cluster of 31-Leader-Election/main.go, and an instance of its theorem.
use design_with_ts_go.Base.{
  ◌≡◌, refl, List, [], ◌∷◌, ℕ_discrete, nat_key, lookup, assign, delete, string_key, insert, sort,
  ℤ, pos, ℤ-discrete, int_key,
}
use design_with_ts_go.LeaderElection.{
  last_or_none, assign_roles, elect, add_nodes, new, fail, recover, fail_event, recover_event, run,
}
use design_with_ts_go.LeaderElection.Bully.{IsElected, new-run-IsElected}

program : Unit {0}
unfolding last_or_none assign_roles elect add_nodes new fail recover run sort insert lookup assign
    delete ℤ-discrete ℕ_discrete
program = tt

abbrev nodes : List ℤ
nodes = pos 3 ∷ pos 1 ∷ pos 5 ∷ []

leader_run :
    ((new nodes).leader_id ≡ pos 5)
    × ((run (new nodes) (fail_event (pos 1) ∷ fail_event (pos 5) ∷ [])).leader_id ≡ pos 3)
    × ((run (new nodes) (fail_event (pos 5) ∷ recover_event (pos 5) ∷ [])).leader_id ≡ pos 5)
unfolding program
leader_run = (refl, refl, refl)

new-run-IsElected_example : IsElected (run (new nodes) (fail_event (pos 5) ∷ []))
new-run-IsElected_example = new-run-IsElected nodes (fail_event (pos 5) ∷ [])
