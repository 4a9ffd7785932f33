-- ===== src/Consensus/Tests.antt =====
-- A run of the cluster of 40-Consensus/main.go, and an instance of its theorem.
use design_with_ts_go.Base.{
  ◌≡◌, refl, true, false, Option, some, List, [], ◌∷◌, arith, ℕ_discrete, length, nat_key, lookup,
  assign, GoString, string_key, map_some, map_values, ℤ, pos, ℤ-discrete, int_key,
}
use design_with_ts_go.Consensus.{
  Call, RaftCluster, elect_call, append_call, new, add_nodes, elect, hold_election, cast_vote,
  collect_votes, crown, append, append_at, replicate_entry, commit_all, commands_from,
  committed_commands, step, run, no_id,
}
use design_with_ts_go.Consensus.Logs.{run-Settled, Settled, appends, keeps_role}

program : Unit {0}
unfolding new add_nodes elect hold_election cast_vote collect_votes crown append append_at
    replicate_entry commit_all commands_from committed_commands step run lookup assign ℤ-discrete
    ℕ_discrete length map_values map_some
program = tt

abbrev ids : List ℤ
ids = pos 1 ∷ pos 2 ∷ pos 3 ∷ []

abbrev calls : List Call
calls = append_call (7 ∷ []) ∷ elect_call (pos 3) ∷ append_call (8 ∷ 9 ∷ []) ∷ []

abbrev seen : Option RaftCluster → Option (ℤ × Option (List GoString))
seen c = map_some (λ c. (c.leader_id, committed_commands c)) c

program_run :
    (seen (run (new ids) (elect_call (pos 2) ∷ calls))
      ≡ some (pos 2, some ((7 ∷ []) ∷ (8 ∷ 9 ∷ []) ∷ [])))
    × ((elect (new ids) (pos 2)).1 ≡ true)
    × ((elect (elect (new ids) (pos 2)).0 (pos 3)).1 ≡ false)
    × (seen (run (new ids) (elect_call (pos 9) ∷ append_call [] ∷ [])) ≡ some (no_id, some []))
unfolding program
program_run = (refl, refl, refl, refl)

run-Settled_example :
    Settled (pos 2) true (appends calls) (run (new ids) (elect_call (pos 2) ∷ calls))
unfolding program keeps_role
run-Settled_example = run-Settled ids (pos 2) calls (ground arith) refl
