-- ===== src/Consensus/Logs.antt =====
-- The logs of 40-Consensus/main.go over runs of calls.
use mathlib.Core.List.{append-nil, append_assoc}
use mathlib.Core.Path.{subst}
use design_with_ts_go.Base.{
  ℕ, ◌+◌, ◌≡◌, refl, ap, ◌∙◌, ◌≢◌, ◌⊎◌, inl, inr, Bool, true, false, Option, none, some, List, [],
  ◌∷◌, ◌++◌, arith, Option-cases, length, All, is_some, nat_key, Map, IsMap, lookup, assign,
  assign-IsMap, GoString, string_key, Entries, Entries-assign, Entries-lookup, Entries_weaken, ℤ,
  sub_ℕ, int_key,
}
use design_with_ts_go.Consensus.{
  leader, LogEntry, RaftNode, RaftCluster, no_id, fresh_node, add_nodes, new, elect, append_at,
  append, commands_from, committed_commands, Call, elect_call, append_call, step, run,
}
use design_with_ts_go.Consensus.Appends.{append_at-IsLed}
use design_with_ts_go.Consensus.FirstElection.{elect-first}
use design_with_ts_go.Consensus.Elections.{keeps, Follows, IsLed, Fresh, IsFresh, elect-IsLed}

add_nodes-Fresh :
    (ids : List ℤ) (nodes : Map ℤ RaftNode)
    → All (λ id. id ≢ no_id) ids
    → Entries Fresh nodes
    → IsMap nodes
    → Entries Fresh (add_nodes ids nodes) × IsMap (add_nodes ids nodes)
unfolding add_nodes
add_nodes-Fresh [] nodes named h distinct = (h, distinct)
add_nodes-Fresh (id ∷ ids) nodes named h distinct =
    add_nodes-Fresh ids (assign id (fresh_node id) nodes) named.1
      (Entries-assign Fresh id (fresh_node id) nodes (ground (arith, named.0)) h)
      (assign-IsMap id (fresh_node id) nodes distinct)

pub new-IsFresh : (ids : List ℤ) → All (λ id. id ≢ no_id) ids → IsFresh (new ids)
unfolding new
new-IsFresh ids named =
    let (h, distinct) = add_nodes-Fresh ids [] named tt tt in
    record { nodes = h; distinct = distinct; leaderless = refl }

unfoldable pub commands_of : List LogEntry → List GoString
commands_of [] = []
commands_of (entry ∷ log) = entry.command ∷ commands_of log

commands_from_all :
    (i : ℕ) (log : List LogEntry) → commands_from i (sub_ℕ (i + length log) 1) log ≡ commands_of log
unfolding commands_from commands_of
commands_from_all i [] = refl
commands_from_all i (entry ∷ log) = ground (arith, commands_from_all (i + 1) log)

-- The commands of the calls that append, in order.
unfoldable pub appends : List Call → List GoString
appends [] = []
appends (elect_call id ∷ calls) = appends calls
appends (append_call command ∷ calls) = command ∷ appends calls

-- Whether no call lets the leader stand again.
unfoldable pub keeps_role : ℤ → List Call → Bool → Bool
keeps_role a [] sure = sure
keeps_role a (elect_call id ∷ calls) sure = keeps_role a calls (keeps a id sure)
keeps_role a (append_call command ∷ calls) sure = keeps_role a calls sure

-- The cluster exists and `a` leads it; no other node has the role of a leader, and where `sure` is
-- true, `a` has it; every log holds the commands, and so do the committed commands.
abbrev pub Settled : ℤ → Bool → List GoString → Option RaftCluster → Type 0
Settled a sure commands none = ⊥
Settled a sure commands (some c) =
    (c.leader_id ≡ a)
    × (committed_commands c ≡ some commands)
    × (lookup a c.nodes ≢ none)
    × Entries
        (λ k node.
          (commands_of node.log ≡ commands)
          × (node.role ≡ leader → k ≡ a)
          × ((k ≢ a) ⊎ ((node.role ≡ leader) ⊎ (sure ≡ false))))
        c.nodes

commands_of_append :
    (log : List LogEntry) (entry : LogEntry)
    → commands_of (log ++ entry ∷ []) ≡ commands_of log ++ entry.command ∷ []
unfolding commands_of
commands_of_append [] entry = refl
commands_of_append (e ∷ log) entry = rw (commands_of_append log entry)

committed_commands-IsLed :
    (sure : Bool) (a : ℤ) (log : List LogEntry) (c : RaftCluster)
    → IsLed a sure log c
    → committed_commands c ≡ some (commands_of log)
unfolding committed_commands
committed_commands-IsLed sure a log c h = elim (Option-cases (lookup a c.nodes)) [
  | inl absent ↦ absurd (h.member absent)
  | inr (node, found) ↦
      let stands = Entries-lookup (Follows a sure log) a node c.nodes h.nodes found in
      ground
        (arith, found, h.leads, h.named, stands.committed, stands.same_log, commands_from_all 0 log)
]

IsLed-Settled :
    (sure : Bool) (a : ℤ) (log : List LogEntry) (c : RaftCluster)
    → IsLed a sure log c
    → Settled a sure (commands_of log) (some c)
IsLed-Settled sure a log c h = (
  h.leads,
  committed_commands-IsLed sure a log c h,
  h.member,
  Entries_weaken (Follows a sure log)
      (λ k n.
        (commands_of n.log ≡ commands_of log)
        × (n.role ≡ leader → k ≡ a)
        × ((k ≢ a) ⊎ ((n.role ≡ leader) ⊎ (sure ≡ false))))
      c.nodes (λ k n f. (ap commands_of f.same_log, f.crowned, f.reigns)) h.nodes,
)

append-some :
    (sure : Bool) (a : ℤ) (log : List LogEntry) (c : RaftCluster) (command : GoString)
    (node : RaftNode)
    → IsLed a sure log c
    → lookup a c.nodes ≡ some node
    → append c command ≡ some (append_at c command node)
unfolding append
append-some sure a log c command node h found = ground (arith, h.leads, h.named, found)

run-IsLed :
    (sure : Bool) (a : ℤ) (log : List LogEntry) (c : RaftCluster) (calls : List Call)
    → IsLed a sure log c
    → Settled a (keeps_role a calls sure) (commands_of log ++ appends calls) (run c calls)
unfolding run step appends keeps_role
run-IsLed sure a log c [] h = rw (append-nil (commands_of log)) (IsLed-Settled sure a log c h)
run-IsLed sure a log c (elect_call id ∷ calls) h =
    run-IsLed (keeps a id sure) a log (elect c id).0 calls (elect-IsLed sure a id log c h)
run-IsLed sure a log c (append_call command ∷ calls) h = elim (Option-cases (lookup a c.nodes)) [
  | inl absent ↦ absurd (h.member absent)
  | inr (node, found) ↦
      let longer = log ++ record { term = node.term; command = command } ∷ [] in
      let rest =
        run-IsLed sure a longer (append_at c command node).0 calls
          (append_at-IsLed sure a log c node h found command).1 in
      rw (append-some sure a log c command node h found, run)
        (subst (λ l. Settled a (keeps_role a calls sure) l (run (append_at c command node).0 calls))
          (ap (λ l. l ++ appends calls) (commands_of_append log _)
            ∙ append_assoc (commands_of log) (command ∷ []) (appends calls))
          rest)
]

-- In a new cluster no node of which is numbered -1, let a node of the cluster stand first. Then no
-- sequence of elections and appends panics; whatever elections follow, that node is a node of the
-- cluster and stays the leader that it names, no other node has a leader's role, and it has that
-- role itself unless it stood again; every node's log holds exactly the appended commands in order,
-- and they are the committed ones.
pub run-Settled :
    (ids : List ℤ) (first : ℤ) (calls : List Call)
    → All (λ id. id ≢ no_id) ids
    → is_some (lookup first (new ids).nodes) ≡ true
    → Settled first
        (keeps_role first calls true)
        (appends calls)
        (run (new ids) (elect_call first ∷ calls))
unfolding run step commands_of
run-Settled ids first calls named member = elim (Option-cases (lookup first (new ids).nodes)) [
  | inl absent ↦ ground (arith, absent)
  | inr (node, found) ↦
      run-IsLed true first [] (elect (new ids) first).0 calls
        (elect-first first (new ids) node (new-IsFresh ids named) found).0
]
