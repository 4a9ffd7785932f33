-- ===== src/Consensus.antt =====
-- 40-Consensus/main.go: the simplified Raft cluster. The nodes, which the program shares by
-- pointers, are the values of the map; a method that changes the cluster returns the new one.
-- -1 stands for no vote and no leader, as in the program.
mod Counting
mod Elections
mod FirstElection
mod Appends
mod Logs
mod Tests
use design_with_ts_go.Base.{
  map_values, ℕ, zero, suc, ◌+◌, ◌-◌, ◌*◌, ◌/◌, ◌%◌, ◌^◌, ◌≤◌, ◌<◌, max, min, ◌≡◌, refl, sym, ap,
  ◌∙◌, ◌≢◌, ◌↔◌, ◌⊎◌, inl, inr, ite, if_pos, if_neg, Bool, true, false, not, ◌&&◌, ◌||◌, Option,
  none, some, List, [], ◌∷◌, ◌++◌, arith, ℕ_discrete, ltb, leb, ◌==◌, if◌then◌else◌, Bool-cases,
  Option-cases, length, get_elem?, set, replicate, length-append, length-set, length-replicate, All,
  get_or, is_some, Key, nat_key, same_key, Map, IsMap, lookup, assign, delete, lookup-assign,
  lookup-delete, assign-IsMap, delete-IsMap, length-assign, GoString, str, GoString-discrete,
  string_key, fnv1a_from, fnv1a_from-lt, fnv1a, assign_all, or_else, map_some, ite-elim, keys,
  All-keys, lookup-All-keys, IsOrder, insert, sort, IsSorted, All-insert, All-sort, sort-All,
  sort-IsSorted, leb_string, leb_string-IsOrder, is_newer, newer, merge_newer, lookup-merge_newer,
  merge_newer-IsMap, get_elem?-lt, get_elem?-set, All-get, All-map, lookup-assign_all,
  assign_all-IsMap, ◌+ℤ◌, total, total-assign, total_ext, ℤ, pos, negsuc, pos_part, neg_part, sub_ℕ,
  ◌≤ℤ◌, leb_ℤ, ltb_ℤ, ℤ-discrete, int_key, count_of, raise_all, count_of-raise_all, raise_all-IsMap,
}

-- The strings "follower", "candidate" and "leader".
pub data RaftRole : Type 0 where
  follower candidate leader : RaftRole

pub record LogEntry : Type 0 where
  pub term : ℕ
  pub command : GoString

pub record RaftNode : Type 0 where
  pub id : ℤ
  pub role : RaftRole
  pub term : ℕ
  pub voted_for : ℤ
  pub log : List LogEntry
  pub commit_index : ℤ

pub record RaftCluster : Type 0 where
  pub nodes : Map ℤ RaftNode
  pub leader_id : ℤ

abbrev pub no_id : ℤ
no_id = negsuc 0

abbrev pub fresh_node : ℤ → RaftNode
fresh_node id = record {
  id = id;
  role = follower;
  term = 0;
  voted_for = no_id;
  log = [];
  commit_index = no_id;
}

-- The loop of `NewRaftCluster`.
unfoldable pub add_nodes : List ℤ → Map ℤ RaftNode → Map ℤ RaftNode
add_nodes [] nodes = nodes
add_nodes (id ∷ ids) nodes = add_nodes ids (assign id (fresh_node id) nodes)

unfoldable pub new : List ℤ → RaftCluster
unfolding add_nodes
new node_ids = record { nodes = add_nodes node_ids []; leader_id = no_id }

-- A peer's vote: its state afterwards, and 1 if it granted the vote. The candidate is passed over.
unfoldable pub cast_vote : ℤ → ℕ → RaftNode → RaftNode × ℕ
cast_vote candidate_id candidate_term peer =
    ite (same_key peer.id candidate_id) (peer, 0)
      (ite (same_key peer.voted_for no_id)
        (if leb peer.term candidate_term
          then (record peer { term = candidate_term; voted_for = candidate_id }, 1)
          else (peer, 0))
        (ite (same_key peer.voted_for candidate_id)
          (if leb peer.term candidate_term
            then (record peer { term = candidate_term; voted_for = candidate_id }, 1)
            else (peer, 0))
          (peer, 0)))

-- The loop of `Elect` over the peers: the nodes afterwards, and the votes granted.
unfoldable pub collect_votes : ℤ → ℕ → Map ℤ RaftNode → Map ℤ RaftNode × ℕ
collect_votes candidate_id candidate_term [] = ([], 0)
collect_votes candidate_id candidate_term ((k, peer) ∷ nodes) =
    let (peer', vote) = cast_vote candidate_id candidate_term peer in
    let (nodes', votes) = collect_votes candidate_id candidate_term nodes in
    ((k, peer') ∷ nodes', vote + votes)

-- The loop of a won election over the roles.
unfoldable pub crown : ℤ → Map ℤ RaftNode → Map ℤ RaftNode
crown winner nodes =
    map_values (λ node. record node { role = ite (same_key node.id winner) leader follower }) nodes

-- `Elect` once the candidate is found.
unfoldable pub hold_election : RaftCluster → ℤ → RaftNode → RaftCluster × Bool
hold_election c candidate_id node =
    let standing : RaftNode = record node {
      role = candidate;
      term = node.term + 1;
      voted_for = node.id;
    } in
    let (nodes, granted) =
      collect_votes node.id (node.term + 1) (assign candidate_id standing c.nodes) in
    if ltb (length nodes / 2) (1 + granted)
    then (record { nodes = crown node.id nodes; leader_id = node.id }, true)
    else (record c { nodes = nodes }, false)

unfoldable pub elect : RaftCluster → ℤ → RaftCluster × Bool
unfolding hold_election
elect c candidate_id = elim (lookup candidate_id c.nodes) [
  | none ↦ (c, false)
  | some node ↦ hold_election c candidate_id node
]

-- The loop of `Append` over the peers: the nodes afterwards, and how many appended the entry.
unfoldable pub replicate_entry : ℤ → LogEntry → Map ℤ RaftNode → Map ℤ RaftNode × ℕ
replicate_entry leader_id entry [] = ([], 0)
replicate_entry leader_id entry ((k, peer) ∷ nodes) =
    let (nodes', replicated) = replicate_entry leader_id entry nodes in
    ite (same_key peer.id leader_id) ((k, peer) ∷ nodes', replicated)
      ((k, record peer { log = peer.log ++ entry ∷ [] }) ∷ nodes', suc replicated)

-- The loop that moves the commit index of every node.
unfoldable pub commit_all : ℤ → Map ℤ RaftNode → Map ℤ RaftNode
commit_all index nodes = map_values (λ node. record node { commit_index = index }) nodes

-- `Append` once the leader is found.
unfoldable pub append_at : RaftCluster → GoString → RaftNode → RaftCluster × Bool
append_at c command node =
    let entry : LogEntry = record { term = node.term; command = command } in
    let log = node.log ++ entry ∷ [] in
    let (nodes, replicated) =
      replicate_entry node.id entry (assign c.leader_id (record node { log = log }) c.nodes) in
    if ltb (length nodes / 2) (1 + replicated)
    then (record c { nodes = commit_all (sub_ℕ (length log) 1) nodes }, true)
    else (record c { nodes = nodes }, false)

-- `none` is the panic on a leader that is no node.
unfoldable pub append : RaftCluster → GoString → Option (RaftCluster × Bool)
unfolding append_at
append c command =
    ite (same_key c.leader_id no_id) (some (c, false))
      (map_some (append_at c command) (lookup c.leader_id c.nodes))

-- The loop of `CommittedCommands` from an index on.
unfoldable pub commands_from : ℕ → ℤ → List LogEntry → List GoString
commands_from i commit_index [] = []
commands_from i commit_index (entry ∷ log) =
    let rest = commands_from (i + 1) commit_index log in
    if leb_ℤ (pos i) commit_index then entry.command ∷ rest else []

-- `none` is the panic on a leader that is no node.
unfoldable pub committed_commands : RaftCluster → Option (List GoString)
unfolding commands_from
committed_commands c =
    ite (same_key c.leader_id no_id) (some [])
      (map_some (λ node. commands_from 0 node.commit_index node.log) (lookup c.leader_id c.nodes))

-- The calls of a client.
pub data Call : Type 0 where
  elect_call : ℤ → Call
  append_call : GoString → Call

unfoldable pub step : RaftCluster → Call → Option (RaftCluster × Bool)
unfolding elect append
step c (elect_call id) = some (elect c id)
step c (append_call command) = append c command

-- `none` is a panic on the way.
unfoldable pub run : RaftCluster → List Call → Option RaftCluster
unfolding step
run c [] = some c
run c (call ∷ calls) = elim (step c call) [ none ↦ none | some r ↦ run r.0 calls ]
