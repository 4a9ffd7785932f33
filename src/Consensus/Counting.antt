-- ===== src/Consensus/Counting.antt =====
-- How many nodes take part in a vote or a replication of 40-Consensus/main.go.
use design_with_ts_go.Base.{
  ℕ, ◌+◌, ◌≤◌, ◌≡◌, refl, ◌≢◌, ◌⊎◌, ite, none, [], ◌∷◌, ◌++◌, arith, length, nat_key, same_key, Map,
  IsMap, lookup, assign, string_key, Entries, map_values, ℤ, int_key,
}
use design_with_ts_go.Consensus.{
  RaftNode, LogEntry, no_id, cast_vote, collect_votes, replicate_entry,
}

abbrev pub voted : ℤ → ℕ → RaftNode → RaftNode
voted candidate_id candidate_term peer = (cast_vote candidate_id candidate_term peer).0

pub collect_votes_nodes :
    (id : ℤ) (term : ℕ) (nodes : Map ℤ RaftNode)
    → (collect_votes id term nodes).0 ≡ map_values (voted id term) nodes
unfolding collect_votes
collect_votes_nodes id term [] = refl
collect_votes_nodes id term ((k, peer) ∷ nodes) = rw (collect_votes_nodes id term nodes)

abbrev pub appended : ℤ → LogEntry → RaftNode → RaftNode
appended leader_id entry peer =
    ite (same_key peer.id leader_id) peer (record peer { log = peer.log ++ entry ∷ [] })

pub replicate_entry_nodes :
    (id : ℤ) (entry : LogEntry) (nodes : Map ℤ RaftNode)
    → (replicate_entry id entry nodes).0 ≡ map_values (appended id entry) nodes
unfolding replicate_entry
replicate_entry_nodes id entry [] = refl
replicate_entry_nodes id entry ((k, peer) ∷ nodes) =
    ground (arith, replicate_entry_nodes id entry nodes)

abbrev KeyIsId : ℤ → RaftNode → Type 0
KeyIsId k node = node.id ≡ k

-- Without the node that is passed over, every node replicates; it stands in the map at most once.
replicated_absent :
    (id : ℤ) (entry : LogEntry) (nodes : Map ℤ RaftNode)
    → Entries KeyIsId nodes
    → lookup id nodes ≡ none
    → (replicate_entry id entry nodes).1 ≡ length nodes
unfolding replicate_entry lookup
replicated_absent id entry [] h e = refl
replicated_absent id entry ((k, peer) ∷ nodes) h e =
    ground (arith, h.0, replicated_absent id entry nodes h.1)

pub replicated_all :
    (id : ℤ) (entry : LogEntry) (nodes : Map ℤ RaftNode)
    → Entries KeyIsId nodes
    → IsMap nodes
    → length nodes ≤ 1 + (replicate_entry id entry nodes).1
unfolding replicate_entry
replicated_all id entry [] h m = omega arith
replicated_all id entry ((k, peer) ∷ nodes) h m =
    ground (arith, h.0, replicated_all id entry nodes h.1 m.1, replicated_absent id entry nodes h.1)

-- A peer that has not voted, and whose term is not ahead, grants its vote.
abbrev Votes : ℕ → ℤ → RaftNode → Type 0
Votes term k node = (node.id ≡ k) × (node.voted_for ≡ no_id) × (node.term ≤ term)

Votes-absent :
    (id : ℤ) (term : ℕ) (nodes : Map ℤ RaftNode)
    → Entries (Votes term) nodes
    → lookup id nodes ≡ none
    → (collect_votes id term nodes).1 ≡ length nodes
unfolding collect_votes cast_vote lookup
Votes-absent id term [] h e = refl
Votes-absent id term ((k, peer) ∷ nodes) h e = ground (arith, h.0, Votes-absent id term nodes h.1)

-- The candidate aside, all of them vote for it.
pub Votes-all :
    (id : ℤ) (term : ℕ) (candidate_node : RaftNode) (nodes : Map ℤ RaftNode)
    → Entries (Votes term) nodes
    → IsMap nodes
    → candidate_node.id ≡ id
    → length (assign id candidate_node nodes)
      ≤ 1 + (collect_votes candidate_node.id term (assign id candidate_node nodes)).1
unfolding collect_votes cast_vote assign
Votes-all id term c [] h m e = omega arith
Votes-all id term c ((k, peer) ∷ nodes) h m e =
    ground (arith, h.0, Votes-all id term c nodes h.1 m.1 e, Votes-absent c.id term nodes h.1)

-- A peer that has voted for another than the candidate denies its vote.
abbrev pub Denies : ℤ → ℤ → RaftNode → Type 0
Denies id k node = (node.id ≡ id) ⊎ ((node.voted_for ≢ no_id) × (node.voted_for ≢ id))

pub votes_none :
    (id : ℤ) (term : ℕ) (nodes : Map ℤ RaftNode)
    → Entries (Denies id) nodes
    → (collect_votes id term nodes).1 ≡ 0
unfolding collect_votes cast_vote
votes_none id term [] h = refl
votes_none id term ((k, peer) ∷ nodes) h = ground (arith, h.0, votes_none id term nodes h.1)

-- Two nodes are at least two.
pub two_nodes :
    (a b : ℤ) (nodes : Map ℤ RaftNode)
    → a ≢ b
    → lookup a nodes ≢ none
    → lookup b nodes ≢ none
    → 2 ≤ length nodes
unfolding lookup
two_nodes a b [] ne ha hb = absurd (ha refl)
two_nodes a b (e ∷ []) ne ha hb = ground (arith, ha, hb)
two_nodes a b (e ∷ f ∷ nodes) ne ha hb = omega arith
