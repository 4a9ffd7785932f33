-- ===== src/Consensus/FirstElection.antt =====
-- The first election of 40-Consensus/main.go, in a cluster that has seen none.
use design_with_ts_go.Base.{
  ℕ, ◌+◌, ◌/◌, ◌≤◌, ◌≡◌, refl, ◌∙◌, ◌≢◌, ◌⊎◌, inl, true, false, some, [], arith, ltb, length,
  nat_key, lookup, assign, string_key, Entries, Entries-lookup, Entries_weaken, Entries-assign_ne,
  ℤ, int_key,
}
use design_with_ts_go.Consensus.{
  leader, RaftNode, RaftCluster, no_id, cast_vote, collect_votes, hold_election, elect,
}
use design_with_ts_go.Consensus.Counting.{voted, Votes-all}
use design_with_ts_go.Consensus.Elections.{
  Follows, IsLed, Fresh, IsFresh, standing, map-Entries, after_votes, after_votes-IsMap,
  length-after_votes, after_votes_member, crown_lem,
}

-- A node while the first candidate stands: it has not voted, or it is the candidate.
record Waits (first k : ℤ) (node : RaftNode) : Type 0 where
  id : node.id ≡ k
  named : k ≢ no_id
  vote :
      ((k ≢ first) × (node.voted_for ≡ no_id) × (node.term ≤ 1))
      ⊎ ((k ≡ first) × (node.voted_for ≡ first))
  log : node.log ≡ []
  committed : node.commit_index ≡ no_id
  role : node.role ≢ leader

Fresh-Waits : (first k : ℤ) (node : RaftNode) → k ≢ first → Fresh k node → Waits first k node
Fresh-Waits first k node ne h = ground arith

voted-Waits :
    (a first k : ℤ) (term : ℕ) (node : RaftNode)
    → first ≡ a
    → term ≡ 1
    → Waits first k node
    → Follows a false [] k (voted first term node)
unfolding cast_vote
voted-Waits a first k term node same e h = ground arith

Fresh-Votes :
    (k : ℤ) (term : ℕ) (node : RaftNode)
    → term ≡ 1
    → Fresh k node
    → (node.id ≡ k) × (node.voted_for ≡ no_id) × (node.term ≤ term)
Fresh-Votes k term node e h = ground arith

pub enough :
    (nodes all granted : ℕ) → nodes ≡ all → all ≤ 1 + granted → ltb (nodes / 2) (1 + granted) ≡ true
enough nodes all granted e h = ground arith

-- The first member that stands wins its election with the votes of all.
pub elect-first :
    (id : ℤ) (c : RaftCluster) (node : RaftNode)
    → IsFresh c
    → lookup id c.nodes ≡ some node
    → IsLed id true [] (elect c id).0 × ((elect c id).1 ≡ true)
unfolding elect hold_election
elect-first id c node h found =
    let fresh = Entries-lookup Fresh id node c.nodes h.nodes found in
    let term = node.term + 1 in
    let one : term ≡ 1 = omega (arith, fresh.term) in
    let stands = assign id (standing node) c.nodes in
    let waits : Entries (Waits node.id) stands =
      Entries-assign_ne Fresh (Waits node.id) id (standing node) c.nodes
        (λ k n ne f. Fresh-Waits node.id k n (λ e. ne (e ∙ fresh.id)) f) (ground (arith, fresh))
        h.distinct h.nodes in
    let votes = after_votes c id node h.distinct in
    let granted = (collect_votes node.id term stands).1 in
    let all_vote : length stands ≤ 1 + granted =
      Votes-all id term (standing node) c.nodes
        (Entries_weaken Fresh (λ k n. (n.id ≡ k) × (n.voted_for ≡ no_id) × (n.term ≤ term)) c.nodes
          (λ k n. Fresh-Votes k term n one) h.nodes)
        h.distinct fresh.id in
    let won : ltb (length votes / 2) (1 + granted) ≡ true =
      enough (length votes) (length stands) granted (length-after_votes c id node h.distinct)
        all_vote in
    rw (found, elect, won)
      (
        crown_lem false true id node.id [] votes fresh.id
            (map-Entries (Waits node.id) (Follows id false []) node.id term stands
              (λ k n. voted-Waits id node.id k term n fresh.id one) waits)
            (after_votes-IsMap c id node h.distinct)
            (after_votes_member c id node h.distinct id (inl refl)) fresh.named,
        refl,
      )
