-- ===== src/Consensus/Elections.antt =====
-- The elections of 40-Consensus/main.go: votes that are cast and kept.
use design_with_ts_go.Base.{
  ℕ, ◌+◌, ◌/◌, ◌≤◌, ◌≡◌, refl, sym, ◌∙◌, ◌≢◌, ◌⊎◌, inl, inr, ite, Bool, true, false, none, some,
  List, [], arith, ltb, Bool-cases, Option-cases, length, nat_key, same_key, Map, IsMap, lookup,
  assign, lookup-assign, assign-IsMap, string_key, map_some_ne, Entries, Entries_map,
  length-map_values, lookup-map_values, map_values-IsMap, Entries-assign, Entries-lookup,
  Entries_weaken, ℤ, sub_ℕ, int_key,
}
use design_with_ts_go.Consensus.{
  follower, candidate, leader, LogEntry, RaftNode, RaftCluster, no_id, cast_vote, collect_votes,
  crown, hold_election, elect,
}
use design_with_ts_go.Consensus.Counting.{voted, collect_votes_nodes, Denies, votes_none, two_nodes}

-- The commit index of a node whose log is committed to its end.
abbrev pub last_index : List LogEntry → ℤ
last_index log = sub_ℕ (length log) 1

-- A node of a cluster led by `a` whose log is `log`; where `sure` is true, the leader has the
-- leader's role.
pub record Follows (a : ℤ) (sure : Bool) (log : List LogEntry) (k : ℤ) (node : RaftNode)
    : Type 0 where
  pub id : node.id ≡ k
  pub named : k ≢ no_id
  pub vote : (node.voted_for ≡ a) ⊎ (node.voted_for ≡ k)
  pub same_log : node.log ≡ log
  pub committed : node.commit_index ≡ last_index log
  pub crowned : node.role ≡ leader → k ≡ a
  pub reigns : (k ≢ a) ⊎ ((node.role ≡ leader) ⊎ (sure ≡ false))

-- A cluster led by `a`, all of whose nodes hold `log`, committed to its end.
pub record IsLed (a : ℤ) (sure : Bool) (log : List LogEntry) (c : RaftCluster) : Type 0 where
  pub nodes : Entries (Follows a sure log) c.nodes
  pub distinct : IsMap c.nodes
  pub leads : c.leader_id ≡ a
  pub member : lookup a c.nodes ≢ none
  pub named : a ≢ no_id

-- A node that has seen no election.
pub record Fresh (k : ℤ) (node : RaftNode) : Type 0 where
  pub id : node.id ≡ k
  pub named : k ≢ no_id
  pub vote : node.voted_for ≡ no_id
  pub term : node.term ≡ 0
  pub log : node.log ≡ []
  pub committed : node.commit_index ≡ no_id
  pub role : node.role ≡ follower

pub record IsFresh (c : RaftCluster) : Type 0 where
  pub nodes : Entries Fresh c.nodes
  pub distinct : IsMap c.nodes
  pub leaderless : c.leader_id ≡ no_id

-- The node of the candidate while it stands.
abbrev pub standing : RaftNode → RaftNode
standing node = record node { role = candidate; term = node.term + 1; voted_for = node.id }

voted-Follows :
    (sure : Bool) (a id : ℤ) (term : ℕ) (log : List LogEntry) (k : ℤ) (node : RaftNode)
    → a ≢ no_id
    → Follows a sure log k node
    → Follows a sure log k (voted id term node)
unfolding cast_vote
voted-Follows sure a id term log k node ne h = ground arith

crown-Follows :
    (sure sure' : Bool) (a winner : ℤ) (log : List LogEntry) (k : ℤ) (node : RaftNode)
    → winner ≡ a
    → Follows a sure log k node
    → Follows a sure' log k (record node { role = ite (same_key node.id winner) leader follower })
crown-Follows sure sure' a winner log k node e h = ground arith

Follows-Denies :
    (sure : Bool) (a id : ℤ) (log : List LogEntry) (k : ℤ) (node : RaftNode)
    → id ≢ a
    → a ≢ no_id
    → Follows a sure log k node
    → Denies id k node
Follows-Denies sure a id log k node ne named h = elim (same_key k id) [
  | yes p ↦ inl (h.id ∙ p)
  | no p ↦ inr (ground (arith, h.named, h.vote))
]

pub map-Entries :
    (P Q : ℤ → RaftNode → Type 0) (id : ℤ) (term : ℕ) (nodes : Map ℤ RaftNode)
    → ((k : ℤ) (node : RaftNode) → P k node → Q k (voted id term node))
    → Entries P nodes
    → Entries Q (collect_votes id term nodes).0
map-Entries P Q id term nodes step h =
    rw (collect_votes_nodes id term nodes) (Entries_map P Q (voted id term) nodes step h)

-- The facts about the nodes after the votes that do not depend on how they were cast.
module _ (c : RaftCluster) (id : ℤ) (node : RaftNode) (distinct : IsMap c.nodes) where
  abbrev pub after_votes : Map ℤ RaftNode
  after_votes = (collect_votes node.id (node.term + 1) (assign id (standing node) c.nodes)).0

  pub after_votes-IsMap : IsMap after_votes
  after_votes-IsMap =
      rw (collect_votes_nodes node.id (node.term + 1) (assign id (standing node) c.nodes)) (
        map_values-IsMap (voted node.id (node.term + 1)) (assign id (standing node) c.nodes)
          (assign-IsMap id (standing node) c.nodes distinct))

  pub length-after_votes : length after_votes ≡ length (assign id (standing node) c.nodes)
  length-after_votes =
      rw (collect_votes_nodes node.id (node.term + 1) (assign id (standing node) c.nodes))
        (length-map_values (voted node.id (node.term + 1)) (assign id (standing node) c.nodes))

  pub after_votes_member :
      (a : ℤ) → (a ≡ id) ⊎ (lookup a c.nodes ≢ none) → lookup a after_votes ≢ none
  after_votes_member a h =
      rw
        (
          collect_votes_nodes node.id (node.term + 1) (assign id (standing node) c.nodes),
          lookup-map_values a (voted node.id (node.term + 1)) (assign id (standing node) c.nodes),
          lookup-assign a id (standing node) c.nodes,
        )
        (ground arith)

pub crown_lem :
    (sure sure' : Bool) (a winner : ℤ) (log : List LogEntry) (nodes : Map ℤ RaftNode)
    → winner ≡ a
    → Entries (Follows a sure log) nodes
    → IsMap nodes
    → lookup a nodes ≢ none
    → a ≢ no_id
    → IsLed a sure' log (record { nodes = crown winner nodes; leader_id = winner })
unfolding crown
crown_lem sure sure' a winner log nodes e h distinct member named =
    let f =
      λ (node : RaftNode). record node { role = ite (same_key node.id winner) leader follower } in
    record {
      nodes =
          Entries_map (Follows a sure log) (Follows a sure' log) f nodes
            (λ k n. crown-Follows sure sure' a winner log k n e) h;
      distinct = map_values-IsMap f nodes distinct;
      leads = e;
      member = rw (lookup-map_values a f nodes) (map_some_ne f (lookup a nodes) member);
      named = named;
    }

too_few : (nodes granted : ℕ) → 2 ≤ nodes → granted ≡ 0 → ltb (nodes / 2) (1 + granted) ≡ true → ⊥
too_few nodes granted two none_granted won = ground arith

-- Only the leader itself can win a later election.
only_leader_wins :
    (sure : Bool) (a id : ℤ) (log : List LogEntry) (c : RaftCluster) (node : RaftNode)
    → (id ≢ a) ⊎ (sure ≡ false)
    → (h : IsLed a sure log c) → lookup id c.nodes ≡ some node
    → ltb
        (length (after_votes c id node h.distinct) / 2)
        (1 + (collect_votes node.id (node.term + 1) (assign id (standing node) c.nodes)).1)
      ≡ true
    → node.id ≡ a
only_leader_wins sure a id log c node may h found won =
    let stands = Entries-lookup (Follows a sure log) id node c.nodes h.nodes found in
    let assigned : Entries (Follows a sure log) (assign id (standing node) c.nodes) =
      Entries-assign (Follows a sure log) id (standing node) c.nodes (ground (arith, stands, may))
        h.nodes in
    elim (same_key id a) [
      | yes p ↦ stands.id ∙ p
      | no p ↦
          let other : node.id ≢ a = λ e. p (sym stands.id ∙ e) in
          absurd (
            too_few (length (after_votes c id node h.distinct)) _
              (two_nodes a id (after_votes c id node h.distinct) (λ e. p (sym e))
                (after_votes_member c id node h.distinct a (inr h.member))
                (after_votes_member c id node h.distinct id (inl refl)))
              (votes_none node.id (node.term + 1) (assign id (standing node) c.nodes) (
                Entries_weaken (Follows a sure log) (Denies node.id)
                  (assign id (standing node) c.nodes)
                  (λ k n. Follows-Denies sure a node.id log k n other h.named) assigned))
              won)
    ]

-- In a led cluster an election of a member changes neither the leader nor the logs.
hold_election-IsLed :
    (sure : Bool) (a id : ℤ) (log : List LogEntry) (c : RaftCluster) (node : RaftNode)
    → (id ≢ a) ⊎ (sure ≡ false)
    → IsLed a sure log c
    → lookup id c.nodes ≡ some node
    → IsLed a sure log (hold_election c id node).0
unfolding hold_election
hold_election-IsLed sure a id log c node may h found =
    let stands = Entries-lookup (Follows a sure log) id node c.nodes h.nodes found in
    let assigned : Entries (Follows a sure log) (assign id (standing node) c.nodes) =
      Entries-assign (Follows a sure log) id (standing node) c.nodes (ground (arith, stands, may))
        h.nodes in
    let term = node.term + 1 in
    let after : Entries (Follows a sure log) (after_votes c id node h.distinct) =
      map-Entries (Follows a sure log) (Follows a sure log) node.id term
        (assign id (standing node) c.nodes)
        (λ k n. voted-Follows sure a node.id term log k n h.named) assigned in
    let votes = after_votes c id node h.distinct in
    let distinct = after_votes-IsMap c id node h.distinct in
    let member = after_votes_member c id node h.distinct a (inr h.member) in
    let granted = (collect_votes node.id term (assign id (standing node) c.nodes)).1 in
    elim (Bool-cases (ltb (length votes / 2) (1 + granted))) [
      | inl won ↦ rw won (
          crown_lem sure sure a node.id log votes
            (only_leader_wins sure a id log c node may h found won) after distinct member h.named)
      | inr lost ↦ rw lost (record {
        nodes = after;
        distinct = distinct;
        leads = h.leads;
        member = member;
        named = h.named;
      })
    ]

-- Whether the leader surely keeps its role when a node stands.
abbrev pub keeps : ℤ → ℤ → Bool → Bool
keeps a id sure = ite (same_key id a) false sure

Follows-keeps :
    (sure : Bool) (a id : ℤ) (log : List LogEntry) (k : ℤ) (node : RaftNode)
    → Follows a sure log k node
    → Follows a (keeps a id sure) log k node
Follows-keeps sure a id log k node h = ground arith

IsLed-keeps :
    (sure : Bool) (a id : ℤ) (log : List LogEntry) (c : RaftCluster)
    → IsLed a sure log c
    → IsLed a (keeps a id sure) log c
IsLed-keeps sure a id log c h = record {
  nodes =
      Entries_weaken (Follows a sure log) (Follows a (keeps a id sure) log) c.nodes
        (λ k n. Follows-keeps sure a id log k n) h.nodes;
  distinct = h.distinct;
  leads = h.leads;
  member = h.member;
  named = h.named;
}

-- In a led cluster any election leaves the leader and the logs as they are.
pub elect-IsLed :
    (sure : Bool) (a id : ℤ) (log : List LogEntry) (c : RaftCluster)
    → IsLed a sure log c
    → IsLed a (keeps a id sure) log (elect c id).0
unfolding elect
elect-IsLed sure a id log c h =
    let kept = IsLed-keeps sure a id log c h in
    elim (Option-cases (lookup id c.nodes)) [
      | inl absent ↦ rw (absent, elect) kept
      | inr (node, found) ↦
          rw (found, elect)
            (hold_election-IsLed (keeps a id sure) a id log c node (ground arith) kept found)
    ]
