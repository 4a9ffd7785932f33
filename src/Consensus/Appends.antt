-- ===== src/Consensus/Appends.antt =====
-- Appending to the leader in 40-Consensus/main.go: every member of a led cluster takes the entry.
use design_with_ts_go.Base.{
  ℕ, ◌+◌, ◌/◌, ◌≤◌, ◌≡◌, refl, ap, ◌∙◌, ◌≢◌, ◌⊎◌, Bool, true, false, some, List, [], ◌∷◌, ◌++◌,
  arith, ltb, length, nat_key, same_key, Map, IsMap, lookup, assign, lookup-assign, assign-IsMap,
  GoString, string_key, Entries, map_values, Entries_map, length-map_values, lookup-map_values,
  map_values-IsMap, Entries-lookup, Entries_weaken, Entries-assign_ne, ite-elim, ℤ, sub_ℕ, int_key,
}
use design_with_ts_go.Consensus.{
  leader, LogEntry, RaftNode, RaftCluster, no_id, replicate_entry, commit_all, append_at,
}
use design_with_ts_go.Consensus.Counting.{appended, replicate_entry_nodes, replicated_all}
use design_with_ts_go.Consensus.FirstElection.{enough}
use design_with_ts_go.Consensus.Elections.{last_index, Follows, IsLed}

-- A node while the leader alone has the longer log.
record Half (a : ℤ) (sure : Bool) (log longer : List LogEntry) (k : ℤ) (node : RaftNode)
    : Type 0 where
  id : node.id ≡ k
  named : k ≢ no_id
  vote : (node.voted_for ≡ a) ⊎ (node.voted_for ≡ k)
  half : ((k ≡ a) × (node.log ≡ longer)) ⊎ ((k ≢ a) × (node.log ≡ log))
  crowned : node.role ≡ leader → k ≡ a
  reigns : (k ≢ a) ⊎ ((node.role ≡ leader) ⊎ (sure ≡ false))

Follows-Half :
    (sure : Bool) (a : ℤ) (log longer : List LogEntry) (k : ℤ) (node : RaftNode)
    → k ≢ a
    → Follows a sure log k node
    → Half a sure log longer k node
Follows-Half sure a log longer k node ne h = ground arith

appended-Follows :
    (sure : Bool) (a id : ℤ) (entry : LogEntry) (log : List LogEntry) (index : ℤ) (k : ℤ)
    (node : RaftNode)
    → id ≡ a
    → index ≡ last_index (log ++ entry ∷ [])
    → Half a sure log (log ++ entry ∷ []) k node
    → Follows a sure
        (log ++ entry ∷ [])
        k
        (record (appended id entry node) { commit_index = index })
appended-Follows sure a id entry log index k node e ei h =
    ite-elim (λ n. Follows a sure (log ++ entry ∷ []) k (record n { commit_index = index }))
      (same_key node.id id) node (record node { log = node.log ++ entry ∷ [] })
      (λ p. ground (arith, h, e, ei, p)) (λ p. ground (arith, h, e, ei, p))

module _ (sure : Bool) (a : ℤ) (log : List LogEntry) (c : RaftCluster) (node : RaftNode)
    (h : IsLed a sure log c) (found : lookup a c.nodes ≡ some node) where
  abbrev entry_of : GoString → LogEntry
  entry_of command = record { term = node.term; command = command }

  abbrev led_nodes : GoString → Map ℤ RaftNode
  led_nodes command = assign a (record node { log = node.log ++ entry_of command ∷ [] }) c.nodes

  led_nodes-Half :
      (command : GoString)
      → Entries (Half a sure log (log ++ entry_of command ∷ [])) (led_nodes command)
  led_nodes-Half command =
      let stands = Entries-lookup (Follows a sure log) a node c.nodes h.nodes found in
      Entries-assign_ne (Follows a sure log) (Half a sure log (log ++ entry_of command ∷ [])) a
        (record node { log = node.log ++ entry_of command ∷ [] }) c.nodes
        (λ k n ne f. Follows-Half sure a log (log ++ entry_of command ∷ []) k n ne f)
        (ground (arith, stands)) h.distinct h.nodes

  abbrev after_append : GoString → Map ℤ RaftNode × ℕ
  after_append command = replicate_entry node.id (entry_of command) (led_nodes command)

  led_nodes-IsMap : (command : GoString) → IsMap (led_nodes command)
  led_nodes-IsMap command =
      assign-IsMap a (record node { log = node.log ++ entry_of command ∷ [] }) c.nodes h.distinct

  append-majority :
      (command : GoString)
      → ltb (length (after_append command).0 / 2) (1 + (after_append command).1) ≡ true
  append-majority command =
      let all_append : length (led_nodes command) ≤ 1 + (after_append command).1 =
        replicated_all node.id (entry_of command) (led_nodes command)
          (Entries_weaken (Half a sure log (log ++ entry_of command ∷ [])) (λ k n. n.id ≡ k)
            (led_nodes command) (λ k n f. f.id) (led_nodes-Half command))
          (led_nodes-IsMap command) in
      enough (length (after_append command).0) (length (led_nodes command)) (after_append command).1
        (ap length (replicate_entry_nodes node.id (entry_of command) (led_nodes command))
          ∙ length-map_values (appended node.id (entry_of command)) (led_nodes command))
        all_append

  pub append_at-IsLed :
      (command : GoString)
      → ((append_at c command node).1 ≡ true)
        × IsLed a sure (log ++ entry_of command ∷ []) (append_at c command node).0
  unfolding append_at commit_all
  append_at-IsLed command =
      let stands = Entries-lookup (Follows a sure log) a node c.nodes h.nodes found in
      let longer = log ++ entry_of command ∷ [] in
      let index = sub_ℕ (length (node.log ++ entry_of command ∷ [])) 1 in
      let same_index : index ≡ last_index longer =
        ap (λ l. sub_ℕ (length (l ++ entry_of command ∷ [])) 1) stands.same_log in
      let g = appended node.id (entry_of command) in
      let f = λ (n : RaftNode). record n { commit_index = index } in
      let replicas : Entries (λ k n. Follows a sure longer k (f n))
          (map_values g (led_nodes command)) =
        Entries_map (Half a sure log longer) (λ k n. Follows a sure longer k (f n)) g
          (led_nodes command)
          (λ k n.
            appended-Follows sure a node.id (entry_of command) log index k n stands.id same_index)
          (led_nodes-Half command) in
      rw
        (
          h.leads,
          append-majority command,
          replicate_entry_nodes node.id (entry_of command) (led_nodes command),
        )
        (
          refl,
          record {
            nodes =
                Entries_map (λ k n. Follows a sure longer k (f n)) (Follows a sure longer) f
                  (map_values g (led_nodes command)) (λ k n q. q) replicas;
            distinct =
                map_values-IsMap f (map_values g (led_nodes command))
                  (map_values-IsMap g (led_nodes command) (led_nodes-IsMap command));
            leads = refl;
            member =
                rw
                  (
                    lookup-map_values a f (map_values g (led_nodes command)),
                    lookup-map_values a g (led_nodes command),
                    lookup-assign a a (record node { log = node.log ++ entry_of command ∷ [] })
                        c.nodes,
                  )
                  (ground arith);
            named = h.named;
          },
        )
