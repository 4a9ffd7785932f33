-- ===== src/Gossip/Tests.antt =====
-- Runs of the nodes of 33-Gossip-Protocol/main.go, and instances of their theorems.
use design_with_ts_go.Base.{
  merge_newer, ◌≡◌, refl, ◌↔◌, some, [], ◌∷◌, ℕ_discrete, nat_key, IsMap, lookup, assign, GoString,
  str, GoString-discrete, string_key, int_key,
}
use design_with_ts_go.Gossip.{GossipNode, new, set_value, merge, gossip_to, get}
use design_with_ts_go.Gossip.Convergence.{at, NoTie, gossip_to-agrees_iff}

program : Unit {0}
unfolding new set_value merge_newer merge gossip_to get lookup assign GoString-discrete ℕ_discrete
program = tt

abbrev leader : GoString
leader = str "leader"

abbrev n : GossipNode
n = record { id = str "n1"; state = (leader, record { value = str "n1"; version = 1 }) ∷ [] }

abbrev peer : GossipNode
peer = record {
  id = str "n2";
  state =
      (str "size", record { value = str "2"; version = 3 })
      ∷ (leader, record { value = str "n2"; version = 1 })
      ∷ [];
}

n_IsMap : IsMap n.state
unfolding program
n_IsMap = (refl, tt)

peer_IsMap : IsMap peer.state
unfolding program
peer_IsMap = (refl, (refl, tt))

-- A tie on the version stays: each node keeps its own value.
tie_stays :
    (get (gossip_to n peer).0 leader ≡ some (str "n1"))
    × (get (gossip_to n peer).1 leader ≡ some (str "n2"))
unfolding program
tie_stays = (refl, refl)

gossip_to-agrees_iff_example :
    (at (gossip_to n peer).0 leader ≡ at (gossip_to n peer).1 leader)
    ↔ NoTie (at n leader) (at peer leader)
gossip_to-agrees_iff_example = gossip_to-agrees_iff n peer leader n_IsMap peer_IsMap
