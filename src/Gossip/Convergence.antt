-- ===== src/Gossip/Convergence.antt =====
-- What one exchange of 33-Gossip-Protocol/main.go achieves, and when it leaves two nodes apart.
use design_with_ts_go.Base.{
  newer, merge_newer, lookup-merge_newer, merge_newer-IsMap, ◌↔◌, ◌+◌, ◌≤◌, max, ◌≡◌, refl, Option,
  none, some, arith, nat_key, IsMap, lookup, lookup-assign, assign-IsMap, GoString, string_key,
  int_key,
}
use design_with_ts_go.Gossip.{get, set_value, GossipValue, GossipNode, version_of, gossip_to}

abbrev pub at : GossipNode → GoString → Option GossipValue
at n key = lookup key n.state

abbrev newest : Option GossipValue → Option GossipValue → Option GossipValue
newest = newer (λ v. v.version)

-- The two nodes hold no two values of one version for the key.
abbrev pub NoTie : Option GossipValue → Option GossipValue → Type 0
NoTie (some a) (some b) = a.version ≡ b.version → a ≡ b
NoTie a b = Unit

module _ (n peer : GossipNode) (hn : IsMap n.state) (hp : IsMap peer.state) (key : GoString) where
  at-gossip_to :
      (at (gossip_to n peer).1 key ≡ newest (at peer key) (at n key))
      × (at (gossip_to n peer).0 key ≡ newest (at n key) (newest (at peer key) (at n key)))
  unfolding gossip_to
  at-gossip_to =
      let to_peer = lookup-merge_newer (λ v. v.version) key n.state peer.state hn in
      (
        to_peer,
        rw (
          lookup-merge_newer (λ v. v.version) key (merge_newer (λ v. v.version) n.state peer.state)
              n.state (merge_newer-IsMap (λ v. v.version) n.state peer.state hp),
          to_peer,
        ),
      )

  -- After an exchange both nodes hold the larger of the two versions of the key.
  pub version-gossip_to :
      (version_of (at (gossip_to n peer).0 key)
        ≡ max (version_of (at n key)) (version_of (at peer key)))
      × (version_of (at (gossip_to n peer).1 key)
          ≡ max (version_of (at n key)) (version_of (at peer key)))
  version-gossip_to = rw (at-gossip_to.0, at-gossip_to.1) (both (at n key) (at peer key))
    where
      both :
          (a b : Option GossipValue)
          → (version_of (newest a (newest b a)) ≡ max (version_of a) (version_of b))
            × (version_of (newest b a) ≡ max (version_of a) (version_of b))
      both a b = ground arith

-- An exchange leaves both nodes with the same entry for the key exactly when they did not hold
-- two values of one version for it: a tie is never resolved.
pub gossip_to-agrees_iff :
    (n peer : GossipNode) (key : GoString)
    → IsMap n.state
    → IsMap peer.state
    → (at (gossip_to n peer).0 key ≡ at (gossip_to n peer).1 key) ↔ NoTie (at n key) (at peer key)
gossip_to-agrees_iff n peer key hn hp =
    let (at_peer, at_n) = at-gossip_to n peer hn hp key in
    rw (at_n, at_peer) (there (at n key) (at peer key), back (at n key) (at peer key))
  where
    there : (a b : Option GossipValue) → newest a (newest b a) ≡ newest b a → NoTie a b
    there none none e = tt
    there none (some b) e = tt
    there (some a) none e = tt
    there (some a) (some b) e = λ same. ground arith

    back : (a b : Option GossipValue) → NoTie a b → newest a (newest b a) ≡ newest b a
    back none none h = refl
    back none (some b) h = refl
    back (some a) none h = ground arith
    back (some a) (some b) h = ground (arith, h)

-- A local write outdates every copy of the key's older entry: after the writer gossips, the peer
-- holds the written value, if its own version was not ahead of the writer's old one.
pub get-set_gossip :
    (n peer : GossipNode) (key value : GoString)
    → IsMap n.state
    → version_of (at peer key) ≤ version_of (at n key)
    → get (gossip_to (set_value n key value) peer).1 key ≡ some value
unfolding get set_value
get-set_gossip n peer key value hn h =
    let written : GossipValue = record { value = value; version = version_of (at n key) + 1 } in
    let n' = set_value n key value in
    rw (at-peer n' peer key (assign-IsMap key written n.state hn))
      (ground (arith, lookup-assign key key written n.state))
  where
    at-peer :
        (m peer : GossipNode) (key : GoString)
        → IsMap m.state
        → at (gossip_to m peer).1 key ≡ newest (at peer key) (at m key)
    at-peer m peer key h =
        unfold gossip_to in lookup-merge_newer (λ v. v.version) key m.state peer.state h
