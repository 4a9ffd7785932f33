-- ===== src/Gossip.antt =====
-- 33-Gossip-Protocol/main.go: a node's versioned state. `GossipTo` changes both nodes, and
-- returns both; the node and its peer are two nodes.
mod Convergence
mod Tests
use design_with_ts_go.Base.{
  merge_newer, ℕ, zero, suc, ◌+◌, ◌-◌, ◌*◌, ◌/◌, ◌%◌, ◌^◌, ◌≤◌, ◌<◌, max, min, ◌≡◌, refl, sym, ap,
  ◌∙◌, ◌≢◌, ◌↔◌, ◌⊎◌, inl, inr, ite, if_pos, if_neg, Bool, true, false, not, ◌&&◌, ◌||◌, Option,
  none, some, List, [], ◌∷◌, ◌++◌, arith, ℕ_discrete, ltb, leb, ◌==◌, if◌then◌else◌, Bool-cases,
  Option-cases, length, get_elem?, set, replicate, length-append, length-set, length-replicate, All,
  get_or, is_some, Key, nat_key, same_key, Map, IsMap, lookup, assign, delete, lookup-assign,
  lookup-delete, assign-IsMap, delete-IsMap, length-assign, GoString, str, GoString-discrete,
  string_key, fnv1a_from, fnv1a_from-lt, fnv1a, assign_all, or_else, map_some, lookup-assign_all,
  assign_all-IsMap, ◌+ℤ◌, total, total-assign, total_ext, ℤ, pos, negsuc, pos_part, neg_part, sub_ℕ,
  ◌≤ℤ◌, leb_ℤ, ltb_ℤ, ℤ-discrete, int_key, count_of, raise_all, count_of-raise_all, raise_all-IsMap,
}

pub record GossipValue : Type 0 where
  pub value : GoString
  pub version : ℕ

pub record GossipNode : Type 0 where
  pub id : GoString
  pub state : Map GoString GossipValue

unfoldable pub new : GoString → GossipNode
new id = record { id = id; state = [] }

-- `n.state[key].Version`: 0 for a missing key
abbrev pub version_of : Option GossipValue → ℕ
version_of none = 0
version_of (some v) = v.version

-- `Set`; the Go name is a helper's here.
unfoldable pub set_value : GossipNode → GoString → GoString → GossipNode
set_value n key value = record n {
  state =
      assign key (record { value = value; version = version_of (lookup key n.state) + 1 }) n.state;
}

unfoldable pub merge : GossipNode → Map GoString GossipValue → GossipNode
unfolding merge_newer
merge n remote = record n { state = merge_newer (λ v. v.version) remote n.state }

-- The node and its peer after the exchange.
unfoldable pub gossip_to : GossipNode → GossipNode → GossipNode × GossipNode
unfolding merge
gossip_to n peer = let peer' = merge peer n.state in (merge n peer'.state, peer')

unfoldable pub get : GossipNode → GoString → Option GoString
get n key = map_some (λ v. v.value) (lookup key n.state)
