-- ===== src/LeaderElection.antt =====
-- 31-Leader-Election/main.go: the bully election. A method that changes its receiver returns the
-- new cluster; node ids are integers, and -1 stands for no leader, as in the program.
mod Bully
mod Tests
use design_with_ts_go.Base.{
  ℕ, zero, suc, ◌+◌, ◌-◌, ◌*◌, ◌/◌, ◌%◌, ◌^◌, ◌≤◌, ◌<◌, max, min, ◌≡◌, refl, sym, ap, ◌∙◌, ◌≢◌, ◌↔◌,
  ◌⊎◌, inl, inr, ite, if_pos, if_neg, Bool, true, false, not, ◌&&◌, ◌||◌, Option, none, some, List,
  [], ◌∷◌, ◌++◌, arith, ℕ_discrete, ltb, leb, ◌==◌, if◌then◌else◌, Bool-cases, Option-cases, length,
  get_elem?, set, replicate, length-append, length-set, length-replicate, All, get_or, is_some, Key,
  nat_key, same_key, Map, IsMap, lookup, assign, delete, lookup-assign, lookup-delete, assign-IsMap,
  delete-IsMap, length-assign, GoString, str, GoString-discrete, string_key, fnv1a_from,
  fnv1a_from-lt, fnv1a, assign_all, or_else, map_some, keys, All-keys, lookup-All-keys, IsOrder,
  insert, sort, IsSorted, All-insert, All-sort, sort-All, sort-IsSorted, leb_string,
  leb_string-IsOrder, is_newer, newer, merge_newer, lookup-merge_newer, merge_newer-IsMap,
  get_elem?-lt, get_elem?-set, All-get, All-map, lookup-assign_all, assign_all-IsMap, ◌+ℤ◌, total,
  total-assign, total_ext, ℤ, pos, negsuc, pos_part, neg_part, sub_ℕ, ◌≤ℤ◌, leb_ℤ, ltb_ℤ,
  ℤ-discrete, int_key, count_of, raise_all, count_of-raise_all, raise_all-IsMap,
}

-- The strings "follower" and "leader".
pub data Role : Type 0 where
  follower leader : Role

pub record BullyElectionCluster : Type 0 where
  pub alive : Map ℤ Bool
  pub roles : Map ℤ Role
  pub leader_id : ℤ

-- The last entry of the sorted ids, -1 if there is none.
unfoldable pub last_or_none : List ℤ → ℤ
last_or_none [] = negsuc 0
last_or_none (id ∷ []) = id
last_or_none (id ∷ id' ∷ ids) = last_or_none (id' ∷ ids)

-- The loop of `Elect` over the roles.
unfoldable pub assign_roles : ℤ → Map ℤ Role → Map ℤ Role
assign_roles winner [] = []
assign_roles winner ((id, _) ∷ roles) =
    (id, ite (same_key id winner) leader follower) ∷ assign_roles winner roles

unfoldable pub elect : BullyElectionCluster → BullyElectionCluster
unfolding last_or_none assign_roles
elect c =
    let winner = last_or_none (sort leb_ℤ (keys c.alive)) in
    record c { leader_id = winner; roles = assign_roles winner c.roles }

-- The loop of `NewBullyElectionCluster`.
unfoldable pub add_nodes : List ℤ → BullyElectionCluster → BullyElectionCluster
add_nodes [] c = c
add_nodes (id ∷ ids) c =
    add_nodes ids (record c { alive = assign id true c.alive; roles = assign id follower c.roles })

unfoldable pub new : List ℤ → BullyElectionCluster
unfolding add_nodes elect
new node_ids = elect (add_nodes node_ids (record { alive = []; roles = []; leader_id = negsuc 0 }))

unfoldable pub fail : BullyElectionCluster → ℤ → BullyElectionCluster
unfolding elect
fail c node_id = elim (lookup node_id c.alive) [
  | none ↦ c
  | some _ ↦
      let c' = record c { alive = delete node_id c.alive } in
      ite (same_key c'.leader_id node_id) (elect c') c'
]

unfoldable pub recover : BullyElectionCluster → ℤ → BullyElectionCluster
unfolding elect
recover c node_id = elect (record c { alive = assign node_id true c.alive })

pub data Event : Type 0 where
  fail_event : ℤ → Event
  recover_event : ℤ → Event

unfoldable pub run : BullyElectionCluster → List Event → BullyElectionCluster
unfolding fail recover
run c [] = c
run c (fail_event id ∷ events) = run (fail c id) events
run c (recover_event id ∷ events) = run (recover c id) events
