-- ===== src/LeaderElection/Bully.antt =====
-- Who leads the cluster of 31-Leader-Election/main.go.
use design_with_ts_go.Base.{
  ite-elim, ◌≡◌, refl, sym, ◌≢◌, ◌⊎◌, inl, inr, ite, Bool, true, Option, none, some, List, [], ◌∷◌,
  arith, Option-cases, All, nat_key, same_key, Map, lookup, assign, delete, lookup-delete,
  string_key, keys, All-keys, lookup-All-keys, IsOrder, sort, IsSorted, All-sort, sort-All,
  sort-IsSorted, ℤ, negsuc, ◌≤ℤ◌, leb_ℤ, int_key,
}
use design_with_ts_go.LeaderElection.{
  BullyElectionCluster, Role, follower, leader, last_or_none, assign_roles, elect, add_nodes, new,
  fail, recover, Event, fail_event, recover_event, run,
}

leb_ℤ-IsOrder : IsOrder leb_ℤ
leb_ℤ-IsOrder = record { total = λ a b h. ground arith; trans = λ a b c h k. ground arith }

-- The node is alive, and no live node is larger; without a live node it is -1.
abbrev pub Leads : Map ℤ Bool → ℤ → Type 0
Leads alive l =
    ((lookup l alive ≢ none) × ((id : ℤ) → lookup id alive ≢ none → id ≤ℤ l))
    ⊎ (((id : ℤ) → lookup id alive ≡ none) × (l ≡ negsuc 0))

-- The leader leads, and of the known nodes exactly the leader has the leader's role.
abbrev pub IsElected : BullyElectionCluster → Type 0
IsElected c =
    Leads c.alive c.leader_id
    × ((id : ℤ) (role : Role)
        → lookup id c.roles ≡ some role
        → role ≡ ite (same_key id c.leader_id) leader follower)

last-All : (P : ℤ → Type 0) (id : ℤ) (ids : List ℤ) → All P (id ∷ ids) → P (last_or_none (id ∷ ids))
unfolding last_or_none
last-All P id [] h = h.0
last-All P id (id' ∷ ids) h = last-All P id' ids h.1

last_max :
    (id : ℤ) (ids : List ℤ)
    → IsSorted leb_ℤ (id ∷ ids)
    → All (λ y. y ≤ℤ last_or_none (id ∷ ids)) (id ∷ ids)
unfolding last_or_none
last_max id [] h = (omega arith, tt)
last_max id (id' ∷ ids) h =
    let below = last-All (λ y. leb_ℤ id y ≡ true) id' ids h.0 in
    (ground arith, last_max id' ids h.1)

lookup-assign_roles :
    (id winner : ℤ) (role : Role) (roles : Map ℤ Role)
    → lookup id (assign_roles winner roles) ≡ some role
    → role ≡ ite (same_key id winner) leader follower
unfolding assign_roles lookup
lookup-assign_roles id winner role [] h = cc
lookup-assign_roles id winner role ((j, r) ∷ roles) h =
    ground (arith, lookup-assign_roles id winner role roles)

winner-Leads : (alive : Map ℤ Bool) → Leads alive (last_or_none (sort leb_ℤ (keys alive)))
winner-Leads alive = by_sorted (sort leb_ℤ (keys alive)) refl
  where
    by_sorted : (ids : List ℤ) → sort leb_ℤ (keys alive) ≡ ids → Leads alive (last_or_none ids)
    by_sorted [] e = inr (λ id. absent id (lookup id alive) refl, unfold last_or_none in refl)
      where
        absent : (id : ℤ) (o : Option Bool) → lookup id alive ≡ o → lookup id alive ≡ none
        absent id none f = f
        absent id (some b) f = absurd (
            lookup-All-keys (λ _. ⊥) alive id (sort-All leb_ℤ (λ _. ⊥) (keys alive) (rw e tt))
              (λ g. cc))
    by_sorted (id ∷ ids) e =
        let top = last_or_none (id ∷ ids) in
        let present =
          rw e at (All-sort leb_ℤ (λ y. lookup y alive ≢ none) (keys alive) (All-keys alive)) in
        let sorted = rw e at (sort-IsSorted leb_ℤ leb_ℤ-IsOrder (keys alive)) in
        inl (
          last-All (λ y. lookup y alive ≢ none) id ids present,
          λ id' found.
              lookup-All-keys (λ y. y ≤ℤ top) alive id'
                (sort-All leb_ℤ (λ y. y ≤ℤ top) (keys alive) (rw e (last_max id ids sorted))) found,
        )

elect-IsElected : (c : BullyElectionCluster) → IsElected (elect c)
unfolding elect
elect-IsElected c = (
  winner-Leads c.alive,
  λ id role found.
      lookup-assign_roles id (last_or_none (sort leb_ℤ (keys c.alive))) role c.roles found,
)

-- A node that fails without being the leader leaves the leader the largest.
fail-Leads :
    (alive : Map ℤ Bool) (id l : ℤ)
    → id ≢ l
    → Leads alive l
    → lookup id alive ≢ none
    → Leads (delete id alive) l
fail-Leads alive id l ne (inl (present, top)) found = inl (
  λ e. ground (arith, present, lookup-delete l id alive),
  λ k f. top k (λ g. f (ground (arith, lookup-delete k id alive))),
)
fail-Leads alive id l ne (inr (empty, e)) found = absurd (found (empty id))

fail-IsElected : (c : BullyElectionCluster) (id : ℤ) → IsElected c → IsElected (fail c id)
unfolding fail
fail-IsElected c id (leads, roles) = elim (Option-cases (lookup id c.alive)) [
  | inl absent ↦ rw (absent, fail) (leads, roles)
  | inr (b, found) ↦
      let c' = record c { alive = delete id c.alive } in
      rw (found, fail)
        (ite-elim IsElected (same_key c.leader_id id) (elect c') c' (λ p. elect-IsElected c')
          (λ p. (fail-Leads c.alive id c.leader_id (λ q. p (sym q)) leads (λ e. cc), roles)))
]

run-IsElected :
    (c : BullyElectionCluster) (events : List Event) → IsElected c → IsElected (run c events)
unfolding run recover
run-IsElected c [] h = h
run-IsElected c (fail_event id ∷ events) h =
    run-IsElected (fail c id) events (fail-IsElected c id h)
run-IsElected c (recover_event id ∷ events) h =
    run-IsElected (recover c id) events
      (elect-IsElected (record c { alive = assign id true c.alive }))

-- After any failures and recoveries, the leader of a cluster is its largest live node, or -1 when
-- no node is alive; and of the nodes with a role, the leader and nobody else has the leader's.
pub new-run-IsElected :
    (node_ids : List ℤ) (events : List Event) → IsElected (run (new node_ids) events)
unfolding new
new-run-IsElected node_ids events =
    run-IsElected (new node_ids) events (
      elect-IsElected
        (add_nodes node_ids (record { alive = []; roles = []; leader_id = negsuc 0 })))
