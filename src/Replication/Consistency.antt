-- ===== src/Replication/Consistency.antt =====
-- What reads of 38-Replication/main.go return.
use design_with_ts_go.Base.{
  All-get, All-map, ℕ, zero, suc, ◌≡◌, refl, sym, ap, ◌∙◌, ite, Bool, true, false, Option, none,
  some, List, [], ◌∷◌, arith, get_elem?, replicate, All, nat_key, same_key, Map, IsMap, lookup,
  assign, lookup-assign, assign-IsMap, GoString, string_key, or_else, lookup-assign_all, ℤ, pos,
  negsuc, int_key,
}
use design_with_ts_go.Replication.{
  PrimaryReplicaStore, new, write_replicas, write, read_from, read, promote, failover, Call,
  write_call, failover_call, run,
}

abbrev Agrees : Map GoString GoString → Map GoString GoString → Type 0
Agrees m replica = IsMap replica × ((key : GoString) → lookup key replica ≡ lookup key m)

-- Every replica answers as the primary does.
abbrev pub IsSynced : PrimaryReplicaStore → Type 0
IsSynced s = All (Agrees s.primary) s.replicas

new-All : (n : ℕ) → All (Agrees []) (replicate n [])
unfolding lookup
new-All zero = tt
new-All (suc n) = ((tt, λ key. refl), new-All n)

write_replicas-All :
    (key value : GoString) (m : Map GoString GoString) (replicas : List (Map GoString GoString))
    → All (Agrees m) replicas
    → All (Agrees (assign key value m)) (write_replicas key value replicas)
unfolding write_replicas
write_replicas-All key value m [] h = tt
write_replicas-All key value m (r ∷ replicas) h = (
  (
    assign-IsMap key value r h.0.0,
    λ k. rw (lookup-assign k key value r, lookup-assign k key value m, h.0.1 k),
  ),
  write_replicas-All key value m replicas h.1,
)

write-IsSynced :
    (s : PrimaryReplicaStore) (key value : GoString) → IsSynced s → IsSynced (write s key value)
unfolding write
write-IsSynced s key value h = write_replicas-All key value s.primary s.replicas h

or_else-none : {A : Type 0} (o : Option A) → or_else o none ≡ o
or_else-none none = refl
or_else-none (some a) = refl

-- A failover either refuses an index out of range, or promotes a replica whose answers are the
-- old primary's.
failover-primary :
    (s : PrimaryReplicaStore) (index : ℤ) (key : GoString)
    → IsSynced s
    → lookup key (failover s index).0.primary ≡ lookup key s.primary
unfolding failover lookup
failover-primary s (negsuc _) key h = refl
failover-primary s (pos i) key h = promoted (get_elem? s.replicas i) refl
  where
    promoted :
        (r : Option (Map GoString GoString))
        → get_elem? s.replicas i ≡ r
        → lookup key (promote s r).0.primary ≡ lookup key s.primary
    promoted none e = refl
    promoted (some replica) e =
        let agrees = All-get (Agrees s.primary) s.replicas i replica h e in
        rw (lookup-assign_all key replica [] agrees.0, agrees.1 key)
          (or_else-none (lookup key s.primary))

Agrees-trans :
    (m p : Map GoString GoString)
    → ((key : GoString) → lookup key p ≡ lookup key m)
    → (r : Map GoString GoString) → Agrees m r
    → Agrees p r
Agrees-trans m p e r h = (h.0, λ key. h.1 key ∙ sym (e key))

failover-replicas :
    (s : PrimaryReplicaStore) (index : ℤ) → (failover s index).0.replicas ≡ s.replicas
unfolding failover
failover-replicas s (negsuc _) = refl
failover-replicas s (pos i) = ground arith

failover-IsSynced :
    (s : PrimaryReplicaStore) (index : ℤ) → IsSynced s → IsSynced (failover s index).0
failover-IsSynced s index h = rw (failover-replicas s index) (
    All-map (Agrees s.primary) (Agrees (failover s index).0.primary) s.replicas
      (Agrees-trans s.primary (failover s index).0.primary (λ key. failover-primary s index key h))
      h)

-- A read answers alike from the primary and from a replica.
read-IsSynced :
    (s : PrimaryReplicaStore) (key : GoString) (from_replica : Bool)
    → IsSynced s
    → read s key from_replica ≡ lookup key s.primary
unfolding read
read-IsSynced s key from_replica h = by_replicas s.replicas h from_replica
  where
    by_replicas :
        (rs : List (Map GoString GoString))
        → All (Agrees s.primary) rs
        → (b : Bool) → read_from rs s key b ≡ lookup key s.primary
    by_replicas [] hs b = refl
    by_replicas (r ∷ rs) hs true = hs.0.1 key
    by_replicas (r ∷ rs) hs false = refl

-- The value of the last write of the key, if the calls write it.
abbrev pub last_written : GoString → Option GoString → List Call → Option GoString
last_written key last [] = last
last_written key last (write_call k value ∷ calls) =
    last_written key (ite (same_key k key) (some value) last) calls
last_written key last (failover_call _ ∷ calls) = last_written key last calls

run_reads :
    (s : PrimaryReplicaStore) (calls : List Call) (key : GoString) (from_replica : Bool)
    → IsSynced s
    → read (run s calls) key from_replica ≡ last_written key (lookup key s.primary) calls
unfolding run
run_reads s [] key from_replica h = read-IsSynced s key from_replica h
run_reads s (write_call k value ∷ calls) key from_replica h =
    run_reads (write s k value) calls key from_replica (write-IsSynced s k value h)
    ∙ ap (λ o. last_written key o calls) (written k value)
  where
    written :
        (k value : GoString)
        → lookup key (write s k value).primary
          ≡ ite (same_key k key) (some value) (lookup key s.primary)
    written k value = unfold write in lookup-assign key k value s.primary
run_reads s (failover_call index ∷ calls) key from_replica h =
    run_reads (failover s index).0 calls key from_replica (failover-IsSynced s index h)
    ∙ ap (λ o. last_written key o calls) (failover-primary s index key h)

-- After any writes and failovers, with indices in range or not, a read from the primary and one
-- from a replica both answer the last value written under the key.
pub read-run :
    (replica_count : ℕ) (calls : List Call) (key : GoString) (from_replica : Bool)
    → read (run (new replica_count) calls) key from_replica ≡ last_written key none calls
unfolding new lookup
read-run replica_count calls key from_replica =
    run_reads (new replica_count) calls key from_replica (new-All replica_count)
