-- ===== src/Replication.antt =====
-- 38-Replication/main.go: a primary map and its replicas, written synchronously.
-- A method that changes its receiver returns the new store. `int` indices are integers.
mod Consistency
mod Tests
use design_with_ts_go.Base.{
  ℕ, zero, suc, ◌+◌, ◌-◌, ◌*◌, ◌/◌, ◌%◌, ◌^◌, ◌≤◌, ◌<◌, max, min, ◌≡◌, refl, sym, ap, ◌∙◌, ◌≢◌, ◌↔◌,
  ◌⊎◌, inl, inr, ite, if_pos, if_neg, Bool, true, false, not, ◌&&◌, ◌||◌, Option, none, some, List,
  [], ◌∷◌, ◌++◌, arith, ℕ_discrete, ltb, leb, ◌==◌, if◌then◌else◌, Bool-cases, Option-cases, length,
  get_elem?, set, replicate, length-append, length-set, length-replicate, All, get_or, is_some, Key,
  nat_key, same_key, Map, IsMap, lookup, assign, delete, lookup-assign, lookup-delete, assign-IsMap,
  delete-IsMap, length-assign, GoString, str, GoString-discrete, string_key, fnv1a_from,
  fnv1a_from-lt, fnv1a, assign_all, or_else, map_some, lookup-assign_all, assign_all-IsMap, ◌+ℤ◌,
  total, total-assign, total_ext, ℤ, pos, negsuc, pos_part, neg_part, sub_ℕ, ◌≤ℤ◌, leb_ℤ, ltb_ℤ,
  ℤ-discrete, int_key, count_of, raise_all, count_of-raise_all, raise_all-IsMap,
}

pub record PrimaryReplicaStore : Type 0 where
  pub primary : Map GoString GoString
  pub replicas : List (Map GoString GoString)

-- `make` panics on a negative count, which is left out.
unfoldable pub new : ℕ → PrimaryReplicaStore
new replica_count = record { primary = []; replicas = replicate replica_count [] }

-- The loop of `Write` over the replicas.
unfoldable pub write_replicas :
    GoString → GoString → List (Map GoString GoString) → List (Map GoString GoString)
write_replicas key value [] = []
write_replicas key value (replica ∷ replicas) =
    assign key value replica ∷ write_replicas key value replicas

unfoldable pub write : PrimaryReplicaStore → GoString → GoString → PrimaryReplicaStore
unfolding write_replicas
write s key value = record {
  primary = assign key value s.primary;
  replicas = write_replicas key value s.replicas;
}

-- `s.replicas[0][key]` if there is a replica to read from, else the primary.
unfoldable pub read_from :
    List (Map GoString GoString) → PrimaryReplicaStore → GoString → Bool → Option GoString
read_from (replica ∷ _) s key true = lookup key replica
read_from (_ ∷ _) s key false = lookup key s.primary
read_from [] s key from_replica = lookup key s.primary

unfoldable pub read : PrimaryReplicaStore → GoString → Bool → Option GoString
unfolding read_from
read s key from_replica = read_from s.replicas s key from_replica

-- The end of `Failover`, with the replica that the index names, if it is in range.
unfoldable pub promote :
    PrimaryReplicaStore → Option (Map GoString GoString) → PrimaryReplicaStore × Bool
promote s none = (s, false)
promote s (some replica) = (record s { primary = assign_all replica [] }, true)

unfoldable pub failover : PrimaryReplicaStore → ℤ → PrimaryReplicaStore × Bool
unfolding promote
failover s (negsuc _) = (s, false)
failover s (pos replica_index) = promote s (get_elem? s.replicas replica_index)

-- The calls of a client.
pub data Call : Type 0 where
  write_call : GoString → GoString → Call
  failover_call : ℤ → Call

unfoldable pub run : PrimaryReplicaStore → List Call → PrimaryReplicaStore
unfolding write failover
run s [] = s
run s (write_call key value ∷ calls) = run (write s key value) calls
run s (failover_call index ∷ calls) = run (failover s index).0 calls
