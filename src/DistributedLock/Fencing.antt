-- ===== src/DistributedLock/Fencing.antt =====
-- Mutual exclusion and fencing for 32-Distributed-Lock/main.go.
use design_with_ts_go.Base.{
  ℕ, ◌+◌, ◌≤◌, ◌<◌, ◌≡◌, ◌≢◌, ◌⊎◌, true, false, Option, none, some, List, [], ◌∷◌, arith, nat_key,
  lookup, lookup-assign, lookup-delete, GoString, string_key, ◌+ℤ◌, ℤ, int_key,
}
use design_with_ts_go.DistributedLock.{
  Lease, LockManager, is_live, acquire, release, validate, Call, acquire_call, release_call, step,
  run,
}

-- The lease that `Acquire` grants.
abbrev granted_lease : LockManager → GoString → ℤ → ℤ → Lease
granted_lease m owner ttl now = record {
  owner = owner;
  token = m.next_token;
  expires_at = now +ℤ ttl;
}

-- While a granted lease is live, `Acquire` of its resource by anybody is refused and changes
-- nothing, and the lease's token validates.
pub acquire_excludes :
    (m : LockManager) (resource owner : GoString) (ttl now : ℤ) (lease : Lease)
    → (acquire m resource owner ttl now).1 ≡ some lease
    → (other : GoString) (ttl' later : ℤ) → is_live lease later ≡ true
    → let m' = (acquire m resource owner ttl now).0 in
      (acquire m' resource other ttl' later ≡ (m', none))
      × (validate m' resource lease.token later ≡ true)
unfolding acquire validate
acquire_excludes m resource owner ttl now lease granted other ttl' later live =
    let stored = lookup-assign resource resource (granted_lease m owner ttl now) m.locks in
    (ground (arith, stored), ground (arith, stored))

-- A release by another owner or with another token is refused and changes nothing; one with both
-- of the lease removes it, so that the token does not validate any more.
pub release_lem :
    (m : LockManager) (resource : GoString) (lease : Lease) (owner : GoString) (token : ℕ) (now : ℤ)
    → lookup resource m.locks ≡ some lease
    → let (m', done) = release m resource owner token in
      ((done ≡ true)
        × (owner ≡ lease.owner)
        × (token ≡ lease.token)
        × (validate m' resource token now ≡ false))
      ⊎ ((done ≡ false) × (m' ≡ m) × ((owner ≢ lease.owner) ⊎ (token ≢ lease.token)))
unfolding release validate
release_lem m resource lease owner token now held =
    ground (arith, lookup-delete resource resource m.locks)

-- Each number is at least the bound and above all before it.
abbrev pub Ascends : ℕ → List ℕ → Type 0
Ascends bound [] = Unit
Ascends bound (token ∷ tokens) = (bound ≤ token) × Ascends (token + 1) tokens

Ascends-weaken : (a b : ℕ) (tokens : List ℕ) → a ≤ b → Ascends b tokens → Ascends a tokens
Ascends-weaken a b [] le h = tt
Ascends-weaken a b (t ∷ tokens) le h = (omega arith, h.1)

abbrev StepTokens : LockManager → LockManager × Option ℕ → Type 0
StepTokens m (m', none) = m'.next_token ≡ m.next_token
StepTokens m (m', some token) = (token ≡ m.next_token) × (m'.next_token ≡ m.next_token + 1)

step-StepTokens : (m : LockManager) (call : Call) → StepTokens m (step m call)
unfolding step
step-StepTokens m (acquire_call resource owner ttl now) = ground arith
step-StepTokens m (release_call resource owner token) = ground arith

-- The fencing tokens that a run of calls grants are strictly increasing, from the next token of
-- the manager on.
pub run-Ascends : (m : LockManager) (calls : List Call) → Ascends m.next_token (run m calls).1
unfolding run
run-Ascends m [] = tt
run-Ascends m (call ∷ calls) =
    combine (step m call) (step-StepTokens m call) (run-Ascends (step m call).0 calls)
  where
    combine :
        (r : LockManager × Option ℕ)
        → StepTokens m r
        → Ascends r.0.next_token (run r.0 calls).1
        → Ascends m.next_token
            (elim r.1 [ none ↦ (run r.0 calls).1 | some token ↦ token ∷ (run r.0 calls).1 ])
    combine (m', none) e h = rw (← e) h
    combine (m', some token) e h =
        (omega arith, Ascends-weaken (token + 1) m'.next_token _ (omega arith) h)

-- The token was granted, and the resource's lease, if it has one, carries another.
abbrev IsStale : GoString → ℕ → LockManager → Type 0
IsStale resource token m =
    (token < m.next_token)
    × ((lease : Lease) → lookup resource m.locks ≡ some lease → lease.token ≢ token)
