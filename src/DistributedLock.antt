-- ===== src/DistributedLock.antt =====
-- 32-Distributed-Lock/main.go: leases with fencing tokens. `time.Now()` is the argument `now`;
-- instants and durations are integers of nanoseconds. A pair of a lease and `ok` is an option.
mod Fencing
mod Tests
use design_with_ts_go.Base.{
  map_some, ℕ, zero, suc, ◌+◌, ◌-◌, ◌*◌, ◌/◌, ◌%◌, ◌^◌, ◌≤◌, ◌<◌, max, min, ◌≡◌, refl, sym, ap, ◌∙◌,
  ◌≢◌, ◌↔◌, ◌⊎◌, inl, inr, ite, if_pos, if_neg, Bool, true, false, not, ◌&&◌, ◌||◌, Option, none,
  some, List, [], ◌∷◌, ◌++◌, arith, ℕ_discrete, ltb, leb, ◌==◌, if◌then◌else◌, Bool-cases,
  Option-cases, length, get_elem?, set, replicate, length-append, length-set, length-replicate, All,
  get_or, is_some, Key, nat_key, same_key, Map, IsMap, map_some, lookup, assign, delete,
  lookup-assign, lookup-delete, assign-IsMap, delete-IsMap, length-assign, GoString, str,
  GoString-discrete, string_key, fnv1a_from, fnv1a_from-lt, fnv1a, assign_all, or_else,
  lookup-assign_all, assign_all-IsMap, ◌+ℤ◌, total, total-assign, total_ext, ℤ, pos, negsuc,
  pos_part, neg_part, sub_ℕ, ◌≤ℤ◌, leb_ℤ, ltb_ℤ, ℤ-discrete, int_key, count_of, raise_all,
  count_of-raise_all, raise_all-IsMap,
}

pub record Lease : Type 0 where
  pub owner : GoString
  pub token : ℕ
  pub expires_at : ℤ

pub record LockManager : Type 0 where
  pub locks : Map GoString Lease
  pub next_token : ℕ

unfoldable pub new : LockManager
new = record { locks = []; next_token = 1 }

-- `lease.ExpiresAt.After(now)`
abbrev pub is_live : Lease → ℤ → Bool
is_live lease now = ltb_ℤ now lease.expires_at

-- The end of `Acquire`, once no live lease stands in the way.
unfoldable pub grant : LockManager → GoString → GoString → ℤ → ℤ → LockManager × Option Lease
grant m resource owner ttl now =
    let lease : Lease = record { owner = owner; token = m.next_token; expires_at = now +ℤ ttl } in
    (record { locks = assign resource lease m.locks; next_token = m.next_token + 1 }, some lease)

unfoldable pub acquire : LockManager → GoString → GoString → ℤ → ℤ → LockManager × Option Lease
unfolding grant
acquire m resource owner ttl now = elim (lookup resource m.locks) [
  | none ↦ grant m resource owner ttl now
  | some current ↦ if is_live current now then (m, none) else grant m resource owner ttl now
]

unfoldable pub release : LockManager → GoString → GoString → ℕ → LockManager × Bool
release m resource owner token = elim (lookup resource m.locks) [
  | none ↦ (m, false)
  | some current ↦
      ite (same_key current.owner owner)
        (if current.token == token
          then (record m { locks = delete resource m.locks }, true)
          else (m, false))
        (m, false)
]

unfoldable pub validate : LockManager → GoString → ℕ → ℤ → Bool
validate m resource token now = elim (lookup resource m.locks) [
  | none ↦ false
  | some lease ↦ lease.token == token && is_live lease now
]

-- The calls that clients make, each at its own instant.
pub data Call : Type 0 where
  acquire_call : GoString → GoString → ℤ → ℤ → Call
  release_call : GoString → GoString → ℕ → Call

-- The state after a call, and the token that it granted.
unfoldable pub step : LockManager → Call → LockManager × Option ℕ
unfolding acquire release
step m (acquire_call resource owner ttl now) =
    let (m', lease) = acquire m resource owner ttl now in (m', map_some (λ l. l.token) lease)
step m (release_call resource owner token) = ((release m resource owner token).0, none)

-- The state after a sequence of calls, and the tokens granted, in order.
unfoldable pub run : LockManager → List Call → LockManager × List ℕ
run m [] = (m, [])
run m (call ∷ calls) =
    let (m', granted) = step m call in
    let (last, tokens) = run m' calls in
    (last, elim granted [ none ↦ tokens | some token ↦ token ∷ tokens ])
