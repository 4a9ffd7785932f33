-- ===== src/BoundedQueue.antt =====
-- 19-Producer-Consumer/main.go and 15-Semaphore/main.go: a bounded queue and a semaphore, each a
-- buffered channel. A goroutine at a channel operation that cannot proceed is blocked: the
-- operation is `none`, and another goroutine's step comes first. An interleaving is a sequence of
-- the steps that proceed.
mod Interleavings
mod Tests
use design_with_ts_go.Base.{
  ℕ, zero, suc, ◌+◌, ◌-◌, ◌*◌, ◌/◌, ◌%◌, ◌^◌, ◌≤◌, ◌<◌, max, min, ◌≡◌, refl, sym, ap, ◌∙◌, ◌≢◌, ◌↔◌,
  ◌⊎◌, inl, inr, ite, if_pos, if_neg, Bool, true, false, not, ◌&&◌, ◌||◌, Option, none, some, List,
  [], ◌∷◌, ◌++◌, arith, ℕ_discrete, ltb, leb, ◌==◌, if◌then◌else◌, Bool-cases, Option-cases, length,
  get_elem?, set, replicate, length-append, length-set, length-replicate, All, get_or, is_some, Key,
  nat_key, same_key, Map, IsMap, lookup, assign, delete, lookup-assign, lookup-delete, assign-IsMap,
  delete-IsMap, length-assign, GoString, str, GoString-discrete, string_key, fnv1a_from,
  fnv1a_from-lt, fnv1a, assign_all, or_else, map_some, map_some_ne, Entries, map_values,
  Entries_map, length-map_values, lookup-map_values, map_values-IsMap, Entries-assign,
  Entries-lookup, Entries_weaken, Entries-assign_ne, ite-elim, keys, All-keys, lookup-All-keys,
  IsOrder, insert, sort, IsSorted, All-insert, All-sort, sort-All, sort-IsSorted, leb_string,
  leb_string-IsOrder, is_newer, newer, merge_newer, lookup-merge_newer, merge_newer-IsMap,
  get_elem?-lt, get_elem?-set, All-get, All-map, lookup-assign_all, assign_all-IsMap, ◌+ℤ◌, total,
  total-assign, total_ext, ℤ, pos, negsuc, pos_part, neg_part, sub_ℕ, ◌≤ℤ◌, leb_ℤ, ltb_ℤ,
  ℤ-discrete, int_key, count_of, raise_all, count_of-raise_all, raise_all-IsMap, add_parts,
  add_zero, add_assoc, zero_add, ℤ_ext,
}

-- A channel made with a capacity, and its buffer, the oldest value first.
pub record Channel (T : Type 0) : Type 0 where
  pub capacity : ℕ
  pub buffer : List T

module _ {T : Type 0} where
  -- `ch <- value`
  unfoldable pub send : Channel T → T → Option (Channel T)
  send ch value =
      if ltb (length ch.buffer) ch.capacity
      then some (record ch { buffer = ch.buffer ++ value ∷ [] })
      else none

  -- `<-ch`
  unfoldable pub receive : Channel T → Option (Channel T × T)
  receive ch = elim ch.buffer [
    | [] ↦ none
    | value ∷ rest ↦ some (record ch { buffer = rest }, value)
  ]

pub record BoundedQueue (T : Type 0) : Type 0 where
  pub ch : Channel T

module _ {T : Type 0} where
  -- `none` is the exit on a capacity that is not positive.
  unfoldable pub new : ℤ → Option (BoundedQueue T)
  new capacity =
      if leb_ℤ capacity (pos 0)
      then none
      else some (record { ch = record { capacity = pos_part capacity; buffer = [] } })

  unfoldable pub enqueue : BoundedQueue T → T → Option (BoundedQueue T)
  unfolding send
  enqueue q value = map_some (λ ch. record q { ch = ch }) (send q.ch value)

  unfoldable pub dequeue : BoundedQueue T → Option (BoundedQueue T × T)
  unfolding receive
  dequeue q = map_some (λ r. (record q { ch = r.0 }, r.1)) (receive q.ch)

pub record Semaphore : Type 0 where
  pub permits : Channel Bool

-- `none` is the exit on a number that is not positive.
unfoldable pub new_semaphore : ℤ → Option Semaphore
new_semaphore permits =
    if leb_ℤ permits (pos 0)
    then none
    else some (record { permits = record { capacity = pos_part permits; buffer = [] } })

-- The value sent, `struct{}{}`, is any.
unfoldable pub acquire : Semaphore → Option Semaphore
unfolding send
acquire s = map_some (λ ch. record s { permits = ch }) (send s.permits true)

unfoldable pub release : Semaphore → Option Semaphore
unfolding receive
release s = map_some (λ r. record s { permits = r.0 }) (receive s.permits)
