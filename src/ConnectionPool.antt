-- ===== src/ConnectionPool.antt =====
-- 20-Connection-Pool/main.go: the connection pool. What the callbacks answer during a call is an
-- argument of the call: `validate`, and `fresh` for the connection `factory` would make. The slice
-- of idle connections is a list with the slice's end first.
mod Bounds
mod Tests
use design_with_ts_go.Base.{
  ℕ, zero, suc, ◌+◌, ◌-◌, ◌*◌, ◌/◌, ◌%◌, ◌^◌, ◌≤◌, ◌<◌, min, ◌≡◌, refl, sym, ap, ◌∙◌, ◌≢◌, ◌↔◌, ◌⊎◌,
  inl, inr, ite, if_pos, if_neg, Bool, true, false, not, ◌&&◌, ◌||◌, Option, none, some, List, [],
  ◌∷◌, ◌++◌, arith, ℕ_discrete, ltb, leb, ◌==◌, if◌then◌else◌, Bool-cases, Option-cases, length,
  get_elem?, set, replicate, length-append, length-set, length-replicate, All, get_or, is_some, Key,
  nat_key, same_key, Map, IsMap, lookup, assign, delete, lookup-assign, lookup-delete, assign-IsMap,
  delete-IsMap, length-assign, GoString, str, GoString-discrete, string_key, fnv1a_from,
  fnv1a_from-lt, fnv1a, assign_all, or_else, map_some, map_some_ne, Entries, map_values,
  Entries_map, length-map_values, lookup-map_values, map_values-IsMap, Entries-assign,
  Entries-lookup, Entries_weaken, Entries-assign_ne, ite-elim, keys, All-keys, lookup-All-keys,
  IsOrder, insert, sort, IsSorted, All-insert, All-sort, sort-All, sort-IsSorted, leb_string,
  leb_string-IsOrder, is_newer, newer, merge_newer, lookup-merge_newer, merge_newer-IsMap,
  get_elem?-lt, get_elem?-set, All-get, All-map, lookup-assign_all, assign_all-IsMap, ◌+ℤ◌, total,
  total-assign, total_ext, ℤ, pos, negsuc, pos_part, neg_part, sub_ℕ, ◌≤ℤ◌, leb_ℤ, ltb_ℤ,
  ℤ-discrete, int_key, count_of, raise_all, count_of-raise_all, raise_all-IsMap,
}

pub record ConnectionPool (T : Type 0) : Type 0 where
  pub max : ℤ
  pub active : ℤ
  pub idle : List T

module _ {T : Type 0} where
  -- `none` is the exit on a bound that is not positive.
  unfoldable pub new : ℤ → Option (ConnectionPool T)
  new max =
      if leb_ℤ max (pos 0) then none else some (record { max = max; active = pos 0; idle = [] })

  -- The loop of `Acquire`: the first idle connection that is valid, and those left.
  unfoldable pub take_valid : (T → Bool) → List T → List T × Option T
  take_valid validate [] = ([], none)
  take_valid validate (conn ∷ idle) =
      let rest = take_valid validate idle in if validate conn then (idle, some conn) else rest

  -- `none` is the error of an exhausted pool.
  unfoldable pub acquire : ConnectionPool T → (T → Bool) → T → ConnectionPool T × Option T
  unfolding take_valid
  acquire p validate fresh =
      let (idle, found) = take_valid validate p.idle in
      elim found [
        | some conn ↦ (record p { idle = idle; active = p.active +ℤ pos 1 }, some conn)
        | none ↦
            if leb_ℤ p.max p.active
            then (record p { idle = idle }, none)
            else (record p { idle = idle; active = p.active +ℤ pos 1 }, some fresh)
      ]

  unfoldable pub release : ConnectionPool T → (T → Bool) → T → ConnectionPool T
  release p validate conn =
      let p' = record p { active = p.active +ℤ negsuc 0 } in
      if validate conn then record p' { idle = conn ∷ p.idle } else p'

-- A call of a client, with what the callbacks answer.
pub data Call (T : Type 0) : Type 0 where
  acquire_call : (T → Bool) → T → Call T
  release_call : (T → Bool) → T → Call T

module _ {T : Type 0} where
  unfoldable pub step : ConnectionPool T → Call T → ConnectionPool T
  unfolding acquire release
  step p (acquire_call validate fresh) = (acquire p validate fresh).0
  step p (release_call validate conn) = release p validate conn

  unfoldable pub run : ConnectionPool T → List (Call T) → ConnectionPool T
  unfolding step
  run p [] = p
  run p (call ∷ calls) = run (step p call) calls
