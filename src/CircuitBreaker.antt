-- ===== src/CircuitBreaker.antt =====
-- 10-Circuit-Breaker/main.go: the circuit breaker. `time.Now()` is the argument `now`; instants and
-- durations are integers of nanoseconds. An operation is a result and the instants at which it
-- starts and at which it returns; an error is its message.
-- Calls come one after the other: the breaker's mutex is free while an operation runs, and what
-- overlapping calls do is not modelled.
mod States
mod Tests
use design_with_ts_go.Base.{
  ℕ, zero, suc, ◌+◌, ◌-◌, ◌*◌, ◌/◌, ◌%◌, ◌^◌, ◌≤◌, ◌<◌, max, min, ◌≡◌, refl, sym, ap, ◌∙◌, ◌≢◌, ◌↔◌,
  ◌⊎◌, inl, inr, ite, if_pos, if_neg, Bool, true, false, not, ◌&&◌, ◌||◌, Option, none, some, List,
  [], ◌∷◌, ◌++◌, arith, ℕ_discrete, ltb, leb, ◌==◌, if◌then◌else◌, Bool-cases, Option-cases, length,
  get_elem?, set, replicate, length-append, length-set, length-replicate, All, get_or, is_some, Key,
  nat_key, same_key, Map, IsMap, lookup, assign, delete, lookup-assign, lookup-delete, assign-IsMap,
  delete-IsMap, length-assign, GoString, str, GoString-discrete, string_key, fnv1a_from,
  fnv1a_from-lt, fnv1a, assign_all, or_else, map_some, map_some_ne, Entries, map_values,
  Entries_map, length-map_values, lookup-map_values, map_values-IsMap, Entries-assign,
  Entries-lookup, Entries_weaken, Entries-assign_ne, ite-elim, keys, All-keys, lookup-All-keys,
  IsOrder, insert, sort, IsSorted, All-insert, All-sort, sort-All, sort-IsSorted, leb_string,
  leb_string-IsOrder, is_newer, newer, merge_newer, lookup-merge_newer, merge_newer-IsMap,
  get_elem?-lt, get_elem?-set, All-get, All-map, lookup-assign_all, assign_all-IsMap, ◌+ℤ◌, total,
  total-assign, total_ext, ℤ, pos, negsuc, pos_part, neg_part, sub_ℕ, ◌≤ℤ◌, leb_ℤ, ltb_ℤ,
  ℤ-discrete, int_key, count_of, raise_all, count_of-raise_all, raise_all-IsMap,
}

pub data CircuitState : Type 0 where
  circuit_closed circuit_open circuit_half_open : CircuitState

pub record CircuitBreaker : Type 0 where
  pub state : CircuitState
  pub failures : ℕ
  pub failure_threshold : ℤ
  pub open_timeout : ℤ
  pub opened_at : ℤ

-- The zero time is the argument.
unfoldable pub new : ℤ → ℤ → ℤ → CircuitBreaker
new failure_threshold open_timeout zero_time = record {
  state = circuit_closed;
  failures = 0;
  failure_threshold = failure_threshold;
  open_timeout = open_timeout;
  opened_at = zero_time;
}

-- `time.Since(cb.openedAt) >= cb.openTimeout`
abbrev pub is_timed_out : CircuitBreaker → ℤ → Bool
is_timed_out cb now = leb_ℤ (cb.opened_at +ℤ cb.open_timeout) now

-- The breaker afterwards and the state returned.
unfoldable pub state_of : CircuitBreaker → ℤ → CircuitBreaker × CircuitState
state_of cb now = elim cb.state [
  | circuit_closed ↦ (cb, cb.state)
  | circuit_open ↦
      if is_timed_out cb now
      then (record cb { state = circuit_half_open }, circuit_half_open)
      else (cb, cb.state)
  | circuit_half_open ↦ (cb, cb.state)
]

unfoldable pub record_success : CircuitBreaker → CircuitBreaker
record_success cb = record cb { failures = 0; state = circuit_closed }

-- The test on the way to open.
unfoldable pub trips : CircuitBreaker → Bool
trips cb = elim cb.state [
  | circuit_closed ↦ leb_ℤ cb.failure_threshold (pos (cb.failures + 1))
  | circuit_open ↦ leb_ℤ cb.failure_threshold (pos (cb.failures + 1))
  | circuit_half_open ↦ true
]

unfoldable pub record_failure : CircuitBreaker → ℤ → CircuitBreaker
unfolding trips
record_failure cb now =
    if trips cb
    then record cb { failures = cb.failures + 1; state = circuit_open; opened_at = now }
    else record cb { failures = cb.failures + 1 }

-- What a call of `Execute` gives back.
pub data Answer : Type 0 where
  rejected succeeded : Answer
  failed : GoString → Answer

-- `operation` is what the operation would return, `now` the time of the call and `ended` that of
-- the operation's end.
unfoldable pub execute : CircuitBreaker → Option GoString → ℤ → ℤ → CircuitBreaker × Answer
unfolding state_of record_success record_failure
execute cb operation now ended =
    let (cb', state) = state_of cb now in
    elim state [
      | circuit_open ↦ (cb', rejected)
      | circuit_closed ↦ elim operation [
        | some err ↦ (record_failure cb' ended, failed err)
        | none ↦ (record_success cb', succeeded)
      ]
      | circuit_half_open ↦ elim operation [
        | some err ↦ (record_failure cb' ended, failed err)
        | none ↦ (record_success cb', succeeded)
      ]
    ]

-- A call of `Execute`, with what it meets.
pub record Attempt : Type 0 where
  pub operation : Option GoString
  pub now : ℤ
  pub ended : ℤ

-- A call of a client: of `Execute`, or of `State` at an instant.
pub data Call : Type 0 where
  execute_call : Attempt → Call
  state_call : ℤ → Call

unfoldable pub step : CircuitBreaker → Call → CircuitBreaker
unfolding execute state_of
step cb (execute_call a) = (execute cb a.operation a.now a.ended).0
step cb (state_call now) = (state_of cb now).0

unfoldable pub run_calls : CircuitBreaker → List Call → CircuitBreaker
unfolding step
run_calls cb [] = cb
run_calls cb (call ∷ calls) = run_calls (step cb call) calls

-- A run of calls of `Execute` only.
unfoldable pub run : CircuitBreaker → List Attempt → CircuitBreaker
unfolding execute
run cb [] = cb
run cb (a ∷ attempts) = run (execute cb a.operation a.now a.ended).0 attempts
