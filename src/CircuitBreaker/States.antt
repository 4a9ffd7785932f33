-- ===== src/CircuitBreaker/States.antt =====
-- The states of the breaker of 10-Circuit-Breaker/main.go over runs of calls.
use mathlib.Core.Path.{subst}
use design_with_ts_go.Base.{
  inl, ℕ, suc, ◌+◌, ◌≤◌, ◌≡◌, refl, ◌∙◌, ◌≢◌, ◌⊎◌, true, false, Option, none, some, List, [], ◌∷◌,
  arith, length, All, nat_key, GoString, string_key, ℤ, pos, ◌≤ℤ◌, leb_ℤ, int_key,
}
use design_with_ts_go.CircuitBreaker.{
  circuit_closed, circuit_open, circuit_half_open, CircuitBreaker, new, is_timed_out, state_of,
  record_success, record_failure, trips, Answer, rejected, succeeded, failed, execute, Attempt, run,
  Call, execute_call, state_call, step, run_calls,
}

-- The breaker is closed with fewer failures than the threshold, or it is open after a failure.
abbrev pub IsSettled : CircuitBreaker → Type 0
IsSettled cb =
    ((cb.state ≡ circuit_closed) × (leb_ℤ cb.failure_threshold (pos cb.failures) ≡ false))
    ⊎ ((cb.state ≡ circuit_open) × (1 ≤ cb.failures))

-- The breaker is settled, or it is half-open after a failure.
abbrev pub IsSound : CircuitBreaker → Type 0
IsSound cb = IsSettled cb ⊎ ((cb.state ≡ circuit_half_open) × (1 ≤ cb.failures))

execute-IsSettled :
    (cb : CircuitBreaker) (operation : Option GoString) (now ended : ℤ)
    → pos 1 ≤ℤ cb.failure_threshold
    → IsSound cb
    → IsSettled (execute cb operation now ended).0
      × ((execute cb operation now ended).0.failure_threshold ≡ cb.failure_threshold)
unfolding execute state_of record_failure record_success trips
execute-IsSettled cb operation now ended positive h = ground arith

state_of-IsSound :
    (cb : CircuitBreaker) (now : ℤ)
    → IsSound cb
    → IsSound (state_of cb now).0
      × ((state_of cb now).1 ≡ (state_of cb now).0.state)
      × ((state_of cb now).0.failure_threshold ≡ cb.failure_threshold)
unfolding state_of
state_of-IsSound cb now h = ground arith

step-IsSound :
    (cb : CircuitBreaker) (call : Call)
    → pos 1 ≤ℤ cb.failure_threshold
    → IsSound cb
    → IsSound (step cb call) × ((step cb call).failure_threshold ≡ cb.failure_threshold)
unfolding step
step-IsSound cb (execute_call a) positive h =
    let (settled, same) = execute-IsSettled cb a.operation a.now a.ended positive h in
    (inl settled, same)
step-IsSound cb (state_call now) positive h =
    let (sound, _, same) = state_of-IsSound cb now h in (sound, same)

run_calls_keeps-IsSound :
    (cb : CircuitBreaker) (calls : List Call)
    → pos 1 ≤ℤ cb.failure_threshold
    → IsSound cb
    → IsSound (run_calls cb calls) × ((run_calls cb calls).failure_threshold ≡ cb.failure_threshold)
unfolding run_calls
run_calls_keeps-IsSound cb [] positive h = (h, refl)
run_calls_keeps-IsSound cb (call ∷ calls) positive h =
    let (sound, same) = step-IsSound cb call positive h in
    let (rest, same') = run_calls_keeps-IsSound (step cb call) calls (rw same positive) sound in
    (rest, same' ∙ same)

-- With a positive threshold, after any calls of `Execute` and `State`, a breaker is closed with
-- fewer failures in a row than the threshold, or it is open or half-open and has failed; and any
-- call of `Execute` that follows does not leave it half-open.
pub run-IsSound :
    (threshold timeout zero_time : ℤ) (calls : List Call)
    → pos 1 ≤ℤ threshold
    → IsSound (run_calls (new threshold timeout zero_time) calls)
      × ((a : Attempt)
          → IsSettled (step (run_calls (new threshold timeout zero_time) calls) (execute_call a)))
unfolding new step
run-IsSound threshold timeout zero_time calls positive =
    let cb = new threshold timeout zero_time in
    let (sound, same) = run_calls_keeps-IsSound cb calls positive (ground arith) in
    (
      sound,
      λ a.
          let (settled, _) =
            execute-IsSettled (run_calls cb calls) a.operation a.now a.ended (rw same positive)
              sound in
          settled,
    )

-- The attempt fails.
abbrev pub Fails : Attempt → Type 0
Fails a = a.operation ≢ none

-- The attempt begins before the breaker's timeout is over.
abbrev pub Early : CircuitBreaker → Attempt → Type 0
Early cb a = is_timed_out cb a.now ≡ false

execute_failing :
    (cb : CircuitBreaker) (operation : Option GoString) (now ended : ℤ) (more : ℕ)
    → operation ≢ none
    → cb.state ≡ circuit_closed
    → cb.failure_threshold ≡ pos (cb.failures + suc (suc more))
    → (execute cb operation now ended).0 ≡ record cb { failures = cb.failures + 1 }
unfolding execute state_of record_failure record_success trips
execute_failing cb operation now ended more fails closed room = ground arith

execute_last :
    (cb : CircuitBreaker) (operation : Option GoString) (now ended : ℤ)
    → operation ≢ none
    → cb.state ≡ circuit_closed
    → cb.failure_threshold ≡ pos (cb.failures + 1)
    → (execute cb operation now ended).0
      ≡ record cb { failures = cb.failures + 1; state = circuit_open; opened_at = ended }
unfolding execute state_of record_failure record_success trips
execute_last cb operation now ended fails closed room = ground arith

execute_early :
    (cb : CircuitBreaker) (operation : Option GoString) (now ended : ℤ)
    → cb.state ≡ circuit_open
    → is_timed_out cb now ≡ false
    → execute cb operation now ended ≡ (cb, rejected)
unfolding execute state_of
execute_early cb operation now ended opened early = ground arith

-- The answers of a run of calls.
abbrev pub answers : CircuitBreaker → List Attempt → List Answer
answers cb [] = []
answers cb (a ∷ attempts) =
    (execute cb a.operation a.now a.ended).1
    ∷ answers (execute cb a.operation a.now a.ended).0 attempts

-- A closed breaker that is given failures only, as many as its threshold leaves room for, stays
-- closed and counts them; one failure more opens it, at that failure's end.
pub run_failing :
    (cb : CircuitBreaker) (attempts : List Attempt) (last : Attempt)
    → cb.state ≡ circuit_closed
    → cb.failure_threshold ≡ pos (cb.failures + length attempts + 1)
    → All Fails attempts
    → Fails last
    → (run cb attempts ≡ record cb { failures = cb.failures + length attempts })
      × (run (run cb attempts) (last ∷ []) ≡ record cb {
        failures = cb.failures + length attempts + 1;
        state = circuit_open;
        opened_at = last.ended;
      })
unfolding run
run_failing cb [] last closed room fails last_fails =
    ground (arith, execute_last cb last.operation last.now last.ended last_fails closed)
run_failing cb (a ∷ attempts) last closed room fails last_fails =
    rw
      (execute_failing cb a.operation a.now a.ended (length attempts) fails.0 closed (ground arith))
      (subst
        (λ n.
          (run (record cb { failures = cb.failures + 1 }) attempts ≡ record cb { failures = n })
          × (run (run (record cb { failures = cb.failures + 1 }) attempts) (last ∷ [])
              ≡ record cb { state = circuit_open; failures = n + 1; opened_at = last.ended }))
        (omega arith)
        (run_failing (record cb { failures = cb.failures + 1 }) attempts last closed
          (ground (arith, room)) fails.1 last_fails))

-- An open breaker answers every call that begins before its timeout is over with a rejection, and
-- stays as it is.
pub run-Early :
    (cb : CircuitBreaker) (attempts : List Attempt)
    → cb.state ≡ circuit_open
    → All (Early cb) attempts
    → (run cb attempts ≡ cb) × All (λ answer. answer ≡ rejected) (answers cb attempts)
unfolding run
run-Early cb [] opened early = (refl, tt)
run-Early cb (a ∷ attempts) opened early =
    rw (execute_early cb a.operation a.now a.ended opened early.0)
      (let rest = run-Early cb attempts opened early.1 in (rest.0, (refl, rest.1)))

-- The first call of an open breaker after its timeout runs the operation and decides alone: a
-- success closes the breaker with no failures counted, a failure opens it anew from that call's end,
-- whatever the threshold.
pub execute_probe :
    (cb : CircuitBreaker) (operation : Option GoString) (now ended : ℤ)
    → cb.state ≡ circuit_open
    → is_timed_out cb now ≡ true
    → execute cb operation now ended ≡ elim operation [
      | none ↦ (record cb { state = circuit_closed; failures = 0 }, succeeded)
      | some err ↦ (
        record cb { state = circuit_open; failures = cb.failures + 1; opened_at = ended },
        failed err,
      )
    ]
unfolding execute state_of record_failure record_success trips
execute_probe cb operation now ended opened late = ground arith
