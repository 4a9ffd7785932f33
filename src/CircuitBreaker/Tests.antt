-- ===== src/CircuitBreaker/Tests.antt =====
-- A run of the breaker of 10-Circuit-Breaker/main.go, and instances of its theorems.
use design_with_ts_go.Base.{
  ℕ, ◌+◌, ◌≡◌, refl, none, some, [], ◌∷◌, arith, nat_key, string_key, ◌+ℤ◌, pos, int_key,
}
use design_with_ts_go.CircuitBreaker.{
  circuit_closed, circuit_open, circuit_half_open, CircuitBreaker, new, state_of, record_success,
  record_failure, trips, rejected, succeeded, failed, execute, Attempt, run, step, run_calls,
  execute_call, state_call,
}
use design_with_ts_go.CircuitBreaker.States.{IsSound, IsSettled, run-IsSound, answers}

program : Unit {0}
unfolding new state_of record_success record_failure trips execute run step run_calls ◌+ℤ◌
program = tt

abbrev breaker : CircuitBreaker
breaker = new (pos 3) (pos 10) (pos 0)

abbrev failure : ℕ → Attempt
failure time = record { operation = some (7 ∷ []); now = pos time; ended = pos (time + 1) }

abbrev success : ℕ → Attempt
success time = record { operation = none; now = pos time; ended = pos (time + 1) }

abbrev opened : CircuitBreaker
opened = record breaker { state = circuit_open; failures = 3; opened_at = pos 4 }

breaker_test :
    (run breaker (failure 1 ∷ failure 2 ∷ failure 3 ∷ []) ≡ opened)
    × (answers opened (success 5 ∷ success 13 ∷ success 14 ∷ failure 16 ∷ [])
        ≡ rejected ∷ rejected ∷ succeeded ∷ failed (7 ∷ []) ∷ [])
    × ((run opened (success 14 ∷ [])).state ≡ circuit_closed)
    × ((run opened (failure 14 ∷ [])).state ≡ circuit_open)
unfolding program
breaker_test = (refl, refl, refl, refl)

-- Seen half-open by `State` after the timeout.
half_open_test :
    run_calls breaker (
      execute_call (failure 1)
      ∷ execute_call (failure 2)
      ∷ execute_call (failure 3)
      ∷ state_call (pos 20)
      ∷ [])
    ≡ record opened { state = circuit_half_open }
unfolding program
half_open_test = refl

run-IsSound_example :
    IsSound (run_calls breaker (execute_call (failure 1) ∷ state_call (pos 20) ∷ []))
    × ((a : Attempt)
        → IsSettled (
            step
              (run_calls breaker (execute_call (failure 1) ∷ state_call (pos 20) ∷ []))
              (execute_call a)))
run-IsSound_example =
    run-IsSound (pos 3) (pos 10) (pos 0) (execute_call (failure 1) ∷ state_call (pos 20) ∷ [])
      (omega arith)
