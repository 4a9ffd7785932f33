-- ===== src/Saga/Tests.antt =====
-- A saga over a ledger, and an instance of the theorem on 36-Distributed-Transaction/main.go.
use design_with_ts_go.Base.{
  ℕ, ◌+◌, ◌-◌, ◌≡◌, refl, ◌⊎◌, Bool, true, false, List, [], ◌∷◌, arith, All, nat_key, str,
  string_key, int_key,
}
use design_with_ts_go.Saga.{SagaStep, SagaCoordinator, new, compensate_all, execute_from, execute}
use design_with_ts_go.Saga.Rollback.{IsReversible, Succeeds, execute_lem}

program : Unit {0}
unfolding new compensate_all execute_from execute
program = tt

-- Seats and money left.
abbrev World : Type 0
World = ℕ × ℕ

abbrev book : World → World × Bool
book (seats, money) = ((seats, money), false)

abbrev pay : World → World × Bool
pay (seats, money) = ((seats, money + 30), true)

abbrev refund : World → World × Bool
refund (seats, money) = ((seats, money - 30), true)

abbrev steps : List (SagaStep World)
steps =
    record { name = str "pay"; action = pay; compensate = refund }
    ∷ record { name = str "book"; action = book; compensate = book }
    ∷ []

steps-IsReversible : All IsReversible steps
steps-IsReversible = (
  record { failure = λ w e. cc; undone = λ w e. ground arith },
  (record { failure = λ w e. refl; undone = λ w e. cc }, tt),
)

execute_run : execute (new steps) (0, 5) ≡ ((0, 5), false)
unfolding program
execute_run = refl

execute_lem_example :
    let s : SagaCoordinator World = record { steps = steps } in
    (((execute s (0, 5)).1 ≡ true) × Succeeds steps (0, 5) (execute s (0, 5)).0)
    ⊎ (((execute s (0, 5)).1 ≡ false) × ((execute s (0, 5)).0 ≡ (0, 5)))
execute_lem_example = execute_lem (record { steps = steps }) (0, 5) steps-IsReversible
