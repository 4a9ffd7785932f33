-- ===== src/ConnectionPool/Tests.antt =====
-- A run of the pool of 20-Connection-Pool/main.go, and instances of its theorems.
use design_with_ts_go.Base.{
  ℕ, ◌%◌, ◌≡◌, refl, Bool, true, none, some, List, [], ◌∷◌, arith, ◌==◌, length, nat_key,
  string_key, ◌+ℤ◌, pos, negsuc, ◌≤ℤ◌, int_key,
}
use design_with_ts_go.ConnectionPool.{
  ConnectionPool, new, take_valid, acquire, release, Call, acquire_call, release_call, step, run,
}
use design_with_ts_go.ConnectionPool.Bounds.{all_lent, run-IsBounded}

program : Unit {0}
unfolding new take_valid acquire release step run ◌+ℤ◌
program = tt

abbrev any : ℕ → Bool
any n = true

abbrev even : ℕ → Bool
even n = n % 2 == 0

abbrev pool : ConnectionPool ℕ
pool = record { max = pos 2; active = pos 0; idle = [] }

abbrev calls : List (Call ℕ)
calls =
    acquire_call any 4
    ∷ acquire_call any 5
    ∷ acquire_call any 6
    ∷ release_call any 5
    ∷ release_call any 4
    ∷ []

pool_test :
    (new {T = ℕ} (pos 0) ≡ none)
    × (run pool calls ≡ record pool { idle = 4 ∷ 5 ∷ [] })
    × ((acquire (record pool { active = pos 2 }) any 6).1 ≡ none)
    × ((acquire (record pool { idle = 5 ∷ 4 ∷ 3 ∷ [] }) even 6)
        ≡ (record pool { active = pos 1; idle = 3 ∷ [] }, some 4))
unfolding program
pool_test = (refl, refl, refl, refl)

-- Connections that were not acquired, when they are given back, fill the pool past its bound.
over_release :
    run pool (release_call any 1 ∷ release_call any 2 ∷ release_call any 3 ∷ [])
    ≡ record pool { active = negsuc 2; idle = 3 ∷ 2 ∷ 1 ∷ [] }
unfolding program
over_release = refl

run-IsBounded_example :
    (pos 0 ≤ℤ all_lent pool calls)
    × (all_lent pool calls +ℤ pos (length (run pool calls).idle) ≤ℤ pos 2)
    × ((run pool calls).active ≡ all_lent pool calls)
unfolding program
run-IsBounded_example = run-IsBounded (pos 2) pool calls refl (ground arith)
