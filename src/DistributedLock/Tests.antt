-- ===== src/DistributedLock/Tests.antt =====
-- Runs of the lock manager of 32-Distributed-Lock/main.go, and instances of its theorems.
use design_with_ts_go.Base.{
  ◌≡◌, refl, some, List, [], ◌∷◌, ℕ_discrete, nat_key, lookup, assign, delete, GoString, str,
  GoString-discrete, string_key, ◌+ℤ◌, pos, int_key,
}
use design_with_ts_go.DistributedLock.{
  Lease, LockManager, new, acquire, release, validate, Call, acquire_call, release_call, step, run,
}

program : Unit {0}
unfolding new acquire release validate step run lookup assign delete ◌+ℤ◌ GoString-discrete
    ℕ_discrete
program = tt

abbrev db : GoString
db = str "db"

abbrev ana : GoString
ana = str "ana"

abbrev bo : GoString
bo = str "bo"

abbrev first : Lease
first = record { owner = ana; token = 1; expires_at = pos 10 }

abbrev held : LockManager
held = record { locks = (db, first) ∷ []; next_token = 2 }

acquire_run : acquire new db ana (pos 10) (pos 0) ≡ (held, some first)
unfolding program
acquire_run = refl

lock_test :
    (run new (
      acquire_call db ana (pos 10) (pos 0)
      ∷ acquire_call db bo (pos 5) (pos 3)
      ∷ acquire_call db bo (pos 5) (pos 12)
      ∷ release_call db ana 1
      ∷ [])).1
    ≡ 1 ∷ 2 ∷ []
unfolding program
lock_test = refl

abbrev calls : List Call
calls = acquire_call db bo (pos 5) (pos 12) ∷ release_call db bo 2 ∷ []
