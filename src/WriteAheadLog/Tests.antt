-- ===== src/WriteAheadLog/Tests.antt =====
-- Runs of the log of 23-Write-Ahead-Log/main.go, and instances of its theorems.
use design_with_ts_go.Base.{
  ◌≡◌, refl, List, [], ◌∷◌, arith, ℕ_discrete, nat_key, lookup, assign, delete, str,
  GoString-discrete, string_key, fnv1a_from, fnv1a, int_key,
}
use design_with_ts_go.WriteAheadLog.{
  WalEntry, WriteAheadLog, new, decimal_from, base_text, checksum_of, append, recovered, corrupt,
  replay, recover_from, recover,
}
use design_with_ts_go.WriteAheadLog.Recovery.{
  IsWritten, Write, append_all, apply_all, recover_corrupt, recover-append_all,
}

program : Unit {0}
unfolding new decimal_from base_text checksum_of append replay recover_from recover fnv1a fnv1a_from
    lookup assign delete GoString-discrete ℕ_discrete
program = tt

text_run : base_text 120 (str "put") (str "k") (str "v") ≡ str "120|put|k|v"
unfolding program
text_run = refl

abbrev writes : List Write
writes =
    record { op = str "put"; key = str "k"; value = str "v" }
    ∷ record { op = str "delete"; key = str "k"; value = [] }
    ∷ record { op = str "put"; key = str "j"; value = str "w" }
    ∷ []

recover_run : recover (append_all writes new) ≡ recovered ((str "j", str "w") ∷ [])
unfolding program
recover_run = refl

-- An entry whose value was changed behind the checksum's back.
abbrev tampered : WalEntry
tampered = record { lsn = 1; op = str "put"; key = str "k"; value = str "x"; checksum = 7 }

abbrev damaged : WriteAheadLog
damaged = record { entries = tampered ∷ []; next_lsn = 2 }

recover_corrupt_example : recover damaged ≡ corrupt 1
unfolding program
recover_corrupt_example = recover_corrupt damaged [] [] tampered refl tt (λ e. ground arith)

recover-append_all_example :
    (recover (append_all writes new) ≡ recovered (apply_all writes []))
    × IsWritten (append_all writes new)
recover-append_all_example = recover-append_all writes
