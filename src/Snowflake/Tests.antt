-- ===== src/Snowflake/Tests.antt =====
-- 12-ID-Generator/main.go: small sequences of calls.
use design_with_ts_go.Base.{
  ◌+◌, ◌*◌, ◌≡◌, refl, [], ◌∷◌, arith, ℕ_discrete, All, nat_key, string_key, pos, negsuc,
  ℤ-discrete, int_key,
}
use design_with_ts_go.Snowflake.{SnowflakeGenerator, new, exits, next_id, finish, wait_next}
use design_with_ts_go.Snowflake.Ids.{ids, IsOf, Ascending, ids-Ascending}
use design_with_ts_go.Snowflake.Waiting.{Returns, next_id-Returns}

abbrev sample : SnowflakeGenerator
sample = record { machine_id = 7; epoch_ms = pos 1000; sequence = 0; last_timestamp = negsuc 0 }

ids_test :
    ids 2 sample (pos 1005 ∷ pos 1005 ∷ [])
    ≡ (5 * 4194304 + 7 * 4096) ∷ (5 * 4194304 + 7 * 4096 + 1) ∷ []
unfolding next_id finish ℤ-discrete ℕ_discrete
ids_test = refl

-- A full sequence waits for a later millisecond.
abbrev full : SnowflakeGenerator
full = record { machine_id = 7; epoch_ms = pos 1000; sequence = 4095; last_timestamp = pos 5 }

full_test :
    ids 1 full (pos 1005 ∷ pos 1005 ∷ pos 1004 ∷ pos 1006 ∷ []) ≡ (6 * 4194304 + 7 * 4096) ∷ []
unfolding next_id wait_next finish ℤ-discrete ℕ_discrete
full_test = refl

backwards_test : next_id full (pos 1004 ∷ []) ≡ exits
unfolding next_id
backwards_test = refl

ids-Ascending_example :
    Ascending (ids 2 sample (pos 1005 ∷ pos 1005 ∷ []))
    × All (IsOf 7) (ids 2 sample (pos 1005 ∷ pos 1005 ∷ []))
unfolding new
ids-Ascending_example =
    ids-Ascending 7 (pos 1000) 2 sample (pos 1005 ∷ pos 1005 ∷ []) refl
      ((5, refl, omega arith), ((5, refl, omega arith), tt))

next_id-Returns_example : Returns (next_id full (pos 1005 ∷ pos 1004 ∷ pos 1006 ∷ []))
next_id-Returns_example = next_id-Returns full (pos 1005) (pos 1004 ∷ []) (pos 1006) [] refl refl
