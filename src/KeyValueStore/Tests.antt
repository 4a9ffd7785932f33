-- ===== src/KeyValueStore/Tests.antt =====
-- Runs of the store of 26-Key-Value-Store/main.go, and instances of its theorems.
use design_with_ts_go.Base.{
  ◌≡◌, refl, ◌&&◌, none, some, [], ◌∷◌, ℕ_discrete, if◌then◌else◌, nat_key, lookup, assign, delete,
  GoString, str, GoString-discrete, string_key, keys, insert, sort, IsSorted, leb_string, ◌+ℤ◌, pos,
  int_key,
}
use design_with_ts_go.KeyValueStore.{
  KeyValueStore, new, put, get, delete_key, read_in_range, range_loop, range,
}
use design_with_ts_go.KeyValueStore.Ranges.{range_lem}

program : Unit {0}
unfolding new put get delete_key read_in_range range_loop range sort insert leb_string lookup assign
    delete ◌+ℤ◌ GoString-discrete ℕ_discrete
program = tt

abbrev store : KeyValueStore
store = record {
  entries =
      (str "b", record { value = str "2"; expires_at = some (pos 10); version = 1 })
      ∷ (str "c", record { value = str "3"; expires_at = none; version = 2 })
      ∷ (str "a", record { value = str "1"; expires_at = none; version = 3 })
      ∷ [];
  version = 3;
}

put_run : (put new (str "k") (str "v") (pos 5) (pos 7)).0 ≡ record {
  entries = (str "k", record { value = str "v"; expires_at = some (pos 12); version = 1 }) ∷ [];
  version = 1;
}
unfolding program
put_run = refl

range_run :
    (range store (str "a") (str "b") (λ _. pos 5)).1 ≡ (str "a", str "1") ∷ (str "b", str "2") ∷ []
unfolding program
range_run = refl

range_lem_example :
    let r = (range store (str "a") (str "b") (λ _. pos 11)).1 in
    IsSorted leb_string (keys r)
    × ((k : GoString)
        → lookup k r ≡ (
            if leb_string (str "a") k && leb_string k (str "b")
            then (get store k (pos 11)).1
            else none))
range_lem_example = range_lem store (str "a") (str "b") (λ _. pos 11)
