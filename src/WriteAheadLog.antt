-- ===== src/WriteAheadLog.antt =====
-- 23-Write-Ahead-Log/main.go: the log, its checksums and its replay. A method that changes its
-- receiver returns the new log beside its result.
mod Recovery
mod Tests
use design_with_ts_go.Base.{
  ℕ, zero, suc, ◌+◌, ◌-◌, ◌*◌, ◌/◌, ◌%◌, ◌^◌, ◌≤◌, ◌<◌, max, min, ◌≡◌, refl, sym, ap, ◌∙◌, ◌≢◌, ◌↔◌,
  ◌⊎◌, inl, inr, ite, if_pos, if_neg, Bool, true, false, not, ◌&&◌, ◌||◌, Option, none, some, List,
  [], ◌∷◌, ◌++◌, arith, ℕ_discrete, ltb, leb, ◌==◌, if◌then◌else◌, Bool-cases, Option-cases, length,
  get_elem?, set, replicate, length-append, length-set, length-replicate, All, get_or, is_some, Key,
  nat_key, same_key, Map, IsMap, lookup, assign, delete, lookup-assign, lookup-delete, assign-IsMap,
  delete-IsMap, length-assign, GoString, str, GoString-discrete, string_key, fnv1a_from,
  fnv1a_from-lt, fnv1a, assign_all, or_else, map_some, ite-elim, keys, All-keys, lookup-All-keys,
  IsOrder, insert, sort, IsSorted, All-insert, All-sort, sort-All, sort-IsSorted, leb_string,
  leb_string-IsOrder, is_newer, newer, merge_newer, lookup-merge_newer, merge_newer-IsMap,
  get_elem?-lt, get_elem?-set, All-get, All-map, lookup-assign_all, assign_all-IsMap, ◌+ℤ◌, total,
  total-assign, total_ext, ℤ, pos, negsuc, pos_part, neg_part, sub_ℕ, ◌≤ℤ◌, leb_ℤ, ltb_ℤ,
  ℤ-discrete, int_key, count_of, raise_all, count_of-raise_all, raise_all-IsMap,
}

pub record WalEntry : Type 0 where
  pub lsn : ℕ
  pub op : GoString
  pub key : GoString
  pub value : GoString
  pub checksum : ℕ

pub record WriteAheadLog : Type 0 where
  pub entries : List WalEntry
  pub next_lsn : ℕ

unfoldable pub new : WriteAheadLog
new = record { entries = []; next_lsn = 1 }

-- `%d` of a number that is not negative: at most as many digits as the fuel.
unfoldable pub decimal_from : ℕ → ℕ → GoString → GoString
decimal_from zero n digits = digits
decimal_from (suc fuel) n digits =
    let more = decimal_from fuel (n / 10) ((b'0' + n % 10) ∷ digits) in
    if ltb n 10 then (b'0' + n) ∷ digits else more

-- `fmt.Sprintf("%d|%s|%s|%s", …)`
unfoldable pub base_text : ℕ → GoString → GoString → GoString → GoString
unfolding decimal_from
base_text lsn op key value =
    decimal_from (lsn + 1) lsn [] ++ b'|' ∷ op ++ b'|' ∷ key ++ b'|' ∷ value

unfoldable pub checksum_of : ℕ → GoString → GoString → GoString → ℕ
unfolding base_text
checksum_of lsn op key value = fnv1a (base_text lsn op key value)

unfoldable pub append : WriteAheadLog → GoString → GoString → GoString → WriteAheadLog × WalEntry
append w op key value =
    let entry : WalEntry = record {
      lsn = w.next_lsn;
      op = op;
      key = key;
      value = value;
      checksum = checksum_of w.next_lsn op key value;
    } in
    (record { entries = w.entries ++ entry ∷ []; next_lsn = w.next_lsn + 1 }, entry)

-- The state, or the error "corrupt WAL entry %d".
pub data Recovered : Type 0 where
  recovered : Map GoString GoString → Recovered
  corrupt : ℕ → Recovered

-- One entry replayed.
unfoldable pub replay : WalEntry → Map GoString GoString → Map GoString GoString
replay entry state =
    ite (same_key entry.op (str "put")) (assign entry.key entry.value state)
      (delete entry.key state)

-- The loop of `Recover`.
unfoldable pub recover_from : Map GoString GoString → List WalEntry → Recovered
unfolding replay
recover_from state [] = recovered state
recover_from state (entry ∷ entries) =
    let rest = recover_from (replay entry state) entries in
    if checksum_of entry.lsn entry.op entry.key entry.value == entry.checksum
    then rest
    else corrupt entry.lsn

unfoldable pub recover : WriteAheadLog → Recovered
unfolding recover_from
recover w = recover_from [] w.entries
