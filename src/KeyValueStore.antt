-- ===== src/KeyValueStore.antt =====
-- 26-Key-Value-Store/main.go: values with an optional expiry. `time.Now()` is the argument `now`,
-- an integer of nanoseconds, and the zero `time.Time` is `none`. A method that changes its
-- receiver returns the new store; a pair of a value and `ok` is an option.
mod Expiry
mod Ranges
mod Tests
use design_with_ts_go.Base.{
  ℕ, zero, suc, ◌+◌, ◌-◌, ◌*◌, ◌/◌, ◌%◌, ◌^◌, ◌≤◌, ◌<◌, max, min, ◌≡◌, refl, sym, ap, ◌∙◌, ◌≢◌, ◌↔◌,
  ◌⊎◌, inl, inr, ite, if_pos, if_neg, Bool, true, false, not, ◌&&◌, ◌||◌, Option, none, some, List,
  [], ◌∷◌, ◌++◌, arith, ℕ_discrete, ltb, leb, ◌==◌, if◌then◌else◌, Bool-cases, Option-cases, length,
  get_elem?, set, replicate, length-append, length-set, length-replicate, All, get_or, is_some, Key,
  nat_key, same_key, Map, IsMap, lookup, assign, delete, lookup-assign, lookup-delete, assign-IsMap,
  delete-IsMap, length-assign, GoString, str, GoString-discrete, string_key, fnv1a_from,
  fnv1a_from-lt, fnv1a, assign_all, or_else, map_some, keys, All-keys, lookup-All-keys, IsOrder,
  insert, sort, IsSorted, All-insert, All-sort, sort-All, sort-IsSorted, leb_string,
  leb_string-IsOrder, is_newer, newer, merge_newer, lookup-merge_newer, merge_newer-IsMap,
  get_elem?-lt, get_elem?-set, All-get, All-map, lookup-assign_all, assign_all-IsMap, ◌+ℤ◌, total,
  total-assign, total_ext, ℤ, pos, negsuc, pos_part, neg_part, sub_ℕ, ◌≤ℤ◌, leb_ℤ, ltb_ℤ,
  ℤ-discrete, int_key, count_of, raise_all, count_of-raise_all, raise_all-IsMap,
}

pub record KvEntry : Type 0 where
  pub value : GoString
  pub expires_at : Option ℤ
  pub version : ℕ

-- `data` is a reserved word here.
pub record KeyValueStore : Type 0 where
  pub entries : Map GoString KvEntry
  pub version : ℕ

unfoldable pub new : KeyValueStore
new = record { entries = []; version = 0 }

unfoldable pub put : KeyValueStore → GoString → GoString → ℤ → ℤ → KeyValueStore × ℕ
put s key value ttl now =
    let entry : KvEntry = record {
      value = value;
      expires_at = if ltb_ℤ (pos 0) ttl then some (now +ℤ ttl) else none;
      version = s.version + 1;
    } in
    (record { entries = assign key entry s.entries; version = s.version + 1 }, s.version + 1)

-- `!entry.ExpiresAt.IsZero() && time.Now().After(entry.ExpiresAt)`
abbrev pub is_expired : KvEntry → ℤ → Bool
is_expired entry now = elim entry.expires_at [ none ↦ false | some at ↦ ltb_ℤ at now ]

unfoldable pub get : KeyValueStore → GoString → ℤ → KeyValueStore × Option GoString
get s key now = elim (lookup key s.entries) [
  | none ↦ (s, none)
  | some entry ↦
      if is_expired entry now
      then (record s { entries = delete key s.entries }, none)
      else (s, some entry.value)
]

unfoldable pub delete_key : KeyValueStore → GoString → KeyValueStore × Bool
delete_key s key = (record s { entries = delete key s.entries }, is_some (lookup key s.entries))

-- One round of the loop of `Range`: a key in the interval is read, another is passed over.
unfoldable pub read_in_range :
    GoString → GoString → ℤ → GoString → KeyValueStore → KeyValueStore × Option GoString
unfolding get
read_in_range start end now key s =
    if leb_string start key && leb_string key end then get s key now else (s, none)

-- `append(result, [2]string{key, value})`, where the key was read
abbrev pub report :
    GoString → Option GoString → List (GoString × GoString) → List (GoString × GoString)
report key none result = result
report key (some value) result = (key, value) ∷ result

-- The loop of `Range` over the sorted keys; `clock` gives the instant at which a key is read.
unfoldable pub range_loop :
    GoString
    → GoString
    → (GoString → ℤ)
    → List GoString
    → KeyValueStore
    → KeyValueStore × List (GoString × GoString)
range_loop start end clock [] s = (s, [])
range_loop start end clock (key ∷ keys) s =
    let (s', value) = read_in_range start end (clock key) key s in
    let (last, result) = range_loop start end clock keys s' in (last, report key value result)

unfoldable pub range :
    KeyValueStore
    → GoString
    → GoString
    → (GoString → ℤ)
    → KeyValueStore × List (GoString × GoString)
unfolding range_loop
range s start end clock = range_loop start end clock (sort leb_string (keys s.entries)) s
