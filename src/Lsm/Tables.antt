-- ===== src/Lsm/Tables.antt =====
-- The tables of 22-LSM-Tree/main.go, their sequence numbers and their merging.
use design_with_ts_go.Base.{
  ℕ, ◌≤◌, ◌<◌, ◌≡◌, refl, sym, ◌∙◌, true, Option, none, some, List, [], ◌∷◌, ◌++◌, arith,
  if◌then◌else◌, nat_key, Map, IsMap, lookup, delete, lookup-delete, delete-IsMap, GoString,
  string_key, or_else, newer, merge_newer, lookup-merge_newer, merge_newer-IsMap, int_key,
}
use design_with_ts_go.Lsm.{LsmValue, search_tables, merge_tables, drop_deleted}

-- A table whose entries were written after `lo`, and up to `hi`; a tombstone has no value.
abbrev pub InRange : ℕ → ℕ → Map GoString LsmValue → Type 0
InRange lo hi table =
    IsMap table
    × ((key : GoString) (entry : LsmValue)
        → lookup key table ≡ some entry
        → (lo < entry.sequence) × (entry.sequence ≤ hi) × (entry.deleted ≡ true → entry.value ≡ []))

-- The tables in their order, each written after the one before it.
abbrev pub Layered : ℕ → List (Map GoString LsmValue) → ℕ → Type 0
Layered lo [] hi = lo ≤ hi
Layered lo (table ∷ tables) hi =
    (mid : ℕ) × (lo ≤ mid) × InRange lo mid table × Layered mid tables hi

pub Layered-le :
    (lo hi : ℕ) (tables : List (Map GoString LsmValue)) → Layered lo tables hi → lo ≤ hi
Layered-le lo hi [] h = h
Layered-le lo hi (table ∷ tables) h = omega (arith, Layered-le h.0 hi tables h.3)

pub Layered-append :
    (lo mid hi : ℕ) (tables : List (Map GoString LsmValue)) (table : Map GoString LsmValue)
    → Layered lo tables mid
    → mid ≤ hi
    → InRange mid hi table
    → Layered lo (tables ++ table ∷ []) hi
Layered-append lo mid hi [] table h le r =
    (hi, omega arith, (r.0, λ k e found. ground (arith, r.1 k e found)), omega arith)
Layered-append lo mid hi (t ∷ tables) table h le r =
    (h.0, h.1, h.2, Layered-append h.0 mid hi tables table h.3 le r)

pub search-append :
    (key : GoString) (tables : List (Map GoString LsmValue)) (table : Map GoString LsmValue)
    → search_tables key (tables ++ table ∷ [])
      ≡ or_else (lookup key table) (search_tables key tables)
unfolding search_tables
search-append key [] table = ground arith
search-append key (t ∷ tables) table = ground (arith, search-append key tables table)

-- One table merged into older entries: its own entry wins.
merge_one :
    (lo mid : ℕ) (table merged : Map GoString LsmValue)
    → InRange 0 lo merged
    → InRange lo mid table
    → (key : GoString)
    → lookup key (merge_newer (λ entry. entry.sequence) table merged)
      ≡ or_else (lookup key table) (lookup key merged)
merge_one lo mid table merged old new key =
    rw (lookup-merge_newer (λ entry. entry.sequence) key table merged new.0)
      (wins (lookup key merged) (lookup key table) (old.1 key) (new.1 key))
  where
    wins :
        (m t : Option LsmValue)
        → ((e : LsmValue)
            → m ≡ some e
            → (0 < e.sequence) × (e.sequence ≤ lo) × (e.deleted ≡ true → e.value ≡ []))
        → ((e : LsmValue)
            → t ≡ some e
            → (lo < e.sequence) × (e.sequence ≤ mid) × (e.deleted ≡ true → e.value ≡ []))
        → newer (λ entry. entry.sequence) m t ≡ or_else t m
    wins m none hm ht = refl
    wins none (some e) hm ht = refl
    wins (some c) (some e) hm ht = ground (arith, hm c refl, ht e refl)

merge_one-InRange :
    (lo mid : ℕ) (table merged : Map GoString LsmValue)
    → lo ≤ mid
    → InRange 0 lo merged
    → InRange lo mid table
    → InRange 0 mid (merge_newer (λ entry. entry.sequence) table merged)
merge_one-InRange lo mid table merged le old new = (
  merge_newer-IsMap (λ entry. entry.sequence) table merged old.0,
  λ key e found.
      from_either e (lookup key table) (lookup key merged) (old.1 key) (new.1 key)
        (sym (merge_one lo mid table merged old new key) ∙ found),
)
  where
    from_either :
        (e : LsmValue) (t m : Option LsmValue)
        → ((e : LsmValue)
            → m ≡ some e
            → (0 < e.sequence) × (e.sequence ≤ lo) × (e.deleted ≡ true → e.value ≡ []))
        → ((e : LsmValue)
            → t ≡ some e
            → (lo < e.sequence) × (e.sequence ≤ mid) × (e.deleted ≡ true → e.value ≡ []))
        → or_else t m ≡ some e
        → (0 < e.sequence) × (e.sequence ≤ mid) × (e.deleted ≡ true → e.value ≡ [])
    from_either e none m hm ht f = let (a, b, c) = hm e f in (a, omega arith, c)
    from_either e (some x) m hm ht f = let (a, b, c) = ht e f in (omega arith, b, c)

-- Merging all tables finds the newest entry of each key.
pub merge_tables_lem :
    (lo hi : ℕ) (tables : List (Map GoString LsmValue)) (merged : Map GoString LsmValue)
    → InRange 0 lo merged
    → Layered lo tables hi
    → InRange 0 hi (merge_tables tables merged)
      × ((key : GoString)
          → lookup key (merge_tables tables merged)
            ≡ or_else (search_tables key tables) (lookup key merged))
unfolding merge_tables search_tables
merge_tables_lem lo hi [] merged old h =
    ((old.0, λ k e f. ground (arith, old.1 k e f)), λ key. refl)
merge_tables_lem lo hi (table ∷ tables) merged old (mid, le, new, rest) =
    let (range, finds) =
      merge_tables_lem mid hi tables (merge_newer (λ entry. entry.sequence) table merged)
        (merge_one-InRange lo mid table merged le old new) rest in
    (range, λ key. ground (arith, finds key, merge_one lo mid table merged old new key))

-- The entry that a compacted table keeps of one that it merged.
abbrev pub live : Option LsmValue → Option LsmValue
live none = none
live (some entry) = if entry.deleted then none else some entry

lookup-drop_deleted :
    (key : GoString) (entries merged : Map GoString LsmValue)
    → IsMap entries
    → lookup key (drop_deleted entries merged) ≡ (elim (lookup key entries) [
      | none ↦ lookup key merged
      | some entry ↦ if entry.deleted then none else lookup key merged
    ])
unfolding drop_deleted lookup
lookup-drop_deleted key [] merged h = refl
lookup-drop_deleted key ((k, entry) ∷ entries) merged h =
    let next = if entry.deleted then delete k merged else merged in
    ground (arith, lookup-drop_deleted key entries next h.1, lookup-delete key k merged)

drop_deleted-IsMap :
    (entries merged : Map GoString LsmValue) → IsMap merged → IsMap (drop_deleted entries merged)
unfolding drop_deleted
drop_deleted-IsMap [] merged h = h
drop_deleted-IsMap ((k, entry) ∷ entries) merged h =
    drop_deleted-IsMap entries (if entry.deleted then delete k merged else merged)
      (ground (arith, delete-IsMap k merged h))

pub drop_deleted_lem :
    (hi : ℕ) (merged : Map GoString LsmValue)
    → InRange 0 hi merged
    → InRange 0 hi (drop_deleted merged merged)
      × ((key : GoString) → lookup key (drop_deleted merged merged) ≡ live (lookup key merged))
drop_deleted_lem hi merged h =
    let finds : (key : GoString)
        → lookup key (drop_deleted merged merged) ≡ live (lookup key merged) =
      λ key.
        lookup-drop_deleted key merged merged h.0
        ∙ same (lookup key merged) (lookup key merged) refl in
    (
      (
        drop_deleted-IsMap merged merged h.0,
        λ key e f. kept e (lookup key merged) (h.1 key) (sym (finds key) ∙ f),
      ),
      finds,
    )
  where
    same :
        (o r : Option LsmValue)
        → r ≡ o
        → (elim o [ none ↦ r | some entry ↦ if entry.deleted then none else r ]) ≡ live o
    same none r e = e
    same (some entry) r e = ground arith

    kept :
        (e : LsmValue) (o : Option LsmValue)
        → ((x : LsmValue)
            → o ≡ some x
            → (0 < x.sequence) × (x.sequence ≤ hi) × (x.deleted ≡ true → x.value ≡ []))
        → live o ≡ some e
        → (0 < e.sequence) × (e.sequence ≤ hi) × (e.deleted ≡ true → e.value ≡ [])
    kept e none ho f = cc
    kept e (some x) ho f = ho e (ground arith)
