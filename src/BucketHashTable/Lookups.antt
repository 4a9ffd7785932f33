-- ===== src/BucketHashTable/Lookups.antt =====
-- The table of 03-Hash-Table/bucket-hash-table.go against a map: what is read after a write.
use mathlib.Core.Path.{subst}
use design_with_ts_go.Base.{
  ℕ, ◌+◌, ◌-◌, ◌*◌, ◌/◌, ◌≤◌, ◌≡◌, refl, sym, ap, ◌∙◌, inl, inr, ite, if_pos, if_neg, Bool, true,
  false, Option, none, some, List, [], ◌∷◌, arith, if◌then◌else◌, Option-cases, length, set,
  is_some, nat_key, same_key, Map, lookup, assign, delete, lookup-assign, lookup-delete,
  assign-IsMap, GoString, string_key, Entries-assign, ℤ, pos, pos_part, ltb_ℤ, int_key,
}
use design_with_ts_go.BucketHashTable.{
  Call, set_call, delete_call, run, KeyValuePairs, BucketHashTable, new, hash, bucket_at, push,
  should_grow, should_shrink, resize, set_key, get, remove_entry, delete_key,
}
use design_with_ts_go.BucketHashTable.Chains.{
  count-get, index_of, IsChain, remove_entry-delete, delete-IsChain, length-remove_entry,
}
use design_with_ts_go.BucketHashTable.Buckets.{
  IsTable, set_bucket-IsTable, bucket_at-IsChain, get-set_bucket, push-IsTable, get-push,
}
use design_with_ts_go.BucketHashTable.Resizing.{empty-IsTable, empty-get, resize_lem}

-- A new table is well formed, whatever the capacity asked for, and has no key.
pub new-IsTable :
    (capacity : ℤ) → IsTable (new capacity) × ((key : GoString) → get (new capacity) key ≡ none)
unfolding new
new-IsTable capacity =
    let least = if ltb_ℤ capacity (pos 16) then 16 else pos_part capacity in
    let room : 16 ≤ least = ground arith in
    (empty-IsTable (new capacity) least room refl, λ key. empty-get (new capacity) least key)

-- 1 for a key that is not there.
abbrev pub absence : Option GoString → ℕ
absence none = 1
absence (some v) = 0

length-assign-absence :
    (key value : GoString) (chain : KeyValuePairs)
    → length (assign key value chain) ≡ length chain + absence (lookup key chain)
unfolding assign lookup
length-assign-absence key value [] = omega arith
length-assign-absence key value ((k, v) ∷ chain) =
    ground (arith, length-assign-absence key value chain)

assign-Entries :
    (capacity : ℕ) (key value : GoString) (chain : KeyValuePairs)
    → IsChain capacity (index_of capacity key) chain
    → IsChain capacity (index_of capacity key) (assign key value chain)
assign-Entries capacity key value chain h = (
  assign-IsMap key value chain h.0,
  Entries-assign (λ k v. index_of capacity k ≡ index_of capacity key) key value chain refl h.1,
)

-- A table that may or may not be resized.
maybe_resize :
    (ht : BucketHashTable) (capacity : ℕ) (b : Bool)
    → IsTable ht
    → IsTable (if b then resize ht capacity else ht)
      × ((key : GoString) → get (if b then resize ht capacity else ht) key ≡ get ht key)
      × ((if b then resize ht capacity else ht).size ≡ ht.size)
maybe_resize ht capacity true h = resize_lem ht capacity h
maybe_resize ht capacity false h = (h, λ key. refl, refl)

get-chain :
    (ht : BucketHashTable) (key : GoString)
    → get ht key ≡ lookup key (bucket_at ht (index_of ht.capacity key))
unfolding get hash
get-chain ht key = refl

size-push : (ht : BucketHashTable) (key value : GoString) → (push ht key value).size ≡ ht.size + 1
unfolding push
size-push ht key value = refl

module _ (ht : BucketHashTable) (key value : GoString) (h : IsTable ht) where
  set_old :
      (old : GoString)
      → lookup key (bucket_at ht (index_of ht.capacity key)) ≡ some old
      → set_key ht key value ≡ record ht {
        bucket =
            set ht.bucket
              (index_of ht.capacity key)
              (assign key value (bucket_at ht (index_of ht.capacity key)));
      }
  unfolding set_key hash
  set_old old found = rw (found, set_key) refl

  set_new :
      lookup key (bucket_at ht (index_of ht.capacity key)) ≡ none
      → set_key ht key value ≡ (
          if should_grow (push ht key value)
          then resize (push ht key value) (ht.capacity * 2)
          else push ht key value)
  unfolding set_key hash
  set_new absent = rw (absent, set_key) refl

  -- `Set` keeps the table well formed; afterwards the key reads as the value and every other key as
  -- before, and the size has grown by one exactly if the key was not there. This holds whether or
  -- not the table grows.
  pub get-set_key :
      (other : GoString)
      → IsTable (set_key ht key value)
        × (get (set_key ht key value) other ≡ ite (same_key key other) (some value) (get ht other))
        × ((set_key ht key value).size ≡ ht.size + absence (get ht key))
  get-set_key other =
      let chain = bucket_at ht (index_of ht.capacity key) in
      elim (Option-cases (lookup key chain)) [
        | inr (old, found) ↦
            let same_length : length (assign key value chain) ≡ length chain =
              length-assign-absence key value chain ∙ rw found (omega arith) in
            rw (set_old old found, get-chain ht key, found)
              (
                set_bucket-IsTable ht key (assign key value chain) ht.size h
                    (assign-Entries ht.capacity key value chain (bucket_at-IsChain ht key h))
                    (omega (arith, same_length)),
                get-set_bucket ht key other (assign key value chain) ht.size (some value) h
                    (λ j. lookup-assign j key value chain),
                omega arith,
              )
        | inl absent ↦
            let (table, reads, size) =
              maybe_resize (push ht key value) (ht.capacity * 2) (should_grow (push ht key value))
                (push-IsTable ht key value h (get-chain ht key ∙ absent)) in
            rw (set_new absent, get-chain ht key, absent)
              (table, reads other ∙ get-push ht key value other h, size ∙ size-push ht key value)
      ]

module _ (ht : BucketHashTable) (key : GoString) (h : IsTable ht) where
  abbrev removed : BucketHashTable
  removed = record ht {
    bucket =
        set ht.bucket (index_of ht.capacity key)
          (remove_entry key (bucket_at ht (index_of ht.capacity key)));
    size = ht.size - 1;
  }

  delete_old :
      (old : GoString)
      → lookup key (bucket_at ht (index_of ht.capacity key)) ≡ some old
      → delete_key ht key
        ≡ (if should_shrink removed then resize removed (ht.capacity / 2) else removed, true)
  unfolding delete_key hash
  delete_old old found = rw (found, delete_key) refl

  delete_none :
      lookup key (bucket_at ht (index_of ht.capacity key)) ≡ none → delete_key ht key ≡ (ht, false)
  unfolding delete_key hash
  delete_none absent = rw (absent, delete_key) refl

  removed_lem :
      (old other : GoString)
      → lookup key (bucket_at ht (index_of ht.capacity key)) ≡ some old
      → IsTable removed
        × (get removed other ≡ ite (same_key key other) none (get ht other))
        × (removed.size + 1 ≡ ht.size)
  removed_lem old other found =
      let chain = bucket_at ht (index_of ht.capacity key) in
      let is_chain = bucket_at-IsChain ht key h in
      let shorter = length-remove_entry key chain (λ e. ground (arith, e, found)) in
      let same = remove_entry-delete key chain is_chain.0 in
      let counted = count-get (index_of ht.capacity key) ht.bucket in
      let smaller : (ht.size - 1) + 1 ≡ ht.size = omega (arith, h.size, shorter, counted) in
      (
        set_bucket-IsTable ht key (remove_entry key chain) (ht.size - 1) h
            (subst (IsChain ht.capacity (index_of ht.capacity key)) (sym same)
              (delete-IsChain ht.capacity (index_of ht.capacity key) key chain is_chain))
            (omega (arith, shorter, smaller)),
        get-set_bucket ht key other (remove_entry key chain) (ht.size - 1) none h
            (λ j. ap (lookup j) same ∙ lookup-delete j key chain),
        smaller,
      )

  -- `Delete` keeps the table well formed; afterwards the key reads as absent and every other key
  -- as before. It answers whether the key was there, and then the size is one less; otherwise
  -- it is the same. This holds whether or not the table shrinks.
  pub get-delete_key :
      (other : GoString)
      → IsTable (delete_key ht key).0
        × (get (delete_key ht key).0 other ≡ ite (same_key key other) none (get ht other))
        × ((delete_key ht key).1 ≡ is_some (get ht key))
        × ((delete_key ht key).0.size + 1 ≡ ht.size + absence (get ht key))
  get-delete_key other =
      elim (Option-cases (lookup key (bucket_at ht (index_of ht.capacity key)))) [
        | inr (old, found) ↦
            let (table, reads, size) = removed_lem old other found in
            let (table', reads', size') =
              maybe_resize removed (ht.capacity / 2) (should_shrink removed) table in
            rw (delete_old old found, get-chain ht key, found)
              (table', reads' other ∙ reads, refl, omega (arith, size, size'))
        | inl absent ↦
            rw (delete_none absent, get-chain ht key, absent)
              (h, same_read other absent, refl, refl)
      ]
    where
      same_read :
          (other : GoString)
          → lookup key (bucket_at ht (index_of ht.capacity key)) ≡ none
          → get ht other ≡ ite (same_key key other) none (get ht other)
      same_read other absent = elim (same_key key other) [
        | yes p ↦ sym (
            if_pos (same_key key other) p none (get ht other)
            ∙ sym (get-chain ht key ∙ absent)
            ∙ ap (get ht) p)
        | no p ↦ sym (if_neg (same_key key other) p none (get ht other))
      ]

-- The calls on a map instead of a table.
unfoldable pub map_run : Map GoString GoString → List Call → Map GoString GoString
unfolding assign delete
map_run m [] = m
map_run m (set_call key value ∷ calls) = map_run (assign key value m) calls
map_run m (delete_call key ∷ calls) = map_run (delete key m) calls

run_reads :
    (ht : BucketHashTable) (m : Map GoString GoString) (calls : List Call)
    → IsTable ht
    → ((key : GoString) → get ht key ≡ lookup key m)
    → IsTable (run ht calls)
      × ((key : GoString) → get (run ht calls) key ≡ lookup key (map_run m calls))
unfolding run map_run
run_reads ht m [] h same = (h, same)
run_reads ht m (set_call key value ∷ calls) h same =
    run_reads (set_key ht key value) (assign key value m) calls (get-set_key ht key value h key).0
      (λ other.
        (get-set_key ht key value h other).1
        ∙ ap (ite (same_key key other) (some value)) (same other)
        ∙ sym (lookup-assign other key value m))
run_reads ht m (delete_call key ∷ calls) h same =
    run_reads (delete_key ht key).0 (delete key m) calls (get-delete_key ht key h key).0 (λ other.
      (get-delete_key ht key h other).1
      ∙ ap (ite (same_key key other) none) (same other)
      ∙ sym (lookup-delete other key m))

-- After any calls of `Set` and `Delete` on a new table, with all the resizing that they
-- cause, the table is well formed (no access to a bucket is out of range, every key stands
-- once, the size is the number of entries), and it reads as a map does after the same calls.
pub get-run_refines :
    (capacity : ℤ) (calls : List Call)
    → IsTable (run (new capacity) calls)
      × ((key : GoString) → get (run (new capacity) calls) key ≡ lookup key (map_run [] calls))
get-run_refines capacity calls =
    run_reads (new capacity) [] calls (new-IsTable capacity).0
      (λ key. (new-IsTable capacity).1 key ∙ unfold lookup in refl)
