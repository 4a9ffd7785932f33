-- ===== src/KeyValueStore/Ranges.antt =====
-- What `Range` of 26-Key-Value-Store/main.go returns.
use design_with_ts_go.Base.{
  ◌≡◌, refl, sym, ap, ◌∙◌, ◌≢◌, ◌⊎◌, inl, inr, ite, if_pos, if_neg, true, ◌&&◌, Option, none, some,
  List, [], ◌∷◌, arith, if◌then◌else◌, All, nat_key, same_key, lookup, lookup-delete, GoString,
  string_key, or_else, keys, lookup-All-keys, sort, IsSorted, sort-All, sort-IsSorted, leb_string,
  leb_string-IsOrder, ℤ, int_key,
}
use design_with_ts_go.KeyValueStore.{
  KvEntry, KeyValueStore, get, read_in_range, report, range_loop, range,
}
use design_with_ts_go.KeyValueStore.Expiry.{peek, get_returns}

-- The pair that is reported of a key.
abbrev pub wanted :
    GoString → GoString → (GoString → ℤ) → KeyValueStore → GoString → Option GoString
wanted start end clock s key =
    if leb_string start key && leb_string key end then peek s key (clock key) else none

lookup-report :
    (k key : GoString) (o : Option GoString) (result : List (GoString × GoString))
    → lookup k (report key o result)
      ≡ ite (same_key key k) (or_else o (lookup k result)) (lookup k result)
unfolding lookup
lookup-report k key o result = ground arith

module _ (start end : GoString) (clock : GoString → ℤ) where
  -- One round reports what is wanted of its key, and changes what is wanted of no key.
  round_lem :
      (key other : GoString) (s : KeyValueStore)
      → ((read_in_range start end (clock key) key s).1 ≡ wanted start end clock s key)
        × (wanted start end clock (read_in_range start end (clock key) key s).0 other
            ≡ wanted start end clock s other)
  unfolding read_in_range get
  round_lem key other s = (
    ground (arith, get_returns s key (clock key)),
    ground (arith, lookup-delete other key s.entries),
  )

  absent :
      (k : GoString) (ks : List GoString) (s : KeyValueStore)
      → All (λ y. y ≢ k) ks
      → lookup k (range_loop start end clock ks s).1 ≡ none
  unfolding range_loop lookup
  absent k [] s h = refl
  absent k (key ∷ ks) s h =
      let (s', o) = read_in_range start end (clock key) key s in
      ground
        (arith, h.0, absent k ks s' h.1, lookup-report k key o (range_loop start end clock ks s').1)

  found_or_absent :
      (k : GoString) (ks : List GoString) (s : KeyValueStore)
      → (lookup k (range_loop start end clock ks s).1 ≡ wanted start end clock s k)
        ⊎ All (λ y. y ≢ k) ks
  unfolding range_loop
  found_or_absent k [] s = inr tt
  found_or_absent k (key ∷ ks) s =
      combine (same_key key k) (found_or_absent k ks (read_in_range start end (clock key) key s).0)
    where
      s' : KeyValueStore
      s' = (read_in_range start end (clock key) key s).0

      o : Option GoString
      o = (read_in_range start end (clock key) key s).1

      reported :
          lookup k (report key o (range_loop start end clock ks s').1)
          ≡ ite
              (same_key key k)
              (or_else o (lookup k (range_loop start end clock ks s').1))
              (lookup k (range_loop start end clock ks s').1)
      reported = lookup-report k key o (range_loop start end clock ks s').1

      first : (a r w : Option GoString) → a ≡ w → (a ≡ none → r ≡ w) → or_else a r ≡ w
      first none r w e f = f refl
      first (some v) r w e f = e

      later :
          o ≡ wanted start end clock s k
          → o ≡ none
          → (lookup k (range_loop start end clock ks s').1 ≡ wanted start end clock s' k)
            ⊎ All (λ y. y ≢ k) ks
          → lookup k (range_loop start end clock ks s').1 ≡ wanted start end clock s k
      later read nothing (inl e) = e ∙ (round_lem key k s).1
      later read nothing (inr h) = absent k ks s' h ∙ sym nothing ∙ read

      combine :
          Dec (key ≡ k)
          → (lookup k (range_loop start end clock ks s').1 ≡ wanted start end clock s' k)
            ⊎ All (λ y. y ≢ k) ks
          → (lookup k (report key o (range_loop start end clock ks s').1)
              ≡ wanted start end clock s k)
            ⊎ ((key ≢ k) × All (λ y. y ≢ k) ks)
      combine (no p) (inr h) = inr (p, h)
      combine (no p) (inl e) = inl (rw (reported, if_neg _ p) (e ∙ (round_lem key k s).1))
      combine (yes p) rest =
          let read : o ≡ wanted start end clock s k =
            (round_lem key k s).0 ∙ ap (wanted start end clock s) p in
          inl (rw (reported, if_pos _ p) (first o _ _ read (λ nothing. later read nothing rest)))

  range_loop-All :
      (P : GoString → Type 0) (ks : List GoString) (s : KeyValueStore)
      → All P ks
      → All P (keys (range_loop start end clock ks s).1)
  unfolding range_loop
  range_loop-All P [] s h = tt
  range_loop-All P (key ∷ ks) s h =
      let (s', o) = read_in_range start end (clock key) key s in
      reported o (range_loop start end clock ks s').1 (range_loop-All P ks s' h.1)
    where
      reported :
          (a : Option GoString) (result : List (GoString × GoString))
          → All P (keys result)
          → All P (keys (report key a result))
      reported none result hr = hr
      reported (some v) result hr = (h.0, hr)

  range_loop-IsSorted :
      (ks : List GoString) (s : KeyValueStore)
      → IsSorted leb_string ks
      → IsSorted leb_string (keys (range_loop start end clock ks s).1)
  unfolding range_loop
  range_loop-IsSorted [] s h = tt
  range_loop-IsSorted (key ∷ ks) s h =
      let (s', o) = read_in_range start end (clock key) key s in
      reported o (range_loop start end clock ks s').1
        (range_loop-All (λ y. leb_string key y ≡ true) ks s' h.0) (range_loop-IsSorted ks s' h.1)
    where
      reported :
          (a : Option GoString) (result : List (GoString × GoString))
          → All (λ y. leb_string key y ≡ true) (keys result)
          → IsSorted leb_string (keys result)
          → IsSorted leb_string (keys (report key a result))
      reported none result above sorted = sorted
      reported (some v) result above sorted = (above, sorted)

-- `Range` returns its pairs in ascending order of the keys, and finds of each key what a `Get` at
-- the instant of its reading would, if the key lies in the closed interval, and nothing of any
-- other key: evicting an expired key on the way loses no other.
pub range_lem :
    (s : KeyValueStore) (start end : GoString) (clock : GoString → ℤ)
    → IsSorted leb_string (keys (range s start end clock).1)
      × ((k : GoString)
          → lookup k (range s start end clock).1
            ≡ (if leb_string start k && leb_string k end then (get s k (clock k)).1 else none))
unfolding range
range_lem s start end clock =
    let ks = sort leb_string (keys s.entries) in
    (
      range_loop-IsSorted start end clock ks s
          (sort-IsSorted leb_string leb_string-IsOrder (keys s.entries)),
      λ k. rw (get_returns s k (clock k)) (found k (found_or_absent start end clock k ks s)),
    )
  where
    found :
        (k : GoString)
        → (lookup k (range_loop start end clock (sort leb_string (keys s.entries)) s).1
            ≡ wanted start end clock s k)
          ⊎ All (λ y. y ≢ k) (sort leb_string (keys s.entries))
        → lookup k (range_loop start end clock (sort leb_string (keys s.entries)) s).1
          ≡ wanted start end clock s k
    found k (inl e) = e
    found k (inr h) =
        absent start end clock k (sort leb_string (keys s.entries)) s h
        ∙ unwanted (lookup k s.entries) refl
      where
        unwanted : (o : Option KvEntry) → lookup k s.entries ≡ o → none ≡ wanted start end clock s k
        unwanted none e = ground arith
        unwanted (some entry) e = absurd (
            lookup-All-keys (λ y. y ≢ k) s.entries k
              (sort-All leb_string (λ y. y ≢ k) (keys s.entries) h) (λ g. cc) refl)
