-- ===== src/OpenAddressing/Probing.antt =====
-- Updating in place in 03-Hash-Table/open-addressing-hash-table.go.
use design_with_ts_go.Base.{
  ℕ, zero, suc, ◌+◌, ◌%◌, ◌^◌, ◌≤◌, ◌<◌, ◌≡◌, refl, sym, ap, ◌∙◌, ◌≢◌, inl, inr, ite, if_pos,
  if_neg, true, false, Option, none, some, arith, ℕ_discrete, ◌==◌, if◌then◌else◌, Bool-cases,
  Option-cases, length, set, nat_key, same_key, GoString, string_key, map_some, get_elem?-set,
  int_key,
}
use mathlib.Core.Path.{subst}
use mathlib.Core.Option.{some-injective}
use design_with_ts_go.OpenAddressing.{
  OaHashEntry, OpenAddressingHashTable, hash, slot_at, holds_key, find_slot, put_at, live, set_key,
  seek_from, get,
}
use design_with_ts_go.OpenAddressing.Slots.{
  Holds, Probes, find_slot-Probes, holds_key_inv, holds_key-live,
}

module _ {V : Type 0} where
  -- The value at an index.
  read_at : OpenAddressingHashTable V → Option ℕ → Option V
  read_at ht none = none
  read_at ht (some index) = map_some (λ entry. entry.value) (slot_at ht index)

  get-read_at :
      (ht : OpenAddressingHashTable V) (key : GoString)
      → get ht key ≡ read_at ht (seek_from ht key 0 ht.capacity)
  unfolding get read_at
  get-read_at ht key = elim (Option-cases (seek_from ht key 0 ht.capacity)) [
    | inl e ↦ rw (e, get) refl
    | inr (i, e) ↦ rw (e, get) refl
  ]

  -- An entry's value replaced where it stands.
  module _ (ht : OpenAddressingHashTable V) (key : GoString) (value : V) (index : ℕ)
      (inside : index < length ht.buckets) (holds : Holds ht key index) where
    slot_at-put_at :
        (i : ℕ)
        → slot_at (put_at ht index (live key value)) i
          ≡ (if index == i then some (live key value) else slot_at ht i)
    slot_at-put_at i = elim (Bool-cases (index == i)) [
      | inl e ↦ rw (get_elem?-set ht.buckets index i (some (live key value)) inside, e) refl
      | inr e ↦ rw (get_elem?-set ht.buckets index i (some (live key value)) inside, e) refl
    ]

    seek_from-put_at :
        (other : GoString) (offset count : ℕ)
        → seek_from (put_at ht index (live key value)) other offset count
          ≡ seek_from ht other offset count
    unfolding seek_from hash
    seek_from-put_at other offset zero = refl
    seek_from-put_at other offset (suc count) =
        let i = (hash ht other + offset) % ht.capacity in
        elim (ℕ_discrete index i) [
          | yes p ↦
              let same : (index == i) ≡ true = ground (arith, p) in
              let there : slot_at ht i ≡ some holds.0 =
                subst (λ j. slot_at ht j ≡ some holds.0) p holds.1 in
              rw
                (
                  slot_at-put_at i,
                  seek_from,
                  same,
                  there,
                  holds_key-live key other value holds.0 holds.2,
                  seek_from-put_at other (offset + 1) count,
                )
                refl
          | no p ↦
              let apart : (index == i) ≡ false = ground (arith, p) in
              elim (Option-cases (slot_at ht i)) [
                | inl empty ↦ rw (slot_at-put_at i, seek_from, apart, empty) refl
                | inr (entry, there) ↦
                    rw
                      (
                        slot_at-put_at i,
                        seek_from,
                        apart,
                        there,
                        seek_from-put_at other (offset + 1) count,
                      )
                      refl
              ]
        ]

    get-put_at_key :
        seek_from ht key 0 ht.capacity ≡ some index
        → get (put_at ht index (live key value)) key ≡ some value
    unfolding read_at
    get-put_at_key sought =
        let same : (index == index) ≡ true = ground arith in
        get-read_at (put_at ht index (live key value)) key
        ∙ rw (seek_from-put_at key 0 ht.capacity, sought, slot_at-put_at index, same) refl

    get-put_at_other :
        (other : GoString)
        → 1 ≤ ht.capacity
        → key ≢ other
        → get (put_at ht index (live key value)) other ≡ get ht other
    unfolding read_at
    get-put_at_other other room ne = elim (Option-cases (seek_from ht other 0 ht.capacity)) [
      | inl missing ↦
          get-read_at (put_at ht index (live key value)) other
          ∙ rw (seek_from-put_at other 0 ht.capacity, missing) refl
          ∙ sym (get-read_at ht other ∙ ap (read_at ht) missing)
      | inr (i, found) ↦
          let (_, _, _, (entry, there, mine)) =
            subst (λ o. Probes ht other o (find_slot ht other)) found
              (find_slot-Probes ht other room) in
          let apart : (index == i) ≡ false = apart_of other i entry ne there mine in
          get-read_at (put_at ht index (live key value)) other
          ∙ rw (seek_from-put_at other 0 ht.capacity, found, slot_at-put_at i, apart) refl
          ∙ sym (get-read_at ht other ∙ ap (read_at ht) found)
    ]
      where
        apart_of :
            (other : GoString) (i : ℕ) (entry : OaHashEntry V)
            → key ≢ other
            → slot_at ht i ≡ some entry
            → holds_key other entry ≡ true
            → (index == i) ≡ false
        apart_of other i entry ne there mine = elim (ℕ_discrete index i) [
          | no p ↦ ground (arith, p)
          | yes p ↦
              let same : holds.0 ≡ entry =
                some-injective holds.0 entry
                  (sym holds.1 ∙ subst (λ j. slot_at ht j ≡ some entry) (sym p) there) in
              absurd (
                ne (
                  sym (holds_key_inv key holds.0 holds.2).0
                  ∙ ap (λ e. e.key) same
                  ∙ (holds_key_inv other entry mine).0))
        ]

  -- In a table of 1 to 2^32 - 1 slots, setting a key that it has does not panic and neither resizes
  -- nor takes another slot: only a slot that held the key is written, the capacity and the numbers
  -- of entries and of used slots stay, the key then reads as the new value and every other key as
  -- before.
  pub get-set_key_update :
      (ht : OpenAddressingHashTable V) (key other : GoString) (value : V)
      → 1 ≤ ht.capacity
      → ht.capacity < 2 ^ 32
      → length ht.buckets ≡ ht.capacity
      → get ht key ≢ none
      → (after : OpenAddressingHashTable V) × (set_key ht key value ≡ some after)
        × (get after other ≡ ite (same_key key other) (some value) (get ht other))
        × (after.size ≡ ht.size)
        × (after.used ≡ ht.used)
        × (after.capacity ≡ ht.capacity)
        × ((index : ℕ) × Holds ht key index
            × (after.buckets ≡ set ht.buckets index (some (live key value))))
  unfolding set_key read_at
  get-set_key_update ht key other value room small full present =
      elim (Option-cases (seek_from ht key 0 ht.capacity)) [
        | inl missing ↦ absurd (present (get-read_at ht key ∙ ap (read_at ht) missing))
        | inr (index, sought) ↦
            let (at_index, found, below, holds) =
              subst (λ o. Probes ht key o (find_slot ht key)) sought
                (find_slot-Probes ht key room) in
            let inside : index < length ht.buckets = rw full below in
            (
              put_at ht index (live key value),
              rw (found, at_index) refl,
              elim (same_key key other) [
                | yes p ↦
                    subst (λ o. get (put_at ht index (live key value)) o ≡ some value) p
                      (get-put_at_key ht key value index inside holds sought)
                    ∙ sym (if_pos (same_key key other) p (some value) (get ht other))
                | no p ↦
                    get-put_at_other ht key value index inside holds other room p
                    ∙ sym (if_neg (same_key key other) p (some value) (get ht other))
              ],
              refl,
              refl,
              refl,
              (index, holds, refl),
            )
      ]
