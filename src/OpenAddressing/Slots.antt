-- ===== src/OpenAddressing/Slots.antt =====
-- The search for a slot in 03-Hash-Table/open-addressing-hash-table.go.
use design_with_ts_go.Base.{
  ℕ, zero, suc, ◌+◌, ◌%◌, ◌≤◌, ◌<◌, ◌≡◌, refl, sym, inl, inr, true, false, Option, none, some,
  arith, Bool-cases, Option-cases, nat_key, GoString, string_key, or_else, int_key,
}
use native.Mathlib.Nat.{mod-lt}
use mathlib.Core.Path.{subst}
use design_with_ts_go.OpenAddressing.{
  OaHashEntry, OaProbeResult, OpenAddressingHashTable, hash, slot_at, holds_key, note_deleted,
  find_from, find_slot, live, seek_from,
}

module _ {V : Type 0} where
  -- The slot holds the key.
  abbrev pub Holds : OpenAddressingHashTable V → GoString → ℕ → Type 0
  Holds ht key index =
      (entry : OaHashEntry V) × (slot_at ht index ≡ some entry) × (holds_key key entry ≡ true)

  -- The slot is free for a new entry.
  abbrev pub IsFree : Option (OaHashEntry V) → Type 0
  IsFree none = Unit
  IsFree (some entry) = entry.deleted ≡ true

  abbrev pub IsFreeIndex : OpenAddressingHashTable V → Option ℕ → Type 0
  IsFreeIndex ht none = Unit
  IsFreeIndex ht (some index) = (index < ht.capacity) × IsFree (slot_at ht index)

  -- What `findSlot` answers, next to the search of `Get`: the slot of the key, or a slot for it.
  abbrev pub Probes : OpenAddressingHashTable V → GoString → Option ℕ → OaProbeResult → Type 0
  Probes ht key (some index) r =
      (r.index ≡ some index) × (r.found ≡ true) × (index < ht.capacity) × Holds ht key index
  Probes ht key none r = (r.found ≡ false) × IsFreeIndex ht r.index

  module _ (ht : OpenAddressingHashTable V) (key : GoString) (room : 1 ≤ ht.capacity) where
    pub note_free :
        (first : Option ℕ) (index : ℕ) (entry : OaHashEntry V)
        → slot_at ht index ≡ some entry
        → index < ht.capacity
        → IsFreeIndex ht first
        → IsFreeIndex ht (note_deleted first index (some entry))
    note_free first index entry found below free = ground (arith, found)

    pub empty_free :
        (first : Option ℕ) (index : ℕ)
        → slot_at ht index ≡ none
        → index < ht.capacity
        → IsFreeIndex ht first
        → IsFreeIndex ht (or_else first (some index))
    empty_free none index empty below free = (below, subst IsFree (sym empty) tt)
    empty_free (some i) index empty below free = free

    pub find_from_lem :
        (offset count : ℕ) (first : Option ℕ)
        → IsFreeIndex ht first
        → Probes ht key (seek_from ht key offset count) (find_from ht key offset count first)
    unfolding seek_from find_from
    find_from_lem offset zero first free = (refl, free)
    find_from_lem offset (suc count) first free =
        let index = (hash ht key + offset) % ht.capacity in
        let below : index < ht.capacity = mod-lt (hash ht key + offset) room in
        elim (Option-cases (slot_at ht index)) [
          | inl empty ↦
              rw (empty, seek_from, find_from) (refl, empty_free first index empty below free)
          | inr (entry, there) ↦ elim (Bool-cases (holds_key key entry)) [
            | inl yes_key ↦
                rw (there, seek_from, find_from, yes_key)
                  (refl, refl, below, (entry, there, yes_key))
            | inr other ↦
                rw (there, seek_from, find_from, other)
                  (find_from_lem (offset + 1) count (note_deleted first index (slot_at ht index)) (
                    subst (λ s. IsFreeIndex ht (note_deleted first index s)) (sym there)
                      (note_free first index entry there below free)))
          ]
        ]

    -- `findSlot` and `Get` search alike: when `Get` has an index for the key, `findSlot` answers
    -- that index, in range and holding the key, as found; when it has none, `findSlot` answers not
    -- found with a slot in range that is nil or deleted, or with none.
    pub find_slot-Probes : Probes ht key (seek_from ht key 0 ht.capacity) (find_slot ht key)
    unfolding find_slot
    find_slot-Probes = find_from_lem 0 ht.capacity none tt

  -- The key of an entry that holds a key.
  pub holds_key_inv :
      (key : GoString) (entry : OaHashEntry V)
      → holds_key key entry ≡ true
      → (entry.key ≡ key) × (entry.deleted ≡ false)
  holds_key_inv key entry h = ground arith

  pub holds_key-live :
      (key other : GoString) (value : V) (entry : OaHashEntry V)
      → holds_key key entry ≡ true
      → holds_key other (live key value) ≡ holds_key other entry
  holds_key-live key other value entry h =
      let (same, alive) = holds_key_inv key entry h in rw (same, alive) refl
