-- ===== src/BinaryHeap/SiftDown.antt =====
-- 06-Min-Heap-Max-Heap/main.go: the loop that moves an element down.
use design_with_ts_go.Base.{
  ℕ, ◌+◌, ◌-◌, ◌*◌, ◌/◌, ◌≤◌, ◌<◌, ◌≡◌, refl, ◌≢◌, ◌⊎◌, inl, inr, Bool, true, false, ◌&&◌, List,
  arith, ℕ_discrete, ltb, ltb→lt, Bool-cases, length, nat_key, string_key, if-elim, int_key,
}
use design_with_ts_go.BinaryHeap.{higher, best, best_left}
use design_with_ts_go.BinaryHeap.Order.{
  IsPriority, higher-asym, higher-negative, higher_self, higher_out,
}

abbrev pub parent : ℕ → ℕ
parent j = (j - 1) / 2

module _ {T : Type 0} (higher_priority : T → T → Bool) where
  -- The element does not come before its parent.
  abbrev pub Ordered : List T → ℕ → ℕ → Type 0
  Ordered xs j p = higher higher_priority xs j p ≡ false

  -- The elements whose parents are from an index on.
  abbrev pub HeapFrom : ℕ → List T → Type 0
  HeapFrom least xs = (j : ℕ) → 1 ≤ j → least ≤ parent j → Ordered xs j (parent j)

  -- All but the children of one index, which do not come before its parent.
  pub record IsGap (least index : ℕ) (xs : List T) : Type 0 where
    pub in_range : index < length xs
    pub from : least ≤ index
    pub others : (j : ℕ) → 1 ≤ j → least ≤ parent j → parent j ≢ index → Ordered xs j (parent j)
    pub below :
        (j : ℕ)
        → 1 ≤ j
        → parent j ≡ index
        → 1 ≤ index
        → least ≤ parent index
        → Ordered xs j (parent index)

  -- What the two tests of a round find.
  pub record IsBest (index chosen : ℕ) (xs : List T) : Type 0 where
    pub stays : chosen ≡ index ⊎ ((chosen < length xs) × (1 ≤ chosen) × (parent chosen ≡ index))
    pub up : Ordered xs index chosen
    pub first : (j : ℕ) → 1 ≤ j → parent j ≡ index → Ordered xs j chosen

  child_cases : (index j : ℕ) → 1 ≤ j → parent j ≡ index → (j ≡ index * 2 + 1) ⊎ (j ≡ index * 2 + 2)
  child_cases index j b p = elim (ℕ_discrete j (index * 2 + 1)) [
    | yes e ↦ inl e
    | no ne ↦ inr (omega (arith, ne))
  ]

  first_of_both :
      (xs : List T) (index chosen : ℕ)
      → Ordered xs (index * 2 + 1) chosen
      → Ordered xs (index * 2 + 2) chosen
      → (j : ℕ) → 1 ≤ j
      → parent j ≡ index
      → Ordered xs j chosen
  first_of_both xs index chosen l r j b p = elim (child_cases index j b p) [
    | inl e ↦ rw e l
    | inr e ↦ rw e r
  ]

  module _ (order : IsPriority higher_priority) where
    -- A child that fails the test does not come before the other index.
    not_taken :
        (xs : List T) (child other : ℕ)
        → (ltb child (length xs) && higher higher_priority xs child other) ≡ false
        → Ordered xs child other
    not_taken xs child other e = elim (Bool-cases (ltb child (length xs))) [
      | inl inside ↦ rw inside at e
      | inr outside ↦ higher_out higher_priority order xs child other (ground arith)
    ]

    and_left : (a b : Bool) → (a && b) ≡ true → a ≡ true
    and_left a b e = ground arith

    and_right : (a b : Bool) → (a && b) ≡ true → b ≡ true
    and_right a b e = ground arith

    record IsLeft (index chosen : ℕ) (xs : List T) : Type 0 where
      inside : chosen < length xs
      stays_left : chosen ≡ index ⊎ (chosen ≡ index * 2 + 1)
      up_left : Ordered xs index chosen
      first_left : Ordered xs (index * 2 + 1) chosen

    best_left-IsLeft :
        (xs : List T) (index : ℕ)
        → index < length xs
        → IsLeft index (best_left higher_priority xs index) xs
    best_left-IsLeft xs index inside =
        let left = index * 2 + 1 in
        let test = ltb left (length xs) && higher higher_priority xs left index in
        if-elim (λ chosen. IsLeft index chosen xs) test left index
          (λ taken. record {
            inside =
                ltb→lt left (length xs)
                  (and_left (ltb left (length xs)) (higher higher_priority xs left index) taken);
            stays_left = inr refl;
            up_left =
                higher-asym higher_priority order xs left index
                  (and_right (ltb left (length xs)) (higher higher_priority xs left index) taken);
            first_left = higher_self higher_priority order xs left;
          })
          (λ passed. record {
            inside = inside;
            stays_left = inl refl;
            up_left = higher_self higher_priority order xs index;
            first_left = not_taken xs left index passed;
          })

    pub best-IsBest :
        (xs : List T) (index : ℕ)
        → index < length xs
        → IsBest index (best higher_priority xs index) xs
    best-IsBest xs index inside =
        let left = best_left higher_priority xs index in
        let l = best_left-IsLeft xs index inside in
        let right = index * 2 + 2 in
        let test = ltb right (length xs) && higher higher_priority xs right left in
        if-elim (λ chosen. IsBest index chosen xs) test right left
          (λ taken.
            let before =
              higher-asym higher_priority order xs right left
                (and_right (ltb right (length xs)) (higher higher_priority xs right left) taken) in
            record {
              stays = inr (
                ltb→lt right (length xs)
                    (and_left (ltb right (length xs)) (higher higher_priority xs right left) taken),
                omega arith,
                omega arith,
              );
              up =
                  higher-negative higher_priority order xs index left right l.inside l.up_left
                    before;
              first =
                  first_of_both xs index right
                    (higher-negative higher_priority order xs (index * 2 + 1) left right l.inside
                      l.first_left before)
                    (higher_self higher_priority order xs right);
            })
          (λ passed. record {
            stays = elim l.stays_left [
              | inl e ↦ inl e
              | inr e ↦ inr (l.inside, omega arith, omega arith)
            ];
            up = l.up_left;
            first = first_of_both xs index left l.first_left (not_taken xs right left passed);
          })
