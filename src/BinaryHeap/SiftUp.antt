-- ===== src/BinaryHeap/SiftUp.antt =====
-- 06-Min-Heap-Max-Heap/main.go: the loop that moves an element up.
use design_with_ts_go.Base.{
  ℕ, zero, suc, ◌/◌, ◌≤◌, ◌<◌, ◌≡◌, sym, ap, ◌∙◌, ◌≢◌, Bool, true, false, not, List, arith,
  ℕ_discrete, length, nat_key, string_key, if-elim, int_key,
}
use mathlib.Core.Path.{subst}
use design_with_ts_go.BinaryHeap.{higher, swap, sift_up}
use design_with_ts_go.BinaryHeap.Order.{IsPriority, higher-asym, higher-negative}
use design_with_ts_go.BinaryHeap.Swaps.{moved, moved_first, moved_second, moved_other, length-swap}
use design_with_ts_go.BinaryHeap.SiftDown.{parent, Ordered, HeapFrom}
use design_with_ts_go.BinaryHeap.Descent.{Ordered-swap}

module _ {T : Type 0} (higher_priority : T → T → Bool) (order : IsPriority higher_priority) where
  -- All but one element, whose children do not come before its parent.
  pub record IsRise (index : ℕ) (xs : List T) : Type 0 where
    pub in_range : index < length xs
    pub others : (j : ℕ) → 1 ≤ j → j ≢ index → Ordered higher_priority xs j (parent j)
    pub below :
        (j : ℕ) → 1 ≤ j → parent j ≡ index → 1 ≤ index → Ordered higher_priority xs j (parent index)

  module _ (index up : ℕ) (xs : List T) (positive : 1 ≤ index) (above : parent index ≡ up)
      (taken : higher higher_priority xs index up ≡ true) (rise : IsRise index xs) where
    inside : up < length xs
    inside = omega (arith, rise.in_range)

    down : Ordered higher_priority xs up index
    down = higher-asym higher_priority order xs index up taken

    swap_others :
        (j : ℕ)
        → 1 ≤ j
        → j ≢ up
        → Ordered higher_priority (swap higher_priority xs index up) j (parent j)
    swap_others j p ne = elim (ℕ_discrete j index) [
      | yes same ↦
          Ordered-swap higher_priority xs index up j (parent j) up index rise.in_range inside
            (ap (moved index up) same ∙ moved_first index up)
            (ap (moved index up) (ap parent same ∙ above) ∙ moved_second index up) down
      | no differs ↦ elim (ℕ_discrete (parent j) index) [
        | yes child ↦
            Ordered-swap higher_priority xs index up j (parent j) j up rise.in_range inside
              (moved_other index up j differs ne) (ap (moved index up) child ∙ moved_first index up)
              (subst (Ordered higher_priority xs j) above (rise.below j p child positive))
        | no other ↦ elim (ℕ_discrete (parent j) up) [
          | yes sibling ↦
              Ordered-swap higher_priority xs index up j (parent j) j index rise.in_range inside
                (moved_other index up j differs ne)
                (ap (moved index up) sibling ∙ moved_second index up)
                (higher-negative higher_priority order xs j up index inside
                  (subst (Ordered higher_priority xs j) sibling (rise.others j p differs)) down)
          | no far ↦
              Ordered-swap higher_priority xs index up j (parent j) j (parent j) rise.in_range
                inside (moved_other index up j differs ne)
                (moved_other index up (parent j) other far) (rise.others j p differs)
        ]
      ]
    ]

    swap_below :
        (j : ℕ)
        → 1 ≤ j
        → parent j ≡ up
        → 1 ≤ up
        → Ordered higher_priority (swap higher_priority xs index up) j (parent up)
    swap_below j p child high =
        let top = parent up in
        let kept = moved_other index up top (omega arith) (omega arith) in
        let to_top = rise.others up high (omega arith) in
        elim (ℕ_discrete j index) [
          | yes same ↦
              Ordered-swap higher_priority xs index up j top up top rise.in_range inside
                (ap (moved index up) same ∙ moved_first index up) kept to_top
          | no differs ↦
              Ordered-swap higher_priority xs index up j top j top rise.in_range inside
                (moved_other index up j differs (omega arith)) kept
                (higher-negative higher_priority order xs j up top inside
                  (subst (Ordered higher_priority xs j) child (rise.others j p differs)) to_top)
        ]

    swap-IsRise : IsRise up (swap higher_priority xs index up)
    swap-IsRise = record {
      in_range = rw (length-swap higher_priority xs index up) inside;
      others = swap_others;
      below = swap_below;
    }

  pub sift_up-HeapFrom :
      (fuel index : ℕ) (xs : List T)
      → index ≤ fuel
      → IsRise index xs
      → HeapFrom higher_priority 0 (sift_up higher_priority fuel index xs)
  unfolding sift_up
  sift_up-HeapFrom fuel zero xs enough rise = λ j p from. rise.others j p (omega arith)
  sift_up-HeapFrom zero (suc index) xs enough rise = absurd (omega arith)
  sift_up-HeapFrom (suc fuel) (suc index) xs enough rise =
      let up = index / 2 in
      let above : parent (suc index) ≡ up = omega arith in
      let next = swap higher_priority xs (suc index) up in
      let test = higher higher_priority xs (suc index) up in
      if-elim (HeapFrom higher_priority 0) (not test) xs (sift_up higher_priority fuel up next)
        (λ stops.
          let rests : test ≡ false = ground arith in
          λ j p from. elim (ℕ_discrete j (suc index)) [
            | yes same ↦
                subst (λ k. Ordered higher_priority xs k (parent k)) (sym same)
                  (subst (Ordered higher_priority xs (suc index)) (sym above) rests)
            | no ne ↦ rise.others j p ne
          ])
        (λ goes_on.
          sift_up-HeapFrom fuel up next (omega arith)
            (swap-IsRise (suc index) up xs (omega arith) above (ground arith) rise))
