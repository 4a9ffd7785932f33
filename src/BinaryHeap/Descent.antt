-- ===== src/BinaryHeap/Descent.antt =====
-- 06-Min-Heap-Max-Heap/main.go: the rounds of the loop that moves an element down.
use design_with_ts_go.Base.{
  ℕ, zero, suc, ◌+◌, ◌≤◌, ◌<◌, ◌≡◌, sym, ap, ◌∙◌, ◌≢◌, inl, inr, Bool, List, arith, ℕ_discrete,
  ◌==◌, length, nat_key, string_key, if-elim, int_key,
}
use mathlib.Core.Path.{subst}
use design_with_ts_go.BinaryHeap.{swap, best, sift_down}
use design_with_ts_go.BinaryHeap.Order.{IsPriority}
use design_with_ts_go.BinaryHeap.Swaps.{
  moved, moved_first, moved_second, moved_other, higher-swap, length-swap,
}
use design_with_ts_go.BinaryHeap.SiftDown.{parent, Ordered, HeapFrom, IsGap, IsBest, best-IsBest}

module _ {T : Type 0} (higher_priority : T → T → Bool) where
  -- An order after a swap, from the one of the indexes before it.
  pub Ordered-swap :
      (xs : List T) (i j a b a_before b_before : ℕ)
      → i < length xs
      → j < length xs
      → moved i j a ≡ a_before
      → moved i j b ≡ b_before
      → Ordered higher_priority xs a_before b_before
      → Ordered higher_priority (swap higher_priority xs i j) a b
  Ordered-swap xs i j a b c d hi hj e f h =
      rw (higher-swap higher_priority xs i j a b hi hj, e, f) h

  module _ (order : IsPriority higher_priority) where
    swap-others :
        (least index chosen : ℕ) (xs : List T)
        → IsGap higher_priority least index xs
        → IsBest higher_priority index chosen xs
        → chosen < length xs
        → 1 ≤ chosen
        → parent chosen ≡ index
        → (j : ℕ) → 1 ≤ j
        → least ≤ parent j
        → parent j ≢ chosen
        → Ordered higher_priority (swap higher_priority xs index chosen) j (parent j)
    swap-others least index chosen xs gap b inside positive child j p from ne =
        elim (ℕ_discrete (parent j) index) [
          | yes at_index ↦ elim (ℕ_discrete j chosen) [
            | yes same ↦
                Ordered-swap xs index chosen j (parent j) index chosen gap.in_range inside
                  (ap (moved index chosen) same ∙ moved_second index chosen)
                  (ap (moved index chosen) at_index ∙ moved_first index chosen) b.up
            | no differs ↦
                Ordered-swap xs index chosen j (parent j) j chosen gap.in_range inside
                  (moved_other index chosen j (omega arith) differs)
                  (ap (moved index chosen) at_index ∙ moved_first index chosen)
                  (b.first j p at_index)
          ]
          | no elsewhere ↦
              let kept = moved_other index chosen (parent j) elsewhere ne in
              elim (ℕ_discrete j index) [
                | yes same ↦
                    Ordered-swap xs index chosen j (parent j) chosen (parent j) gap.in_range inside
                      (ap (moved index chosen) same ∙ moved_first index chosen) kept
                      (subst (λ k. Ordered higher_priority xs chosen (parent k)) (sym same)
                        (gap.below chosen positive child (omega arith)
                          (subst (λ k. least ≤ parent k) same from)))
                | no differs ↦
                    Ordered-swap xs index chosen j (parent j) j (parent j) gap.in_range inside
                      (moved_other index chosen j differs (λ e. elsewhere (ap parent e ∙ child)))
                      kept (gap.others j p from elsewhere)
              ]
        ]

    swap-IsGap :
        (least index chosen : ℕ) (xs : List T)
        → IsGap higher_priority least index xs
        → IsBest higher_priority index chosen xs
        → chosen < length xs
        → 1 ≤ chosen
        → parent chosen ≡ index
        → IsGap higher_priority least chosen (swap higher_priority xs index chosen)
    swap-IsGap least index chosen xs gap b inside positive child = record {
      in_range = rw (length-swap higher_priority xs index chosen) inside;
      from = omega (arith, gap.from);
      others = swap-others least index chosen xs gap b inside positive child;
      below = λ j p at_chosen _ from.
          Ordered-swap xs index chosen j (parent chosen) j chosen gap.in_range inside
            (moved_other index chosen j (omega arith) (omega arith))
            (ap (moved index chosen) child ∙ moved_first index chosen)
            (subst (Ordered higher_priority xs j) at_chosen
              (gap.others j p (omega (arith, gap.from)) (omega arith)));
    }

    -- Enough rounds restore the order below the index.
    pub sift_down-HeapFrom :
        (fuel least index : ℕ) (xs : List T)
        → length xs ≤ fuel + index
        → IsGap higher_priority least index xs
        → HeapFrom higher_priority least (sift_down higher_priority fuel index xs)
    unfolding sift_down
    sift_down-HeapFrom zero least index xs enough gap = absurd (omega (arith, gap.in_range))
    sift_down-HeapFrom (suc fuel) least index xs enough gap =
        let chosen = best higher_priority xs index in
        let b = best-IsBest higher_priority order xs index gap.in_range in
        let next = swap higher_priority xs index chosen in
        if-elim (HeapFrom higher_priority least) (chosen == index) xs
          (sift_down higher_priority fuel chosen next)
          (λ stops.
            let same : chosen ≡ index = ground arith in
            λ j p from. elim (ℕ_discrete (parent j) index) [
              | yes e ↦ subst (Ordered higher_priority xs j) (same ∙ sym e) (b.first j p e)
              | no ne ↦ gap.others j p from ne
            ])
          (λ goes_on. elim b.stays [
            | inl same ↦ absurd (ground arith)
            | inr (inside, positive, child) ↦
                sift_down-HeapFrom fuel least chosen next
                  (rw (length-swap higher_priority xs index chosen) (omega arith))
                  (swap-IsGap least index chosen xs gap b inside positive child)
          ])
