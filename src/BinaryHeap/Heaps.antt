-- ===== src/BinaryHeap/Heaps.antt =====
-- 06-Min-Heap-Max-Heap/main.go: the order of the heap after each operation.
use design_with_ts_go.Base.{
  ℕ, zero, suc, ◌-◌, ◌/◌, ◌≤◌, ◌<◌, ◌≡◌, refl, ◌∙◌, inl, inr, Bool, List, [], ◌∷◌, ◌++◌, arith, ltb,
  ltb→lt, ◌==◌, Bool-cases, length, get_elem?, length-append, nat_key, string_key, if-elim, int_key,
}
use design_with_ts_go.BinaryHeap.{BinaryHeap, swap, sift_down, best, heapify, new, insert}
use design_with_ts_go.BinaryHeap.Order.{IsPriority, higher_out}
use design_with_ts_go.BinaryHeap.Swaps.{length-swap}
use design_with_ts_go.BinaryHeap.SiftDown.{parent, HeapFrom}
use design_with_ts_go.BinaryHeap.SiftUp.{IsRise, sift_up-HeapFrom}
use design_with_ts_go.BinaryHeap.Descent.{sift_down-HeapFrom}

get_elem?-append_left :
    {A : Type 0} (xs ys : List A) (i : ℕ) → i < length xs → get_elem? (xs ++ ys) i ≡ get_elem? xs i
get_elem?-append_left [] ys i h = absurd (omega arith)
get_elem?-append_left (x ∷ xs) ys zero h = refl
get_elem?-append_left (x ∷ xs) ys (suc i) h = get_elem?-append_left xs ys i (omega arith)

module _ {T : Type 0} (higher_priority : T → T → Bool) (order : IsPriority higher_priority) where
  -- No element comes before its parent.
  abbrev pub IsHeap : BinaryHeap T → Type 0
  IsHeap h = HeapFrom higher_priority 0 h.data_of

  length-sift_down :
      (fuel index : ℕ) (xs : List T) → length (sift_down higher_priority fuel index xs) ≡ length xs
  unfolding sift_down
  length-sift_down zero index xs = refl
  length-sift_down (suc fuel) index xs =
      let chosen = best higher_priority xs index in
      let next = swap higher_priority xs index chosen in
      if-elim (λ ys. length ys ≡ length xs) (chosen == index) xs
        (sift_down higher_priority fuel chosen next) (λ _. refl)
        (λ _. length-sift_down fuel chosen next ∙ length-swap higher_priority xs index chosen)

  heapify-HeapFrom :
      (count : ℕ) (xs : List T)
      → count ≤ length xs
      → HeapFrom higher_priority count xs
      → HeapFrom higher_priority 0 (heapify higher_priority count xs)
  unfolding heapify
  heapify-HeapFrom zero xs b h = h
  heapify-HeapFrom (suc count) xs b h =
      heapify-HeapFrom count (sift_down higher_priority (length xs) count xs)
        (omega (arith, length-sift_down (length xs) count xs))
        (sift_down-HeapFrom higher_priority order (length xs) count count xs (omega arith) (record {
          in_range = omega arith;
          from = omega arith;
          others = λ j p from ne. h j p (omega (arith, ne));
          below = λ j p child positive from. absurd (omega arith);
        }))

  pub new-IsHeap : (values : List T) → IsHeap (new higher_priority values)
  unfolding new
  new-IsHeap values =
      heapify-HeapFrom (length values / 2) values (omega arith)
        (λ j p from. higher_out higher_priority order values j (parent j) (omega arith))

  grown-IsRise :
      (xs : List T) (value : T)
      → HeapFrom higher_priority 0 xs
      → IsRise higher_priority order (length xs) (xs ++ value ∷ [])
  grown-IsRise xs value h =
      let longer = xs ++ value ∷ [] in
      let n = length-append xs (value ∷ []) in
      record {
        in_range = omega (arith, n);
        others = λ j p ne. elim (Bool-cases (ltb j (length xs))) [
          | inl inside ↦
              let small = ltb→lt j (length xs) inside in
              rw
                (
                  get_elem?-append_left xs (value ∷ []) j small,
                  get_elem?-append_left xs (value ∷ []) (parent j) (omega arith),
                )
                (h j p (omega arith))
          | inr outside ↦
              let large : length xs ≤ j = ground arith in
              higher_out higher_priority order longer j (parent j) (omega (arith, n, ne))
        ];
        below = λ j p child positive.
            higher_out higher_priority order longer j (parent (length xs)) (omega (arith, n));
      }

  pub insert-IsHeap :
      (h : BinaryHeap T) (value : T) → IsHeap h → IsHeap (insert higher_priority h value)
  unfolding insert
  insert-IsHeap h value heap =
      let longer = h.data_of ++ value ∷ [] in
      let last : length longer - 1 ≡ length h.data_of =
        omega (arith, length-append h.data_of (value ∷ [])) in
      rw last (
        sift_up-HeapFrom higher_priority order (length h.data_of) (length h.data_of) longer
          (omega arith) (grown-IsRise h.data_of value heap))
