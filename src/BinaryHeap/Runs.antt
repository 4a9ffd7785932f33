-- ===== src/BinaryHeap/Runs.antt =====
-- 06-Min-Heap-Max-Heap/main.go: extraction, and heaps after any calls.
use design_with_ts_go.Base.{
  ℕ, suc, ◌+◌, ◌≡◌, refl, ◌⊎◌, inl, inr, Bool, false, Option, none, some, List, [], ◌∷◌, arith,
  length, get_elem?, All, nat_key, string_key, int_key,
}
use design_with_ts_go.BinaryHeap.{
  BinaryHeap, compare_some, sift_down, new, size, peek, insert, extract, extract_from,
}
use design_with_ts_go.BinaryHeap.Order.{IsPriority}
use design_with_ts_go.BinaryHeap.SiftDown.{HeapFrom}
use design_with_ts_go.BinaryHeap.Heaps.{IsHeap, new-IsHeap, insert-IsHeap}
use design_with_ts_go.BinaryHeap.Extracts.{shrunk, sifted-HeapFrom, top_first}
use design_with_ts_go.BinaryHeap.Weights.{weigh, weigh-shrunk, weigh-sift_down}

pub data Call (T : Type 0) : Type 0 where
  inserts : T → Call T
  extracts : Call T

module _ {T : Type 0} (higher_priority : T → T → Bool) where
  -- The heap after an extraction, whatever it answers.
  abbrev pub after : BinaryHeap T → Option (T × BinaryHeap T) → BinaryHeap T
  after h none = h
  after h (some (top, left)) = left

  unfoldable pub call : BinaryHeap T → Call T → BinaryHeap T
  unfolding insert extract
  call h (inserts value) = insert higher_priority h value
  call h extracts = after h (extract higher_priority h)

  unfoldable pub run : BinaryHeap T → List (Call T) → BinaryHeap T
  unfolding call
  run h [] = h
  run h (c ∷ calls) = run (call h c) calls

module _ {T : Type 0} (higher_priority : T → T → Bool) (order : IsPriority higher_priority) where
  all_below :
      (top : T) (xs : List T)
      → ((i : ℕ) → compare_some higher_priority (get_elem? xs i) (some top) ≡ false)
      → All (λ x. higher_priority x top ≡ false) xs
  all_below top [] h = tt
  all_below top (x ∷ xs) h = (h 0, all_below top xs (λ i. h (suc i)))

  -- What an extraction takes and leaves.
  pub record IsExtracted (h : BinaryHeap T) (top : T) (left : BinaryHeap T) : Type 0 where
    pub first : peek h ≡ some top
    pub heap : IsHeap higher_priority order left
    pub before_all : All (λ x. higher_priority x top ≡ false) h.data_of
    pub same : (weight : T → ℕ) → weigh weight h.data_of ≡ weight top + weigh weight left.data_of

  abbrev pub sifted : T → List T → BinaryHeap T
  sifted top rest = record {
    data_of = sift_down higher_priority (length (shrunk top rest)) 0 (shrunk top rest);
  }

  sifted-IsExtracted :
      (top : T) (rest : List T)
      → HeapFrom higher_priority 0 (top ∷ rest)
      → IsExtracted (record { data_of = top ∷ rest }) top (sifted top rest)
  unfolding peek
  sifted-IsExtracted top rest heap = record {
    first = refl;
    heap = sifted-HeapFrom higher_priority order top rest heap;
    before_all =
        all_below top (top ∷ rest)
          (λ i. top_first higher_priority order i i (top ∷ rest) heap (omega arith));
    same = λ weight. omega (
      arith,
      weigh-sift_down weight higher_priority (length (shrunk top rest)) 0 (shrunk top rest),
      weigh-shrunk weight top rest,
    );
  }

  -- For a comparator that is a strict weak order, `Extract` answers false on an empty heap.
  -- Otherwise it takes the element that `Peek` shows, which no element of the heap comes before,
  -- and leaves the others, in a heap again: any weight of the elements before is that of the one
  -- taken and of those left.
  pub extract_lem :
      (h : BinaryHeap T)
      → IsHeap higher_priority order h
      → ((size h ≡ 0) × (extract higher_priority h ≡ none))
        ⊎ ((top : T) × (left : BinaryHeap T) × (extract higher_priority h ≡ some (top, left))
            × IsExtracted h top left)
  unfolding extract size
  extract_lem h heap = split h.data_of heap
    where
      split :
          (xs : List T)
          → HeapFrom higher_priority 0 xs
          → ((length xs ≡ 0) × (extract_from higher_priority xs ≡ none))
            ⊎ ((top : T) × (left : BinaryHeap T) × (extract_from higher_priority xs
                  ≡ some (top, left))
                × IsExtracted (record { data_of = xs }) top left)
      split [] k = inl (refl, refl)
      split (top ∷ rest) k = inr (top, sifted top rest, refl, sifted-IsExtracted top rest k)

  call-IsHeap :
      (h : BinaryHeap T) (c : Call T)
      → IsHeap higher_priority order h
      → IsHeap higher_priority order (call higher_priority h c)
  unfolding call
  call-IsHeap h (inserts value) heap = insert-IsHeap higher_priority order h value heap
  call-IsHeap h extracts heap = elim (extract_lem h heap) [
    | inl (empty, nothing) ↦ rw (nothing, extract) heap
    | inr (top, left, taken, e) ↦ rw (taken, extract) e.heap
  ]

  run_from-IsHeap :
      (h : BinaryHeap T) (calls : List (Call T))
      → IsHeap higher_priority order h
      → IsHeap higher_priority order (run higher_priority h calls)
  unfolding run
  run_from-IsHeap h [] heap = heap
  run_from-IsHeap h (c ∷ calls) heap =
      run_from-IsHeap (call higher_priority h c) calls (call-IsHeap h c heap)

  -- For a comparator that is a strict weak order, from any initial values and after any insertions
  -- and extractions, no element comes before its
  -- parent: the constructor builds a heap, and the loops restore it after each call.
  pub run-IsHeap :
      (values : List T) (calls : List (Call T))
      → IsHeap higher_priority order (run higher_priority (new higher_priority values) calls)
  run-IsHeap values calls =
      run_from-IsHeap (new higher_priority values) calls (new-IsHeap higher_priority order values)
