-- ===== src/BinaryHeap/Extracts.antt =====
-- 06-Min-Heap-Max-Heap/main.go: what `Extract` takes and leaves.
use design_with_ts_go.Base.{
  ℕ, zero, suc, ◌≤◌, ◌<◌, ◌≡◌, refl, ap, ◌∙◌, inl, inr, Bool, List, [], ◌∷◌, arith, ltb, ltb→lt,
  Bool-cases, length, get_elem?, nat_key, string_key, int_key,
}
use design_with_ts_go.BinaryHeap.{sift_down, without_last, last_of, move_last}
use design_with_ts_go.BinaryHeap.Order.{IsPriority, higher-negative, higher_self, higher_out}
use design_with_ts_go.BinaryHeap.SiftDown.{parent, Ordered, HeapFrom, IsGap}
use design_with_ts_go.BinaryHeap.Descent.{sift_down-HeapFrom}

module _ {T : Type 0} where
  length-without_last : (x : T) (rest : List T) → length (without_last (x ∷ rest)) ≡ length rest
  length-without_last x [] = refl
  length-without_last x (y ∷ rest) = ap suc (length-without_last y rest)

  length-move_last : (last : T) (xs : List T) → length (move_last last xs) ≡ length xs
  length-move_last last [] = refl
  length-move_last last (x ∷ xs) = refl

  get_elem?-without_last :
      (x : T) (rest : List T) (i : ℕ)
      → i < length rest
      → get_elem? (without_last (x ∷ rest)) i ≡ get_elem? (x ∷ rest) i
  get_elem?-without_last x [] i h = absurd (omega arith)
  get_elem?-without_last x (y ∷ rest) zero h = refl
  get_elem?-without_last x (y ∷ rest) (suc i) h = get_elem?-without_last y rest i (omega arith)

  get_elem?-move_last :
      (last : T) (xs : List T) (i : ℕ) → 1 ≤ i → get_elem? (move_last last xs) i ≡ get_elem? xs i
  get_elem?-move_last last [] i h = refl
  get_elem?-move_last last (x ∷ xs) zero h = absurd (omega arith)
  get_elem?-move_last last (x ∷ xs) (suc i) h = refl

  -- The list that is sifted.
  abbrev pub shrunk : T → List T → List T
  shrunk top rest = move_last (last_of top rest) (without_last (top ∷ rest))

  pub length-shrunk : (top : T) (rest : List T) → length (shrunk top rest) ≡ length rest
  length-shrunk top rest =
      length-move_last (last_of top rest) (without_last (top ∷ rest)) ∙ length-without_last top rest

  get_elem?-shrunk :
      (top : T) (rest : List T) (i : ℕ)
      → 1 ≤ i
      → i < length rest
      → get_elem? (shrunk top rest) i ≡ get_elem? (top ∷ rest) i
  get_elem?-shrunk top rest i p h =
      get_elem?-move_last (last_of top rest) (without_last (top ∷ rest)) i p
      ∙ get_elem?-without_last top rest i h

module _ {T : Type 0} (higher_priority : T → T → Bool) (order : IsPriority higher_priority) where
  shrunk-IsGap :
      (top : T) (rest : List T)
      → HeapFrom higher_priority 0 (top ∷ rest)
      → 1 ≤ length rest
      → IsGap higher_priority 0 0 (shrunk top rest)
  shrunk-IsGap top rest h some_left = record {
    in_range = omega (arith, length-shrunk top rest);
    from = omega arith;
    others = λ j p from ne. elim (Bool-cases (ltb j (length rest))) [
      | inl inside ↦
          let small = ltb→lt j (length rest) inside in
          rw
            (
              get_elem?-shrunk top rest j p small,
              get_elem?-shrunk top rest (parent j) (omega (arith, ne)) (omega arith),
            )
            (h j p (omega arith))
      | inr outside ↦
          let large : length rest ≤ j = ground arith in
          higher_out higher_priority order (shrunk top rest) j (parent j)
            (omega (arith, length-shrunk top rest))
    ];
    below = λ j p child positive from. absurd (omega arith);
  }

  pub sifted-HeapFrom :
      (top : T) (rest : List T)
      → HeapFrom higher_priority 0 (top ∷ rest)
      → HeapFrom higher_priority 0
          (sift_down higher_priority (length (shrunk top rest)) 0 (shrunk top rest))
  unfolding sift_down
  sifted-HeapFrom top [] h = λ j p from. refl
  sifted-HeapFrom top (x ∷ rest) h =
      sift_down-HeapFrom higher_priority order (length (shrunk top (x ∷ rest))) 0 0
        (shrunk top (x ∷ rest)) (omega arith) (shrunk-IsGap top (x ∷ rest) h (omega arith))

  -- Nothing comes before the first element.
  pub top_first :
      (fuel i : ℕ) (xs : List T)
      → HeapFrom higher_priority 0 xs
      → i ≤ fuel
      → Ordered higher_priority xs i 0
  top_first fuel zero xs h b = higher_self higher_priority order xs 0
  top_first zero (suc i) xs h b = absurd (omega arith)
  top_first (suc fuel) (suc i) xs h b = elim (Bool-cases (ltb (suc i) (length xs))) [
    | inl inside ↦
        let small = ltb→lt (suc i) (length xs) inside in
        higher-negative higher_priority order xs (suc i) (parent (suc i)) 0 (omega arith)
          (h (suc i) (omega arith) (omega arith))
          (top_first fuel (parent (suc i)) xs h (omega arith))
    | inr outside ↦ higher_out higher_priority order xs (suc i) 0 (ground arith)
  ]
