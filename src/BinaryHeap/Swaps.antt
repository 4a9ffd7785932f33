-- ===== src/BinaryHeap/Swaps.antt =====
-- 06-Min-Heap-Max-Heap/main.go: comparisons after a swap.
use design_with_ts_go.Base.{
  ℕ, ◌<◌, ◌≡◌, refl, ◌∙◌, ◌≢◌, inl, inr, Bool, some, List, arith, ◌==◌, if◌then◌else◌, Option-cases,
  length, get_elem?, set, length-set, nat_key, string_key, get_elem?-lt, get_elem?-set, int_key,
}
use design_with_ts_go.BinaryHeap.{higher, swap}

-- Where an index stands after the swap.
abbrev pub moved : ℕ → ℕ → ℕ → ℕ
moved i j k = if k == i then j else if k == j then i else k

pub moved_first : (i j : ℕ) → moved i j i ≡ j
moved_first i j = ground arith

pub moved_second : (i j : ℕ) → moved i j j ≡ i
moved_second i j = ground arith

pub moved_other : (i j k : ℕ) → k ≢ i → k ≢ j → moved i j k ≡ k
moved_other i j k p q = ground arith

module _ {T : Type 0} (higher_priority : T → T → Bool) where
  pub get_elem?-swap :
      (xs : List T) (i j k : ℕ)
      → i < length xs
      → j < length xs
      → get_elem? (swap higher_priority xs i j) k ≡ get_elem? xs (moved i j k)
  unfolding swap
  get_elem?-swap xs i j k hi hj =
      let (x, at_i) = get_elem?-lt xs i hi in
      let (y, at_j) = get_elem?-lt xs j hj in
      rw (at_i, at_j)
        (get_elem?-set (set xs i y) j k x (rw (length-set xs i y) hj) ∙ after_both x y at_i at_j)
    where
      after_both :
          (x y : T)
          → get_elem? xs i ≡ some x
          → get_elem? xs j ≡ some y
          → (if j == k then some x else get_elem? (set xs i y) k) ≡ get_elem? xs (moved i j k)
      after_both x y at_i at_j = ground (arith, get_elem?-set xs i k y hi, at_i, at_j)

  pub higher-swap :
      (xs : List T) (i j a b : ℕ)
      → i < length xs
      → j < length xs
      → higher higher_priority (swap higher_priority xs i j) a b
        ≡ higher higher_priority xs (moved i j a) (moved i j b)
  higher-swap xs i j a b hi hj =
      rw (get_elem?-swap xs i j a hi hj, get_elem?-swap xs i j b hi hj) refl

  pub length-swap : (xs : List T) (i j : ℕ) → length (swap higher_priority xs i j) ≡ length xs
  unfolding swap
  length-swap xs i j = elim (Option-cases (get_elem? xs i)) [
    | inl out ↦ rw out refl
    | inr (x, at_i) ↦ elim (Option-cases (get_elem? xs j)) [
      | inl out ↦ rw (at_i, out) refl
      | inr (y, at_j) ↦ rw (at_i, at_j) (length-set (set xs i y) j x ∙ length-set xs i y)
    ]
  ]
