-- ===== src/BinaryHeap/Order.antt =====
-- 06-Min-Heap-Max-Heap/main.go: comparators, and what they say of indexes.
use design_with_ts_go.Base.{
  ℕ, zero, suc, ◌≤◌, ◌<◌, ◌≡◌, refl, inl, inr, Bool, true, false, Option, none, some, List, [], ◌∷◌,
  arith, Bool-cases, Option-cases, length, get_elem?, nat_key, string_key, get_elem?-lt, int_key,
}
use design_with_ts_go.BinaryHeap.{compare_some, higher}

get_elem?_out : {A : Type 0} (xs : List A) (i : ℕ) → length xs ≤ i → get_elem? xs i ≡ none
get_elem?_out [] i h = refl
get_elem?_out (x ∷ xs) zero h = absurd (omega arith)
get_elem?_out (x ∷ xs) (suc i) h = get_elem?_out xs i (omega arith)

-- A comparator that a heap can be built on: a strict weak order.
pub record IsPriority {T : Type 0} (higher_priority : T → T → Bool) : Type 0 where
  pub asym : (x y : T) → higher_priority x y ≡ true → higher_priority y x ≡ false
  pub negative :
      (x y z : T)
      → higher_priority x y ≡ false
      → higher_priority y z ≡ false
      → higher_priority x z ≡ false

module _ {T : Type 0} (higher_priority : T → T → Bool) (order : IsPriority higher_priority)
    (xs : List T) where
  pub higher-asym :
      (i j : ℕ) → higher higher_priority xs i j ≡ true → higher higher_priority xs j i ≡ false
  higher-asym i j h = elim (Option-cases (get_elem? xs i)) [
    | inl out ↦ rw out (no_right (get_elem? xs j))
    | inr (x, at_i) ↦ elim (Option-cases (get_elem? xs j)) [
      | inl out ↦ rw out refl
      | inr (y, at_j) ↦ rw (at_i, at_j) (order.asym x y (rw (at_i, at_j) at h))
    ]
  ]
    where
      no_right : (o : Option T) → compare_some higher_priority o none ≡ false
      no_right none = refl
      no_right (some x) = refl

  pub higher-negative :
      (i j k : ℕ)
      → j < length xs
      → higher higher_priority xs i j ≡ false
      → higher higher_priority xs j k ≡ false
      → higher higher_priority xs i k ≡ false
  higher-negative i j k hj p q =
      let (y, at_j) = get_elem?-lt xs j hj in
      elim (Option-cases (get_elem? xs i)) [
        | inl out ↦ rw out refl
        | inr (x, at_i) ↦ elim (Option-cases (get_elem? xs k)) [
          | inl out ↦ rw (at_i, out) refl
          | inr (z, at_k) ↦
              rw (at_i, at_k) (order.negative x y z (rw (at_i, at_j) at p) (rw (at_j, at_k) at q))
        ]
      ]

  pub higher_self : (i : ℕ) → higher higher_priority xs i i ≡ false
  higher_self i = elim (Bool-cases (higher higher_priority xs i i)) [
    | inl yes_higher ↦ higher-asym i i yes_higher
    | inr not_higher ↦ not_higher
  ]

  pub higher_out : (i j : ℕ) → length xs ≤ i → higher higher_priority xs i j ≡ false
  higher_out i j out = rw (get_elem?_out xs i out) refl
