-- ===== src/BinaryHeap/Weights.antt =====
-- 06-Min-Heap-Max-Heap/main.go: no operation loses or doubles an element. The elements are counted
-- by any weight on them.
use design_with_ts_go.Base.{
  ℕ, zero, suc, ◌+◌, ◌-◌, ◌/◌, ◌<◌, ◌≡◌, refl, ap, ◌∙◌, inl, inr, Bool, not, some, List, [], ◌∷◌,
  ◌++◌, arith, ◌==◌, if◌then◌else◌, Option-cases, length, get_elem?, set, nat_key, string_key,
  if-elim, get_elem?-set, int_key,
}
use mathlib.Core.Option.{some-injective}
use design_with_ts_go.BinaryHeap.{
  BinaryHeap, higher, swap, best, sift_up, sift_down, heapify, new, insert, without_last, last_of,
}
use design_with_ts_go.BinaryHeap.Extracts.{shrunk}

module _ {T : Type 0} (weight : T → ℕ) where
  abbrev pub weigh : List T → ℕ
  weigh [] = 0
  weigh (x ∷ xs) = weight x + weigh xs

  weigh-set :
      (xs : List T) (i : ℕ) (x y : T)
      → get_elem? xs i ≡ some x
      → weigh (set xs i y) + weight x ≡ weigh xs + weight y
  weigh-set [] i x y e = cc
  weigh-set (z ∷ xs) zero x y e = omega (arith, ap weight (some-injective z x e))
  weigh-set (z ∷ xs) (suc i) x y e = omega (arith, weigh-set xs i x y e)

  get_elem?_inside : (xs : List T) (i : ℕ) (x : T) → get_elem? xs i ≡ some x → i < length xs
  get_elem?_inside [] i x e = cc
  get_elem?_inside (z ∷ xs) zero x e = omega arith
  get_elem?_inside (z ∷ xs) (suc i) x e = omega (arith, get_elem?_inside xs i x e)

  weigh-append : (xs ys : List T) → weigh (xs ++ ys) ≡ weigh xs + weigh ys
  weigh-append [] ys = omega arith
  weigh-append (x ∷ xs) ys = omega (arith, weigh-append xs ys)

  pub weigh-shrunk : (top : T) (rest : List T) → weigh (shrunk top rest) ≡ weigh rest
  weigh-shrunk top [] = refl
  weigh-shrunk top (x ∷ rest) = last_and_others x rest
    where
      last_and_others :
          (y : T) (ys : List T)
          → weight (last_of y ys) + weigh (without_last (y ∷ ys)) ≡ weight y + weigh ys
      last_and_others y [] = refl
      last_and_others y (z ∷ ys) = omega (arith, last_and_others z ys)

  module _ (higher_priority : T → T → Bool) where
    weigh-swap : (xs : List T) (i j : ℕ) → weigh (swap higher_priority xs i j) ≡ weigh xs
    unfolding swap
    weigh-swap xs i j = elim (Option-cases (get_elem? xs i)) [
      | inl out ↦ rw out refl
      | inr (x, at_i) ↦ elim (Option-cases (get_elem? xs j)) [
        | inl out ↦ rw (at_i, out) refl
        | inr (y, at_j) ↦
            rw (at_i, at_j)
              (swapped x y at_i at_j (get_elem?-set xs i j y (get_elem?_inside xs i x at_i)))
      ]
    ]
      where
        swapped :
            (x y : T)
            → get_elem? xs i ≡ some x
            → get_elem? xs j ≡ some y
            → get_elem? (set xs i y) j ≡ (if i == j then some y else get_elem? xs j)
            → weigh (set (set xs i y) j x) ≡ weigh xs
        swapped x y at_i at_j e =
            let now : get_elem? (set xs i y) j ≡ some y = ground (arith, e, at_j) in
            omega (arith, weigh-set xs i x y at_i, weigh-set (set xs i y) j y x now)

    weigh-sift_up :
        (fuel index : ℕ) (xs : List T) → weigh (sift_up higher_priority fuel index xs) ≡ weigh xs
    unfolding sift_up
    weigh-sift_up fuel zero xs = refl
    weigh-sift_up zero (suc index) xs = refl
    weigh-sift_up (suc fuel) (suc index) xs =
        let next = swap higher_priority xs (suc index) (index / 2) in
        if-elim (λ ys. weigh ys ≡ weigh xs)
          (not (higher higher_priority xs (suc index) (index / 2))) xs
          (sift_up higher_priority fuel (index / 2) next) (λ _. refl)
          (λ _. weigh-sift_up fuel (index / 2) next ∙ weigh-swap xs (suc index) (index / 2))

    pub weigh-sift_down :
        (fuel index : ℕ) (xs : List T) → weigh (sift_down higher_priority fuel index xs) ≡ weigh xs
    unfolding sift_down
    weigh-sift_down zero index xs = refl
    weigh-sift_down (suc fuel) index xs =
        let chosen = best higher_priority xs index in
        let next = swap higher_priority xs index chosen in
        if-elim (λ ys. weigh ys ≡ weigh xs) (chosen == index) xs
          (sift_down higher_priority fuel chosen next) (λ _. refl)
          (λ _. weigh-sift_down fuel chosen next ∙ weigh-swap xs index chosen)

    weigh-heapify : (count : ℕ) (xs : List T) → weigh (heapify higher_priority count xs) ≡ weigh xs
    unfolding heapify
    weigh-heapify zero xs = refl
    weigh-heapify (suc count) xs =
        weigh-heapify count (sift_down higher_priority (length xs) count xs)
        ∙ weigh-sift_down (length xs) count xs

    -- The constructor keeps the values, and `Insert` adds one.
    pub weigh-new-insert :
        (values : List T) (h : BinaryHeap T) (value : T)
        → (weigh (new higher_priority values).data_of ≡ weigh values)
          × (weigh (insert higher_priority h value).data_of ≡ weigh h.data_of + weight value)
    unfolding new insert
    weigh-new-insert values h value =
        let longer = h.data_of ++ value ∷ [] in
        (
          weigh-heapify (length values / 2) values,
          omega (
            arith,
            weigh-sift_up (length longer - 1) (length longer - 1) longer,
            weigh-append h.data_of (value ∷ []),
          ),
        )
