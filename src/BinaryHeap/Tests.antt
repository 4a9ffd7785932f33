-- ===== src/BinaryHeap/Tests.antt =====
-- 06-Min-Heap-Max-Heap/main.go: a heap with the smallest number first.
use design_with_ts_go.Base.{
  ℕ, ◌+◌, ◌≡◌, refl, ◌⊎◌, none, some, List, [], ◌∷◌, arith, ltb, nat_key, string_key, int_key,
}
use design_with_ts_go.BinaryHeap.{
  size, BinaryHeap, new, insert, extract, sift_up, sift_down, swap, heapify,
}
use design_with_ts_go.BinaryHeap.Order.{IsPriority}
use design_with_ts_go.BinaryHeap.Heaps.{IsHeap, new-IsHeap}
use design_with_ts_go.BinaryHeap.Runs.{
  call, Call, inserts, extracts, run, run-IsHeap, extract_lem, IsExtracted,
}
use design_with_ts_go.BinaryHeap.Weights.{weigh, weigh-new-insert}

ltb-IsPriority : IsPriority ltb
ltb-IsPriority = record { asym = λ x y h. ground arith; negative = λ x y z p q. ground arith }

abbrev values : List ℕ
values = 5 ∷ 1 ∷ 3 ∷ 8 ∷ 2 ∷ []

heapify_test : new ltb values ≡ record { data_of = 1 ∷ 2 ∷ 3 ∷ 8 ∷ 5 ∷ [] }
unfolding new heapify sift_down swap
heapify_test = refl

abbrev calls : List (Call ℕ)
calls = inserts 0 ∷ extracts ∷ extracts ∷ []

calls_test : run ltb (new ltb values) calls ≡ record { data_of = 2 ∷ 5 ∷ 3 ∷ 8 ∷ [] }
unfolding new heapify sift_down sift_up swap run call insert extract
calls_test = refl

run-IsHeap_example : IsHeap ltb ltb-IsPriority (run ltb (new ltb values) calls)
run-IsHeap_example = run-IsHeap ltb ltb-IsPriority values calls

extract_lem_example :
    ((size (new ltb values) ≡ 0) × (extract ltb (new ltb values) ≡ none))
    ⊎ ((top : ℕ) × (left : BinaryHeap ℕ) × (extract ltb (new ltb values) ≡ some (top, left))
        × IsExtracted ltb ltb-IsPriority (new ltb values) top left)
extract_lem_example =
    extract_lem ltb ltb-IsPriority (new ltb values) (new-IsHeap ltb ltb-IsPriority values)

weigh-new-insert_example :
    (weigh (λ x. x) (new ltb values).data_of ≡ 19)
    × (weigh (λ x. x) (insert ltb (new ltb values) 4).data_of
        ≡ weigh (λ x. x) (new ltb values).data_of + 4)
weigh-new-insert_example = weigh-new-insert (λ x. x) ltb values (new ltb values) 4
