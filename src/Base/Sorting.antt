-- ===== src/Base/Sorting.antt =====
-- `sort.Ints`, `sort.Strings` and `sort.Slice`, as an insertion sort by a Boolean order. Of two
-- equal entries the earlier one stays first.
use Prim.Native.Nat.{ℕ}
use mathlib.Core.Path.{◌≡◌}
use mathlib.Core.Bool.{Bool, true, false}
use mathlib.Core.List.{List, [], ◌∷◌}
use native.Mathlib.Omega.{arith}
use design_with_ts_go.Base.Tests.{ltb, if◌then◌else◌, Bool-cases}
use design_with_ts_go.Base.Lists.{All, All-map}
use mathlib.Core.Logic.{inl, inr}

pub record IsOrder {ℓ} {A : Type ℓ} (le : A → A → Bool) : Type ℓ where
  pub total : (a b : A) → le a b ≡ false → le b a ≡ true
  pub trans : (a b c : A) → le a b ≡ true → le b c ≡ true → le a c ≡ true

module _ {ℓ} {A : Type ℓ} (le : A → A → Bool) where
  unfoldable pub insert : A → List A → List A
  insert x [] = x ∷ []
  insert x (y ∷ ys) = if le x y then x ∷ y ∷ ys else y ∷ insert x ys

  unfoldable pub sort : List A → List A
  unfolding insert
  sort [] = []
  sort (x ∷ xs) = insert x (sort xs)

  abbrev pub IsSorted : List A → Type 0
  IsSorted [] = Unit
  IsSorted (x ∷ xs) = All (λ y. le x y ≡ true) xs × IsSorted xs

  pub All-insert : (P : A → Type 0) (x : A) (xs : List A) → P x → All P xs → All P (insert x xs)
  unfolding insert
  All-insert P x [] px h = (px, tt)
  All-insert P x (y ∷ ys) px h = elim (Bool-cases (le x y)) [
    | inl e ↦ rw e (px, h)
    | inr e ↦ rw e (h.0, All-insert P x ys px h.1)
  ]

  insert-All : (P : A → Type 0) (x : A) (xs : List A) → All P (insert x xs) → P x × All P xs
  unfolding insert
  insert-All P x [] h = h
  insert-All P x (y ∷ ys) h = elim (Bool-cases (le x y)) [
    | inl e ↦ rw e at h
    | inr e ↦ let h' = rw e at h in let rest = insert-All P x ys h'.1 in (rest.0, (h'.0, rest.1))
  ]

  -- Sorting neither adds nor loses an entry: what holds of all before holds of all after, and back.
  pub All-sort : (P : A → Type 0) (xs : List A) → All P xs → All P (sort xs)
  unfolding sort
  All-sort P [] h = h
  All-sort P (x ∷ xs) h = All-insert P x (sort xs) h.0 (All-sort P xs h.1)

  pub sort-All : (P : A → Type 0) (xs : List A) → All P (sort xs) → All P xs
  unfolding sort
  sort-All P [] h = h
  sort-All P (x ∷ xs) h = let rest = insert-All P x (sort xs) h in (rest.0, sort-All P xs rest.1)

  module _ (order : IsOrder le) where
    insert-IsSorted : (x : A) (xs : List A) → IsSorted xs → IsSorted (insert x xs)
    unfolding insert
    insert-IsSorted x [] h = (tt, tt)
    insert-IsSorted x (y ∷ ys) h = elim (Bool-cases (le x y)) [
      | inl e ↦ rw e (
        (
          e,
          All-map (λ z. le y z ≡ true) (λ z. le x z ≡ true) ys (λ z yz. order.trans x y z e yz) h.0,
        ),
        h,
      )
      | inr e ↦
          rw e
            (All-insert (λ z. le y z ≡ true) x ys (order.total x y e) h.0, insert-IsSorted x ys h.1)
    ]

    pub sort-IsSorted : (xs : List A) → IsSorted (sort xs)
    unfolding sort
    sort-IsSorted [] = tt
    sort-IsSorted (x ∷ xs) = insert-IsSorted x (sort xs) (sort-IsSorted xs)

-- Go's `<=` on strings: by bytes, from the left.
unfoldable pub leb_string : List ℕ → List ℕ → Bool
leb_string [] t = true
leb_string (b ∷ s) [] = false
leb_string (b ∷ s) (c ∷ t) = if ltb b c then true else if ltb c b then false else leb_string s t

leb_string_total : (s t : List ℕ) → leb_string s t ≡ false → leb_string t s ≡ true
unfolding leb_string
leb_string_total [] t h = cc
leb_string_total (b ∷ s) [] h = ground arith
leb_string_total (b ∷ s) (c ∷ t) h = ground (arith, leb_string_total s t)

leb_string_trans :
    (s t u : List ℕ) → leb_string s t ≡ true → leb_string t u ≡ true → leb_string s u ≡ true
unfolding leb_string
leb_string_trans [] t u h k = ground arith
leb_string_trans (b ∷ s) [] u h k = cc
leb_string_trans (b ∷ s) (c ∷ t) [] h k = cc
leb_string_trans (b ∷ s) (c ∷ t) (d ∷ u) h k = ground (arith, leb_string_trans s t u)

pub leb_string-IsOrder : IsOrder leb_string
leb_string-IsOrder = record { total = leb_string_total; trans = leb_string_trans }
