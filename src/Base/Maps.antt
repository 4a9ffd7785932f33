-- ===== src/Base/Maps.antt =====
-- Go's `map[K]V` as an association list. The order of the list stands for the order in which
-- `range` happens to visit the entries: no statement fixes it.
use Prim.Native.Nat.{ℕ, ◌+◌}
use mathlib.Core.Path.{◌≡◌, refl, subst}
use mathlib.Core.Logic.{ite, ◌≢◌}
use mathlib.Core.List.{List, [], ◌∷◌}
use mathlib.Core.Option.{Option, none, some}
use native.Mathlib.Omega.{arith}
use native.Mathlib.Decide.{ℕ_discrete}
use design_with_ts_go.Base.Lists.{length, or_else, All, All-map}

-- A type whose values can be keys.
pub record Key {ℓ} (K : Type ℓ) : Type ℓ where
  pub same : Discrete K

instance abbrev pub nat_key : Key ℕ
nat_key = record { same = ℕ_discrete }

abbrev pub same_key {ℓ} : {K : Type ℓ} ⦃key : Key K⦄ → Discrete K
same_key ⦃key⦄ = key.same

abbrev pub Map {ℓ} : Type ℓ → Type ℓ → Type ℓ
Map K V = List (K × V)

module _ {ℓ} {K V : Type ℓ} ⦃key : Key K⦄ where
  -- `m[k]`
  unfoldable pub lookup : K → Map K V → Option V
  lookup k [] = none
  lookup k ((j, v) ∷ m) = ite (same_key j k) (some v) (lookup k m)

  -- `m[k] = v`
  unfoldable pub assign : K → V → Map K V → Map K V
  assign k v [] = (k, v) ∷ []
  assign k v ((j, w) ∷ m) = ite (same_key j k) ((j, v) ∷ m) ((j, w) ∷ assign k v m)

  -- `delete(m, k)`
  unfoldable pub delete : K → Map K V → Map K V
  delete k [] = []
  delete k ((j, w) ∷ m) = ite (same_key j k) (delete k m) ((j, w) ∷ delete k m)

  -- No key stands twice, as in every map that Go can build.
  abbrev pub IsMap : Map K V → Type ℓ
  IsMap [] = Unit
  IsMap ((j, _) ∷ m) = (lookup j m ≡ none) × IsMap m

  pub lookup-assign :
      (j k : K) (v : V) (m : Map K V)
      → lookup j (assign k v m) ≡ ite (same_key k j) (some v) (lookup j m)
  unfolding lookup assign
  lookup-assign j k v [] = refl
  lookup-assign j k v ((i, w) ∷ m) = ground (arith, lookup-assign j k v m)

  pub lookup-delete :
      (j k : K) (m : Map K V) → lookup j (delete k m) ≡ ite (same_key k j) none (lookup j m)
  unfolding lookup delete
  lookup-delete j k [] = ground arith
  lookup-delete j k ((i, w) ∷ m) = ground (arith, lookup-delete j k m)

  pub assign-IsMap : (k : K) (v : V) (m : Map K V) → IsMap m → IsMap (assign k v m)
  unfolding assign lookup
  assign-IsMap k v [] h = (refl, tt)
  assign-IsMap k v ((i, w) ∷ m) h = ground (arith, assign-IsMap k v m, lookup-assign i k v m)

  pub delete-IsMap : (k : K) (m : Map K V) → IsMap m → IsMap (delete k m)
  unfolding delete lookup
  delete-IsMap k [] h = tt
  delete-IsMap k ((i, w) ∷ m) h = ground (arith, delete-IsMap k m, lookup-delete i k m)

  pub length-assign :
      (k : K) (v : V) (m : Map K V)
      → length (assign k v m) ≡ length m + (elim (lookup k m) [ none ↦ 1 | some _ ↦ 0 ])
  unfolding assign lookup
  length-assign k v [] = omega arith
  length-assign k v ((i, w) ∷ m) = ground (arith, length-assign k v m)

  -- `for k, v := range from { into[k] = v }`
  unfoldable pub assign_all : Map K V → Map K V → Map K V
  assign_all [] into = into
  assign_all ((k, v) ∷ from) into = assign_all from (assign k v into)

  pub lookup-assign_all :
      (j : K) (from into : Map K V)
      → IsMap from
      → lookup j (assign_all from into) ≡ or_else (lookup j from) (lookup j into)
  unfolding assign_all lookup
  lookup-assign_all j [] into h = refl
  lookup-assign_all j ((k, v) ∷ from) into h =
      ground (arith, lookup-assign_all j from (assign k v into) h.1, lookup-assign j k v into)

  pub assign_all-IsMap : (from into : Map K V) → IsMap into → IsMap (assign_all from into)
  unfolding assign_all
  assign_all-IsMap [] into h = h
  assign_all-IsMap ((k, v) ∷ from) into h =
      assign_all-IsMap from (assign k v into) (assign-IsMap k v into h)

  -- The keys in the order in which `range` visits them.
  abbrev pub keys : Map K V → List K
  keys [] = []
  keys ((k, _) ∷ m) = k ∷ keys m

  -- What holds of all keys, and what holds of the keys that a lookup finds.
  pub All-keys : (m : Map K V) → All (λ k. lookup k m ≢ none) (keys m)
  unfolding lookup
  All-keys [] = tt
  All-keys ((k, v) ∷ m) = (
    λ e. ground arith,
    All-map (λ j. lookup j m ≢ none) (λ j. lookup j ((k, v) ∷ m) ≢ none) (keys m)
        (λ j found e. ground (arith, found)) (All-keys m),
  )

  pub lookup-All-keys :
      (P : K → Type 0) (m : Map K V) (k : K) → All P (keys m) → lookup k m ≢ none → P k
  unfolding lookup
  lookup-All-keys P [] k h found = absurd (found refl)
  lookup-All-keys P ((j, v) ∷ m) k h found = elim (same_key j k) [
    | yes p ↦ subst P p h.0
    | no p ↦ lookup-All-keys P m k h.1 (λ e. found (ground arith))
  ]
