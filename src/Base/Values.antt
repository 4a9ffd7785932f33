-- ===== src/Base/Values.antt =====
-- What holds of every entry of a map, and maps that differ in their values alone.
use Prim.Native.Nat.{suc}
use mathlib.Core.Path.{◌≡◌, refl, sym, subst, ap}
use mathlib.Core.Logic.{◌≢◌}
use mathlib.Core.List.{[], ◌∷◌}
use mathlib.Core.Option.{none, some, some-injective}
use native.Mathlib.Omega.{arith}
use design_with_ts_go.Base.Tests.{ite-elim}
use design_with_ts_go.Base.Lists.{length, map_some}
use design_with_ts_go.Base.Maps.{Key, Map, IsMap, same_key, lookup, assign}

-- The predicate holds of every key with its value.
abbrev pub Entries {ℓ} : {K V : Type ℓ} → (K → V → Type 0) → Map K V → Type 0
Entries P [] = Unit
Entries P ((k, v) ∷ m) = P k v × Entries P m

module _ {ℓ} {K V : Type ℓ} where
  -- The same keys with other values.
  abbrev pub map_values : (V → V) → Map K V → Map K V
  map_values f [] = []
  map_values f ((k, v) ∷ m) = (k, f v) ∷ map_values f m

  pub Entries_map :
      (P Q : K → V → Type 0) (f : V → V) (m : Map K V)
      → ((k : K) (v : V) → P k v → Q k (f v))
      → Entries P m
      → Entries Q (map_values f m)
  Entries_map P Q f [] step h = tt
  Entries_map P Q f ((k, v) ∷ m) step h = (step k v h.0, Entries_map P Q f m step h.1)

  pub Entries_weaken :
      (P Q : K → V → Type 0) (m : Map K V)
      → ((k : K) (v : V) → P k v → Q k v)
      → Entries P m
      → Entries Q m
  Entries_weaken P Q [] step h = tt
  Entries_weaken P Q ((k, v) ∷ m) step h = (step k v h.0, Entries_weaken P Q m step h.1)

  pub length-map_values : (f : V → V) (m : Map K V) → length (map_values f m) ≡ length m
  length-map_values f [] = refl
  length-map_values f ((k, v) ∷ m) = ap suc (length-map_values f m)

module _ {ℓ} {K V : Type ℓ} ⦃key : Key K⦄ where
  pub lookup-map_values :
      (j : K) (f : V → V) (m : Map K V) → lookup j (map_values f m) ≡ map_some f (lookup j m)
  unfolding lookup
  lookup-map_values j f [] = refl
  lookup-map_values j f ((k, v) ∷ m) = ground (arith, lookup-map_values j f m)

  pub map_values-IsMap : (f : V → V) (m : Map K V) → IsMap m → IsMap (map_values f m)
  map_values-IsMap f [] h = tt
  map_values-IsMap f ((k, v) ∷ m) h =
      (ground (arith, h.0, lookup-map_values k f m), map_values-IsMap f m h.1)

  pub Entries-assign :
      (P : K → V → Type 0) (k : K) (v : V) (m : Map K V)
      → P k v
      → Entries P m
      → Entries P (assign k v m)
  unfolding assign
  Entries-assign P k v [] p h = (p, tt)
  Entries-assign P k v ((j, w) ∷ m) p h =
      ite-elim (Entries P) (same_key j k) ((j, v) ∷ m) ((j, w) ∷ assign k v m)
        (λ e. (subst (λ i. P i v) (sym e) p, h.1)) (λ e. (h.0, Entries-assign P k v m p h.1))

  pub Entries-lookup :
      (P : K → V → Type 0) (k : K) (v : V) (m : Map K V) → Entries P m → lookup k m ≡ some v → P k v
  unfolding lookup
  Entries-lookup P k v [] h found = cc
  Entries-lookup P k v ((j, w) ∷ m) h found = elim (same_key j k) [
    | yes e ↦
        let same : some w ≡ some v = ground arith in
        subst (λ i. P i v) e (subst (P j) (some-injective w v same) h.0)
    | no e ↦ Entries-lookup P k v m h.1 (ground arith)
  ]

  Entries_absent :
      (P Q : K → V → Type 0) (k : K) (m : Map K V)
      → ((j : K) (w : V) → j ≢ k → P j w → Q j w)
      → lookup k m ≡ none
      → Entries P m
      → Entries Q m
  unfolding lookup
  Entries_absent P Q k [] step e h = tt
  Entries_absent P Q k ((j, w) ∷ m) step e h = elim (same_key j k) [
    | yes p ↦ absurd (ground arith)
    | no p ↦ (step j w p h.0, Entries_absent P Q k m step (ground arith) h.1)
  ]

  -- An assignment to a key whose own entry need not be as the others.
  pub Entries-assign_ne :
      (P Q : K → V → Type 0) (k : K) (v : V) (m : Map K V)
      → ((j : K) (w : V) → j ≢ k → P j w → Q j w)
      → Q k v
      → IsMap m
      → Entries P m
      → Entries Q (assign k v m)
  unfolding assign
  Entries-assign_ne P Q k v [] step q d h = (q, tt)
  Entries-assign_ne P Q k v ((j, w) ∷ m) step q d h =
      ite-elim (Entries Q) (same_key j k) ((j, v) ∷ m) ((j, w) ∷ assign k v m)
        (λ e. (
          subst (λ i. Q i v) (sym e) q,
          Entries_absent P Q k m step (subst (λ i. lookup i m ≡ none) e d.0) h.1,
        ))
        (λ e. (step j w e h.0, Entries-assign_ne P Q k v m step q d.1 h.1))
