-- ===== src/Base/Versions.antt =====
-- The loop by which 33-Gossip-Protocol and 22-LSM-Tree merge one map into another: an entry is
-- taken over if its key is missing, or if its version number is larger.
use Prim.Native.Nat.{ℕ}
use mathlib.Core.Path.{◌≡◌, refl}
use mathlib.Core.Bool.{Bool, true}
use mathlib.Core.List.{[], ◌∷◌}
use mathlib.Core.Option.{Option, none, some}
use native.Mathlib.Omega.{arith}
use design_with_ts_go.Base.Tests.{ltb, if◌then◌else◌}
use design_with_ts_go.Base.Maps.{Key, Map, IsMap, lookup, assign, lookup-assign, assign-IsMap}

module _ {V : Type 0} (version : V → ℕ) where
  -- `local, ok := into[key]; !ok || incoming.Version > local.Version`
  abbrev pub is_newer : Option V → V → Bool
  is_newer none incoming = true
  is_newer (some local) incoming = ltb (version local) (version incoming)

  -- The incoming entry if it is newer, and else the local one.
  abbrev pub newer : Option V → Option V → Option V
  newer local none = local
  newer local (some incoming) = if is_newer local incoming then some incoming else local

  module _ {K : Type 0} ⦃key : Key K⦄ where
    unfoldable pub merge_newer : Map K V → Map K V → Map K V
    merge_newer [] into = into
    merge_newer ((k, incoming) ∷ from) into =
        merge_newer from
          (if is_newer (lookup k into) incoming then assign k incoming into else into)

    pub lookup-merge_newer :
        (j : K) (from into : Map K V)
        → IsMap from
        → lookup j (merge_newer from into) ≡ newer (lookup j into) (lookup j from)
    unfolding merge_newer lookup
    lookup-merge_newer j [] into h = refl
    lookup-merge_newer j ((k, incoming) ∷ from) into h =
        let next = if is_newer (lookup k into) incoming then assign k incoming into else into in
        ground (arith, lookup-merge_newer j from next h.1, lookup-assign j k incoming into)

    pub merge_newer-IsMap : (from into : Map K V) → IsMap into → IsMap (merge_newer from into)
    unfolding merge_newer
    merge_newer-IsMap [] into h = h
    merge_newer-IsMap ((k, incoming) ∷ from) into h =
        merge_newer-IsMap from
          (if is_newer (lookup k into) incoming then assign k incoming into else into)
          (ground (arith, assign-IsMap k incoming into h))
