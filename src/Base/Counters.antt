-- ===== src/Base/Counters.antt =====
-- Maps of counters, `map[string]int`: the reading with Go's zero value, and the loop by which
-- 34-Vector-Clocks and 35-CRDT raise one map to another.
use Prim.Native.Nat.{ℕ, max, ◌+◌}
use mathlib.Core.Path.{◌≡◌, refl, sym}
use mathlib.Core.Logic.{ite}
use mathlib.Core.List.{[], ◌∷◌}
use mathlib.Core.Option.{none}
use native.Mathlib.Omega.{arith}
use design_with_ts_go.Base.Tests.{ltb, if◌then◌else◌}
use design_with_ts_go.Base.Lists.{get_or}
use design_with_ts_go.Base.Maps.{
  Key, Map, IsMap, same_key, lookup, assign, lookup-assign, assign-IsMap, delete, lookup-delete,
  delete-IsMap,
}

module _ {K : Type 0} ⦃key : Key K⦄ where
  -- `m[k]`: 0 for a missing key
  abbrev pub count_of : K → Map K ℕ → ℕ
  count_of k m = get_or (lookup k m) 0

  -- `for k, v := range from { if v > into[k] { into[k] = v } }`
  unfoldable pub raise_all : Map K ℕ → Map K ℕ → Map K ℕ
  raise_all [] into = into
  raise_all ((k, v) ∷ from) into =
      raise_all from (if ltb (count_of k into) v then assign k v into else into)

  raise_one :
      (j k : K) (v : ℕ) (into : Map K ℕ)
      → count_of j (if ltb (count_of k into) v then assign k v into else into)
        ≡ ite (same_key k j) (max v (count_of j into)) (count_of j into)
  raise_one j k v into = ground (arith, lookup-assign j k v into)

  pub count_of-raise_all :
      (j : K) (from into : Map K ℕ)
      → IsMap from
      → count_of j (raise_all from into) ≡ max (count_of j from) (count_of j into)
  unfolding raise_all lookup
  count_of-raise_all j [] into h = omega arith
  count_of-raise_all j ((k, v) ∷ from) into h =
      let next = if ltb (count_of k into) v then assign k v into else into in
      ground (arith, count_of-raise_all j from next h.1, raise_one j k v into)

  pub raise_all-IsMap : (from into : Map K ℕ) → IsMap into → IsMap (raise_all from into)
  unfolding raise_all
  raise_all-IsMap [] into h = h
  raise_all-IsMap ((k, v) ∷ from) into h =
      raise_all-IsMap from (if ltb (count_of k into) v then assign k v into else into)
        (ground (arith, assign-IsMap k v into h))

  -- `for _, v := range m { total += v }`
  unfoldable pub total : Map K ℕ → ℕ
  total [] = 0
  total ((_, v) ∷ m) = v + total m

  pub total-assign :
      (k : K) (v : ℕ) (m : Map K ℕ) → total (assign k v m) + count_of k m ≡ total m + v
  unfolding total assign lookup
  total-assign k v [] = omega arith
  total-assign k v ((j, w) ∷ m) = ground (arith, total-assign k v m)

  total-delete : (k : K) (m : Map K ℕ) → IsMap m → total m ≡ count_of k m + total (delete k m)
  unfolding total delete lookup
  total-delete k [] h = omega arith
  total-delete k ((j, w) ∷ m) h = ground (arith, total-delete k m h.1, delete_absent k m)
    where
      delete_absent : (i : K) (r : Map K ℕ) → lookup i r ≡ none → delete i r ≡ r
      delete_absent i [] e = refl
      delete_absent i ((l, w) ∷ r) e = ground (arith, delete_absent i r)

  total_of_zero : (m : Map K ℕ) → IsMap m → ((k : K) → count_of k m ≡ 0) → total m ≡ 0
  unfolding total lookup
  total_of_zero [] h z = refl
  total_of_zero ((j, w) ∷ m) h z =
      ground (arith, z j, total_of_zero m h.1 (λ k. ground (arith, z k)))

  -- The total depends on the readings alone, not on the order of the entries.
  pub total_ext :
      (m n : Map K ℕ)
      → IsMap m
      → IsMap n
      → ((k : K) → count_of k m ≡ count_of k n)
      → total m ≡ total n
  unfolding total lookup
  total_ext [] n hm hn e = ground (arith, total_of_zero n hn (λ k. sym (e k)))
  total_ext ((j, w) ∷ m) n hm hn e = ground (
    arith,
    e j,
    total-delete j n hn,
    total_ext m (delete j n) hm.1 (delete-IsMap j n hn)
        (λ k. ground (arith, e k, lookup-delete k j n)),
  )
