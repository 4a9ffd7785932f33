-- ===== src/Crdt/Convergence.antt =====
-- The laws of `Increment`, `Merge` and `Value` of 35-CRDT/main.go.
use design_with_ts_go.Base.{
  ℕ, ◌+◌, max, ◌≡◌, refl, none, some, arith, nat_key, IsMap, GoString, string_key, total-assign,
  total_ext, pos, negsuc, int_key, count_of, count_of-raise_all, raise_all-IsMap,
}
use design_with_ts_go.Crdt.{
  GCounter, merge, value, PnCounter, pn_increment, pn_decrement, pn_merge, pn_value,
}

-- Every map of the counter has distinct keys, as Go's maps do.
abbrev pub IsValid : PnCounter → Type 0
IsValid c = IsMap c.positive.counts × IsMap c.negative.counts

count-merge :
    (c other : GCounter) (node : GoString)
    → IsMap other.counts
    → count_of node (merge c other).counts
      ≡ max (count_of node other.counts) (count_of node c.counts)
unfolding merge
count-merge c other node h = count_of-raise_all node other.counts c.counts h

merge-IsMap : (c other : GCounter) → IsMap c.counts → IsMap (merge c other).counts
unfolding merge
merge-IsMap c other h = raise_all-IsMap other.counts c.counts h

value_ext :
    (c d : GCounter)
    → IsMap c.counts
    → IsMap d.counts
    → ((node : GoString) → count_of node c.counts ≡ count_of node d.counts)
    → value c ≡ value d
unfolding value
value_ext c d hc hd e = total_ext c.counts d.counts hc hd e

module _ (a b c : GCounter) (ha : IsMap a.counts) (hb : IsMap b.counts) (hc : IsMap c.counts) where
  value-merge_comm : value (merge a b) ≡ value (merge b a)
  value-merge_comm =
      value_ext (merge a b) (merge b a) (merge-IsMap a b ha) (merge-IsMap b a hb)
        (λ k. omega (arith, count-merge a b k hb, count-merge b a k ha))

  value-merge_assoc : value (merge (merge a b) c) ≡ value (merge a (merge b c))
  value-merge_assoc =
      value_ext (merge (merge a b) c) (merge a (merge b c))
        (merge-IsMap (merge a b) c (merge-IsMap a b ha)) (merge-IsMap a (merge b c) ha)
        (λ k. omega (
          arith,
          count-merge (merge a b) c k hc,
          count-merge a b k hb,
          count-merge b c k hc,
          count-merge a (merge b c) k (merge-IsMap b c hb),
        ))

  value-merge_self : value (merge (merge a b) b) ≡ value (merge a b)
  value-merge_self =
      value_ext (merge (merge a b) b) (merge a b) (merge-IsMap (merge a b) b (merge-IsMap a b ha))
        (merge-IsMap a b ha)
        (λ k. omega (arith, count-merge (merge a b) b k hb, count-merge a b k hb))

-- Replicas converge: the value read after merging does not depend on the order or the grouping
-- of the merges, and merging the same state a second time changes nothing.
pub pn_merge_converges :
    (a b c : PnCounter)
    → IsValid a
    → IsValid b
    → IsValid c
    → (pn_value (pn_merge a b) ≡ pn_value (pn_merge b a))
      × (pn_value (pn_merge (pn_merge a b) c) ≡ pn_value (pn_merge a (pn_merge b c)))
      × (pn_value (pn_merge (pn_merge a b) b) ≡ pn_value (pn_merge a b))
unfolding pn_merge pn_value
pn_merge_converges a b c ha hb hc = (
  rw (
    value-merge_comm a.positive b.positive c.positive ha.0 hb.0 hc.0,
    value-merge_comm a.negative b.negative c.negative ha.1 hb.1 hc.1,
  ),
  rw (
    value-merge_assoc a.positive b.positive c.positive ha.0 hb.0 hc.0,
    value-merge_assoc a.negative b.negative c.negative ha.1 hb.1 hc.1,
  ),
  rw (
    value-merge_self a.positive b.positive c.positive ha.0 hb.0 hc.0,
    value-merge_self a.negative b.negative c.negative ha.1 hb.1 hc.1,
  ),
)

-- `Increment` and `Decrement` exit on a negative amount, and move the value by exactly a
-- nonnegative one: stated without subtraction, the positive total less the negative one moves up
-- or down by the amount.
pub pn_increment-value :
    (c : PnCounter) (node : GoString) (n : ℕ)
    → (pn_increment c node (negsuc n) ≡ none)
      × (pn_decrement c node (negsuc n) ≡ none)
      × ((d : PnCounter) × (pn_increment c node (pos n) ≡ some d)
          × (value d.positive ≡ value c.positive + n)
          × (value d.negative ≡ value c.negative))
      × ((d : PnCounter) × (pn_decrement c node (pos n) ≡ some d)
          × (value d.positive ≡ value c.positive)
          × (value d.negative ≡ value c.negative + n))
unfolding pn_increment pn_decrement value
pn_increment-value c node n = (
  refl,
  refl,
  (
    _,
    refl,
    omega (arith, total-assign node (count_of node c.positive.counts + n) c.positive.counts),
    refl,
  ),
  (
    _,
    refl,
    refl,
    omega (arith, total-assign node (count_of node c.negative.counts + n) c.negative.counts),
  ),
)
