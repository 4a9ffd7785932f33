-- ===== src/VectorClock/Order.antt =====
-- What `Compare`, `Tick` and `Merge` of 34-Vector-Clocks/main.go mean on the counters.
use design_with_ts_go.Base.{
  ap, Bool-cases, ℕ, ◌+◌, ◌≤◌, ◌<◌, max, ◌≡◌, refl, ◌≢◌, ◌↔◌, ◌⊎◌, inl, inr, ite, Bool, true, false,
  ◌||◌, none, [], ◌∷◌, arith, GoString, string_key, Map, IsMap, same_key, lookup, assign,
  lookup-assign, count_of, count_of-raise_all, ltb,
}
use design_with_ts_go.VectorClock.{
  VectorClock, tick, merge, Relation, before, after, equal, concurrent, mark_seen, scan, verdict,
  compare,
}

abbrev pub at : VectorClock → GoString → ℕ
at vc node = count_of node vc.clock

abbrev pub IsBelow : VectorClock → VectorClock → Type 0
IsBelow a b = (node : GoString) → at a node ≤ at b node

-- Some node counts less in the first clock.
abbrev pub IsLessSomewhere : VectorClock → VectorClock → Type 0
IsLessSomewhere a b = (node : GoString) × (at a node < at b node)

-- The causal relation that each answer stands for.
abbrev pub Relates : Relation → VectorClock → VectorClock → Type 0
Relates before a b = IsBelow a b × IsLessSomewhere a b
Relates after a b = IsBelow b a × IsLessSomewhere b a
Relates equal a b = (node : GoString) → at a node ≡ at b node
Relates concurrent a b = IsLessSomewhere a b × IsLessSomewhere b a

abbrev IsMarked : GoString → Map GoString Bool → Type 0
IsMarked node seen = lookup node seen ≢ none

mark_seen_keeps :
    (node : GoString) (m : Map GoString ℕ) (seen : Map GoString Bool)
    → IsMarked node seen
    → IsMarked node (mark_seen m seen)
unfolding mark_seen
mark_seen_keeps node [] seen h = h
mark_seen_keeps node ((k, _) ∷ m) seen h =
    mark_seen_keeps node m (assign k true seen) (ground (arith, lookup-assign node k true seen))

mark_seen_marks :
    (node : GoString) (m : Map GoString ℕ) (seen : Map GoString Bool)
    → lookup node m ≢ none
    → IsMarked node (mark_seen m seen)
unfolding mark_seen lookup
mark_seen_marks node [] seen h = absurd (h refl)
mark_seen_marks node ((k, _) ∷ m) seen h = elim (same_key k node) [
  | yes p ↦
      mark_seen_keeps node m (assign k true seen) (ground (arith, lookup-assign node k true seen))
  | no p ↦ mark_seen_marks node m (assign k true seen) (ground arith)
]

module _ (a b : VectorClock) where
  -- A flag that is up was up, or a node put it up.
  scan_less :
      (seen : Map GoString Bool) (l g : Bool)
      → (scan seen a b (l, g)).0 ≡ true
      → (l ≡ true) ⊎ IsLessSomewhere a b
  unfolding scan
  scan_less [] l g h = inl h
  scan_less ((k, _) ∷ seen) l g h =
      elim (scan_less seen (l || ltb (at a k) (at b k)) (g || ltb (at b k) (at a k)) h) [
        | inl up ↦ elim (Bool-split l (ltb (at a k) (at b k)) up) [
          | inl old ↦ inl old
          | inr now ↦ inr (k, ground arith)
        ]
        | inr found ↦ inr found
      ]
    where
      Bool-split : (x y : Bool) → (x || y) ≡ true → (x ≡ true) ⊎ (y ≡ true)
      Bool-split x y e = ground arith

  scan_greater :
      (seen : Map GoString Bool) (l g : Bool)
      → (scan seen a b (l, g)).1 ≡ true
      → (g ≡ true) ⊎ IsLessSomewhere b a
  unfolding scan
  scan_greater [] l g h = inl h
  scan_greater ((k, _) ∷ seen) l g h =
      elim (scan_greater seen (l || ltb (at a k) (at b k)) (g || ltb (at b k) (at a k)) h) [
        | inl up ↦ elim (Bool-cases g) [ inl old ↦ inl old | inr down ↦ inr (k, ground arith) ]
        | inr found ↦ inr found
      ]

  -- A flag that is up stays up, and a marked node puts it up.
  scan_keeps :
      (seen : Map GoString Bool) (l g : Bool)
      → (l ≡ true → (scan seen a b (l, g)).0 ≡ true) × (g ≡ true → (scan seen a b (l, g)).1 ≡ true)
  unfolding scan
  scan_keeps [] l g = (λ h. h, λ h. h)
  scan_keeps ((k, _) ∷ seen) l g =
      let (first, second) =
        scan_keeps seen (l || ltb (at a k) (at b k)) (g || ltb (at b k) (at a k)) in
      (λ h. first (ground arith), λ h. second (ground arith))

  scan_finds :
      (node : GoString) (seen : Map GoString Bool) (l g : Bool)
      → IsMarked node seen
      → (at a node < at b node → (scan seen a b (l, g)).0 ≡ true)
        × (at b node < at a node → (scan seen a b (l, g)).1 ≡ true)
  unfolding scan lookup
  scan_finds node [] l g m = absurd (m refl)
  scan_finds node ((k, _) ∷ seen) l g m =
      let l' = l || ltb (at a k) (at b k) in
      let g' = g || ltb (at b k) (at a k) in
      elim (same_key k node) [
        | yes p ↦
            let (first, second) = scan_keeps seen l' g' in
            (λ h. first (ground arith), λ h. second (ground arith))
        | no p ↦ scan_finds node seen l' g' (ground arith)
      ]

  abbrev seen_by : Map GoString Bool
  seen_by = mark_seen b.clock (mark_seen a.clock [])

  less-IsMarked : (node : GoString) → at a node < at b node → IsMarked node seen_by
  less-IsMarked node h = mark_seen_marks node b.clock (mark_seen a.clock []) (λ e. ground arith)

  greater-IsMarked : (node : GoString) → at b node < at a node → IsMarked node seen_by
  greater-IsMarked node h =
      mark_seen_keeps node b.clock (mark_seen a.clock [])
        (mark_seen_marks node a.clock [] (λ e. ground arith))

  -- A flag that stayed down bounds every node.
  IsBelow-of_flag : (scan seen_by a b (false, false)).1 ≡ false → IsBelow a b
  IsBelow-of_flag h node =
      ground (arith, scan_finds node seen_by false false, greater-IsMarked node)

  above_of_flag : (scan seen_by a b (false, false)).0 ≡ false → IsBelow b a
  above_of_flag h node = ground (arith, scan_finds node seen_by false false, less-IsMarked node)

  less_of_flag : (scan seen_by a b (false, false)).0 ≡ true → IsLessSomewhere a b
  less_of_flag h = elim (scan_less seen_by false false h) [ inl e ↦ cc | inr found ↦ found ]

  greater_of_flag : (scan seen_by a b (false, false)).1 ≡ true → IsLessSomewhere b a
  greater_of_flag h = elim (scan_greater seen_by false false h) [ inl e ↦ cc | inr found ↦ found ]

  verdict-Relates :
      (flags : Bool × Bool) → scan seen_by a b (false, false) ≡ flags → Relates (verdict flags) a b
  verdict-Relates (true, true) e =
      (less_of_flag (ap (λ f. f.0) e), greater_of_flag (ap (λ f. f.1) e))
  verdict-Relates (true, false) e =
      (IsBelow-of_flag (ap (λ f. f.1) e), less_of_flag (ap (λ f. f.0) e))
  verdict-Relates (false, true) e =
      (above_of_flag (ap (λ f. f.0) e), greater_of_flag (ap (λ f. f.1) e))
  verdict-Relates (false, false) e = λ node.
      omega (arith, IsBelow-of_flag (ap (λ f. f.1) e) node, above_of_flag (ap (λ f. f.0) e) node)

  -- The answer of `Compare` is the causal relation of the two clocks.
  pub compare-Relates : Relates (compare a b) a b
  unfolding compare
  compare-Relates = verdict-Relates (scan seen_by a b (false, false)) refl

Relates-unique : (r s : Relation) (a b : VectorClock) → Relates r a b → Relates s a b → r ≡ s
Relates-unique before before a b h k = refl
Relates-unique before after a b h k = absurd (omega (arith, h.0 k.1.0, k.1.1))
Relates-unique before equal a b h k = absurd (omega (arith, h.1.1, k h.1.0))
Relates-unique before concurrent a b h k = absurd (omega (arith, h.0 k.1.0, k.1.1))
Relates-unique after before a b h k = absurd (omega (arith, h.0 k.1.0, k.1.1))
Relates-unique after after a b h k = refl
Relates-unique after equal a b h k = absurd (omega (arith, h.1.1, k h.1.0))
Relates-unique after concurrent a b h k = absurd (omega (arith, h.0 k.0.0, k.0.1))
Relates-unique equal before a b h k = absurd (omega (arith, k.1.1, h k.1.0))
Relates-unique equal after a b h k = absurd (omega (arith, k.1.1, h k.1.0))
Relates-unique equal equal a b h k = refl
Relates-unique equal concurrent a b h k = absurd (omega (arith, k.0.1, h k.0.0))
Relates-unique concurrent before a b h k = absurd (omega (arith, k.0 h.1.0, h.1.1))
Relates-unique concurrent after a b h k = absurd (omega (arith, k.0 h.0.0, h.0.1))
Relates-unique concurrent equal a b h k = absurd (omega (arith, h.0.1, k h.0.0))
Relates-unique concurrent concurrent a b h k = refl

-- `Compare` answers `r` exactly when the counters of the two clocks stand in the relation `r`:
-- "before" when no counter of the first exceeds the second's and one is less, "after" the other
-- way round, "equal" when all agree, "concurrent" when each is less somewhere.
pub compare_iff : (a b : VectorClock) (r : Relation) → (compare a b ≡ r) ↔ Relates r a b
compare_iff a b r = (
  λ e. rw e at (compare-Relates a b),
  λ h. Relates-unique (compare a b) r a b (compare-Relates a b) h,
)

at-tick :
    (vc : VectorClock) (node k : GoString)
    → at (tick vc node) k ≡ ite (same_key node k) (at vc node + 1) (at vc k)
unfolding tick
at-tick vc node k = ground (arith, lookup-assign k node (at vc node + 1) vc.clock)

-- An event moves its clock strictly forward: the clock before a tick compares "before" the
-- clock after it.
pub compare-tick : (vc : VectorClock) (node : GoString) → compare vc (tick vc node) ≡ before
compare-tick vc node =
    (compare_iff vc (tick vc node) before).1
      (λ k. ground (arith, at-tick vc node k), (node, ground (arith, at-tick vc node node)))

-- A merged clock holds the larger counter of every node, whatever the order in which `range`
-- visits the other clock's entries, whose keys are distinct.
pub at-merge :
    (vc other : VectorClock) (node : GoString)
    → IsMap other.clock
    → at (merge vc other) node ≡ max (at other node) (at vc node)
unfolding merge
at-merge vc other node h = count_of-raise_all node other.clock vc.clock h

-- Merging is a join: the two orders of merging give clocks that compare as equal, and a clock is
-- below the merge of two clocks if it is below one of them.
pub compare-merge_comm :
    (a b : VectorClock)
    → IsMap a.clock
    → IsMap b.clock
    → (compare (merge a b) (merge b a) ≡ equal) × IsBelow a (merge a b) × IsBelow b (merge a b)
compare-merge_comm a b ha hb = (
  (compare_iff (merge a b) (merge b a) equal).1
      (λ k. omega (arith, at-merge a b k hb, at-merge b a k ha)),
  λ k. omega (arith, at-merge a b k hb),
  λ k. omega (arith, at-merge a b k hb),
)
