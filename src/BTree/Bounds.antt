-- ===== src/BTree/Bounds.antt =====
-- 21-B-Tree/main.go: keys between bounds, of which either may be open.
use design_with_ts_go.Base.{
  ℕ, ◌+◌, ◌≤◌, ◌≡◌, sym, inl, inr, true, false, Option, none, some, List, [], ◌∷◌, arith, ltb,
  ltb→lt, nat_key, string_key, ℤ, pos_part, neg_part, ◌≤ℤ◌, ltb_ℤ, int_key, Among,
}

abbrev pub LoLe : Option ℤ → ℤ → Type 0
LoLe none k = Unit
LoLe (some l) k = l ≤ℤ k

abbrev pub LeHi : ℤ → Option ℤ → Type 0
LeHi k none = Unit
LeHi k (some h) = k ≤ℤ h

-- Keys in order between the bounds.
abbrev pub InOrder : Option ℤ → List ℤ → Option ℤ → Type 0
InOrder lo [] hi = Unit
InOrder lo (k ∷ ks) hi = LoLe lo k × LeHi k hi × InOrder (some k) ks hi

pub LoLe-trans : (lo : Option ℤ) (a b : ℤ) → LoLe lo a → a ≤ℤ b → LoLe lo b
LoLe-trans none a b p q = tt
LoLe-trans (some l) a b p q = omega arith

pub LeHi-trans : (a b : ℤ) (hi : Option ℤ) → a ≤ℤ b → LeHi b hi → LeHi a hi
LeHi-trans a b none p q = tt
LeHi-trans a b (some h) p q = omega arith

pub le_of_ltb : (a b : ℤ) → ltb_ℤ a b ≡ true → a ≤ℤ b
le_of_ltb a b e = omega (arith, ltb→lt (pos_part a + neg_part b) (pos_part b + neg_part a) e)

pub ltb_not : (m n : ℕ) → ltb m n ≡ false → n ≤ m
ltb_not m n e = ground arith

pub le_of_not : (a b : ℤ) → ltb_ℤ a b ≡ false → b ≤ℤ a
le_of_not a b e = omega (arith, ltb_not (pos_part a + neg_part b) (pos_part b + neg_part a) e)

-- A key of the list lies between the bounds.
pub Among-LoLe :
    (lo : Option ℤ) (ks : List ℤ) (hi : Option ℤ) (x : ℤ)
    → InOrder lo ks hi
    → Among x ks
    → LoLe lo x × LeHi x hi
Among-LoLe lo [] hi x h m = absurd m
Among-LoLe lo (k ∷ ks) hi x h (inl e) = rw (sym e) (h.0, h.1)
Among-LoLe lo (k ∷ ks) hi x h (inr m) =
    let (low, high) = Among-LoLe (some k) ks hi x h.2 m in (LoLe-trans lo k x h.0 low, high)
