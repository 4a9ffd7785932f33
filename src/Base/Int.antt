-- ===== src/Base/Int.antt =====
-- Go's signed `int` as an integer over the native numbers. `negsuc n` is -(n + 1).
use Prim.Native.Nat.{ℕ, suc, ◌+◌, ◌-◌, ◌≤◌}
use mathlib.Core.Path.{◌≡◌}
use mathlib.Core.Bool.{Bool}
use native.Mathlib.Omega.{arith}
use native.Mathlib.Decide.{ℕ_discrete}
use design_with_ts_go.Base.Tests.{ltb, leb, if◌then◌else◌}
use design_with_ts_go.Base.Maps.{Key}

pub data ℤ : Type 0 where
  pos : ℕ → ℤ
  negsuc : ℕ → ℤ

abbrev pub pos_part : ℤ → ℕ
pos_part (pos n) = n
pos_part (negsuc n) = 0

abbrev pub neg_part : ℤ → ℕ
neg_part (pos n) = 0
neg_part (negsuc n) = suc n

-- a - b, as an integer
abbrev pub sub_ℕ : ℕ → ℕ → ℤ
sub_ℕ a b = if leb b a then pos (a - b) else negsuc (b - a - 1)

infixl 65 ◌+ℤ◌
unfoldable pub ◌+ℤ◌ : ℤ → ℤ → ℤ
a +ℤ b = sub_ℕ (pos_part a + pos_part b) (neg_part a + neg_part b)

infix 50 ◌≤ℤ◌
abbrev pub ◌≤ℤ◌ : ℤ → ℤ → Type 0
a ≤ℤ b = pos_part a + neg_part b ≤ pos_part b + neg_part a

abbrev pub leb_ℤ : ℤ → ℤ → Bool
leb_ℤ a b = leb (pos_part a + neg_part b) (pos_part b + neg_part a)

abbrev pub ltb_ℤ : ℤ → ℤ → Bool
ltb_ℤ a b = ltb (pos_part a + neg_part b) (pos_part b + neg_part a)

unfoldable pub ℤ-discrete : Discrete ℤ
unfolding ℕ_discrete
ℤ-discrete = hlevel ℕ_discrete

instance abbrev pub int_key : Key ℤ
int_key = record { same = ℤ-discrete }

-- What a sum stands for, on natural numbers.
pub add_parts :
    (a b : ℤ)
    → pos_part (a +ℤ b) + (neg_part a + neg_part b) ≡ pos_part a + pos_part b + neg_part (a +ℤ b)
unfolding ◌+ℤ◌
add_parts a b = sub_parts (pos_part a + pos_part b) (neg_part a + neg_part b)
  where
    sub_parts : (m n : ℕ) → pos_part (sub_ℕ m n) + n ≡ m + neg_part (sub_ℕ m n)
    sub_parts m n = ground arith

pub add_zero : (a : ℤ) → a +ℤ pos 0 ≡ a
unfolding ◌+ℤ◌
add_zero (pos n) = ground arith
add_zero (negsuc n) = ground arith

-- An integer is known by what it stands for.
pub ℤ_ext : (a b : ℤ) → pos_part a + neg_part b ≡ pos_part b + neg_part a → a ≡ b
ℤ_ext (pos m) (pos n) e = ground arith
ℤ_ext (pos m) (negsuc n) e = absurd (omega arith)
ℤ_ext (negsuc m) (pos n) e = absurd (omega arith)
ℤ_ext (negsuc m) (negsuc n) e = ground arith

pub add_assoc : (a b c : ℤ) → (a +ℤ b) +ℤ c ≡ a +ℤ (b +ℤ c)
add_assoc a b c =
    ℤ_ext ((a +ℤ b) +ℤ c) (a +ℤ (b +ℤ c))
      (omega (arith, add_parts a b, add_parts (a +ℤ b) c, add_parts b c, add_parts a (b +ℤ c)))

pub zero_add : (a : ℤ) → pos 0 +ℤ a ≡ a
zero_add a = ℤ_ext (pos 0 +ℤ a) a (omega (arith, add_parts (pos 0) a))
