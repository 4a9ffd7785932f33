-- ===== src/Base/Bits.antt =====
-- The bitwise or and and of Go's unsigned words.
use Prim.Native.Nat.{
  min, bit_and, bit_and-bitwise, ℕ, zero, suc, ◌+◌, ◌*◌, ◌/◌, ◌%◌, ◌≤◌, ◌<◌, max, bit_or, digits,
  bit_or-bitwise,
}
use mathlib.Core.Path.{◌≡◌, refl, sym, ◌∙◌}
use native.Mathlib.Omega.{arith}

abbrev or_digits : ℕ → ℕ → ℕ → ℕ
or_digits n a b = digits (λ b. b) max n a b

or_digits_fuel : (n m a b : ℕ) → a ≤ n → a ≤ m → or_digits n a b ≡ or_digits m a b
or_digits_fuel zero zero a b p q = refl
or_digits_fuel zero (suc m) zero b p q = refl
or_digits_fuel zero (suc m) (suc a) b p q = absurd (omega arith)
or_digits_fuel (suc n) zero zero b p q = refl
or_digits_fuel (suc n) zero (suc a) b p q = absurd (omega arith)
or_digits_fuel (suc n) (suc m) zero b p q = refl
or_digits_fuel (suc n) (suc m) (suc a) b p q =
    omega (arith, or_digits_fuel n m (suc a / 2) (b / 2) (omega arith) (omega arith))

zero-bit_or : (b : ℕ) → bit_or 0 b ≡ b
zero-bit_or b = bit_or-bitwise 0 b

-- The law for the lowest digit.
bit_or_step : (a b : ℕ) → bit_or a b ≡ bit_or (a / 2) (b / 2) * 2 + max (a % 2) (b % 2)
bit_or_step zero b = omega (arith, zero-bit_or b, zero-bit_or (b / 2))
bit_or_step (suc a) b = omega (
  arith,
  bit_or-bitwise (suc a) b,
  bit_or-bitwise (suc a / 2) (b / 2),
  or_digits_fuel a (suc a / 2) (suc a / 2) (b / 2) (omega arith) (omega arith),
)

bit_or-zero_fuel : (n a : ℕ) → a ≤ n → bit_or a 0 ≡ a
bit_or-zero_fuel zero zero h = zero-bit_or 0
bit_or-zero_fuel (suc n) zero h = zero-bit_or 0
bit_or-zero_fuel zero (suc a) h = absurd (omega arith)
bit_or-zero_fuel (suc n) (suc a) h =
    omega (arith, bit_or_step (suc a) 0, bit_or-zero_fuel n (suc a / 2) (omega arith))

-- `a << k`, without the bound of a word
abbrev pub shifted : ℕ → ℕ → ℕ
shifted zero a = a
shifted (suc k) a = shifted k a * 2

-- Fields that do not overlap add up.
pub bit_or-shifted :
    (k high low : ℕ) → low < shifted k 1 → bit_or (shifted k high) low ≡ shifted k high + low
bit_or-shifted zero high zero h = omega (arith, bit_or-zero_fuel high high (omega arith))
bit_or-shifted zero high (suc low) h = absurd (omega arith)
bit_or-shifted (suc k) high low h =
    let half : shifted k high * 2 / 2 ≡ shifted k high = omega arith in
    let digit = bit_or_step (shifted k high * 2) low in
    omega (arith, rw half at digit, bit_or-shifted k high (low / 2) (omega arith))

abbrev and_digits : ℕ → ℕ → ℕ → ℕ
and_digits n a b = digits (λ b. zero) min n a b

and_digits_more : (n m a b : ℕ) → a ≤ n → a ≤ m → and_digits n a b ≡ and_digits m a b
and_digits_more n m zero b p q = nothing_left n ∙ sym (nothing_left m)
  where
    nothing_left : (k : ℕ) → and_digits k zero b ≡ zero
    nothing_left zero = refl
    nothing_left (suc k) = refl
and_digits_more zero m (suc a) b p q = absurd (omega arith)
and_digits_more (suc n) zero (suc a) b p q = absurd (omega arith)
and_digits_more (suc n) (suc m) (suc a) b p q =
    omega (arith, and_digits_more n m (suc a / 2) (b / 2) (omega arith) (omega arith))

bit_and_digit : (a b : ℕ) → bit_and a b ≡ bit_and (a / 2) (b / 2) * 2 + min (a % 2) (b % 2)
bit_and_digit zero b = omega (arith, bit_and-bitwise 0 b, bit_and-bitwise 0 (b / 2))
bit_and_digit (suc a) b = omega (
  arith,
  bit_and-bitwise (suc a) b,
  bit_and-bitwise (suc a / 2) (b / 2),
  and_digits_more a (suc a / 2) (suc a / 2) (b / 2) (omega arith) (omega arith),
)

-- `1<<k - 1`
abbrev pub mask : ℕ → ℕ
mask zero = 0
mask (suc k) = mask k * 2 + 1

bit_and-none : (n a : ℕ) → a ≤ n → bit_and a 0 ≡ 0
bit_and-none n zero h = bit_and-bitwise 0 0
bit_and-none zero (suc a) h = absurd (omega arith)
bit_and-none (suc n) (suc a) h =
    omega (arith, bit_and_digit (suc a) 0, bit_and-none n (suc a / 2) (omega arith))

-- Masking keeps the lowest digits: the number is the rest times a power of two, and what is kept.
pub bit_and-mask :
    (k a : ℕ)
    → (high : ℕ) × (a ≡ shifted k high + bit_and a (mask k)) × (bit_and a (mask k) < shifted k 1)
bit_and-mask zero a = (
  a,
  omega (arith, bit_and-none a a (omega arith)),
  omega (arith, bit_and-none a a (omega arith)),
)
bit_and-mask (suc k) a =
    let (high, split, small) = bit_and-mask k (a / 2) in
    let digit = bit_and_digit a (mask k * 2 + 1) in
    let half : (mask k * 2 + 1) / 2 ≡ mask k = omega arith in
    (high, omega (arith, rw half at digit), omega (arith, rw half at digit))
