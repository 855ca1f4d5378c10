-- ===== src/Common/Bits/Digits.antt =====
-- Single binary digits of the bit operations, at every width.
use Prim.Native.Nat.{ℕ, zero, suc, ◌/◌, ◌%◌, ◌≤◌, ◌<◌, min, max, bit_and, bit_or, bit_and-bitwise}
use mathlib.Core.Path.{◌≡◌, ap, ◌∙◌}
use native.Mathlib.Omega.{arith}
use emcyphal.Common.Bits.Step.{and-low, or-low}

-- The binary digit of weight `2 ^ k`.
abbrev pub digit : ℕ → ℕ → ℕ
digit zero x = x % 2
digit (suc k) x = digit k (x / 2)

pub digit-and : (k a b : ℕ) → digit k (bit_and a b) ≡ min (digit k a) (digit k b)
digit-and zero a b = omega (arith, and-low a b)
digit-and (suc k) a b = ap (digit k) (omega (arith, and-low a b)) ∙ digit-and k (a / 2) (b / 2)

pub digit-or : (k a b : ℕ) → digit k (bit_or a b) ≡ max (digit k a) (digit k b)
digit-or zero a b = omega (arith, or-low a b)
digit-or (suc k) a b = ap (digit k) (omega (arith, or-low a b)) ∙ digit-or k (a / 2) (b / 2)

pub digit-lt : (k x : ℕ) → digit k x < 2
digit-lt zero x = omega arith
digit-lt (suc k) x = digit-lt k (x / 2)

zero-and : (b : ℕ) → bit_and 0 b ≡ 0
zero-and b = bit_and-bitwise 0 b

-- A conjunction is no larger than its operands.
and-le_fuel : (n a b : ℕ) → a ≤ n → (bit_and a b ≤ a) × (bit_and a b ≤ b)
and-le_fuel zero a b h = let e : a ≡ 0 = omega arith in rw e (omega (arith, zero-and b))
and-le_fuel (suc n) zero b h = omega (arith, zero-and b)
and-le_fuel (suc n) (suc a) b h =
    omega (arith, and-low (suc a) b, and-le_fuel n (suc a / 2) (b / 2) (omega arith))

pub and-le_left : (a b : ℕ) → bit_and a b ≤ a
and-le_left a b = (and-le_fuel a a b (omega arith)).0

pub and-le_right : (a b : ℕ) → bit_and a b ≤ b
and-le_right a b = (and-le_fuel a a b (omega arith)).1

-- The low part of a number, cut off by a mask of ones.
pub and-one : (x : ℕ) → bit_and x 1 ≡ x % 2
and-one x = omega (arith, and-low x 1, and-le_right (x / 2) 0)
