-- ===== src/Common/Bits/Fields.antt =====
-- Bit fields: masks and disjoint words, at every width.
use Prim.Native.Nat.{
  ℕ, zero, suc, ◌+◌, ◌-◌, ◌*◌, ◌/◌, ◌^◌, ◌≤◌, ◌<◌, bit_and, bit_or, bit_or-bitwise,
}
use mathlib.Core.Path.{◌≡◌, refl, ap, ap₂}
use native.Mathlib.Omega.{arith}
use native.Mathlib.Nat.{pow-suc}
use emcyphal.Common.Bits.Step.{and-low, or-low}
use emcyphal.Common.Bits.Digits.{and-le_right}

pub and-zero : (x : ℕ) → bit_and x 0 ≡ 0
and-zero x = omega (arith, and-le_right x 0)

pub zero-or : (x : ℕ) → bit_or 0 x ≡ x
zero-or x = bit_or-bitwise 0 x

or-zero_fuel : (n x : ℕ) → x ≤ n → bit_or x 0 ≡ x
or-zero_fuel zero x h = let e : x ≡ 0 = omega arith in rw e
or-zero_fuel (suc n) zero h = refl
or-zero_fuel (suc n) (suc x) h =
    omega (arith, or-low (suc x) 0, or-zero_fuel n (suc x / 2) (omega arith))

pub or-zero : (x : ℕ) → bit_or x 0 ≡ x
or-zero x = or-zero_fuel x x (omega arith)

mul_pow-suc : (a k : ℕ) → a * 2 ^ suc k ≡ a * 2 ^ k * 2
mul_pow-suc a k = rw (pow-suc 2 k) (omega arith)

-- Two words over the same low part are combined part by part.
pub and-join :
    (k a b r s : ℕ)
    → r < 2 ^ k
    → s < 2 ^ k
    → bit_and (a * 2 ^ k + r) (b * 2 ^ k + s) ≡ bit_and a b * 2 ^ k + bit_and r s
and-join zero a b r s hr hs =
    let e : r ≡ 0 = omega arith in
    let f : s ≡ 0 = omega arith in
    let ea : a * 1 + 0 ≡ a = omega arith in
    let eb : b * 1 + 0 ≡ b = omega arith in rw (e, f, ea, eb) (omega arith)
and-join (suc k) a b r s hr hs =
    let low = and-low (a * 2 ^ suc k + r) (b * 2 ^ suc k + s) in
    let ea : (a * 2 ^ suc k + r) / 2 ≡ a * 2 ^ k + r / 2 = omega (arith, mul_pow-suc a k) in
    let eb : (b * 2 ^ suc k + s) / 2 ≡ b * 2 ^ k + s / 2 = omega (arith, mul_pow-suc b k) in
    let halves = ap₂ bit_and ea eb in
    omega (
      arith,
      low,
      halves,
      mul_pow-suc a k,
      mul_pow-suc b k,
      mul_pow-suc (bit_and a b) k,
      and-low r s,
      and-join k a b (r / 2) (s / 2) (omega (arith, pow-suc 2 k)) (omega (arith, pow-suc 2 k)),
    )

pub or-join :
    (k a b r s : ℕ)
    → r < 2 ^ k
    → s < 2 ^ k
    → bit_or (a * 2 ^ k + r) (b * 2 ^ k + s) ≡ bit_or a b * 2 ^ k + bit_or r s
or-join zero a b r s hr hs =
    let e : r ≡ 0 = omega arith in
    let f : s ≡ 0 = omega arith in
    let ea : a * 1 + 0 ≡ a = omega arith in
    let eb : b * 1 + 0 ≡ b = omega arith in rw (e, f, ea, eb) (omega arith)
or-join (suc k) a b r s hr hs =
    let low = or-low (a * 2 ^ suc k + r) (b * 2 ^ suc k + s) in
    let ea : (a * 2 ^ suc k + r) / 2 ≡ a * 2 ^ k + r / 2 = omega (arith, mul_pow-suc a k) in
    let eb : (b * 2 ^ suc k + s) / 2 ≡ b * 2 ^ k + s / 2 = omega (arith, mul_pow-suc b k) in
    let halves = ap₂ bit_or ea eb in
    omega (
      arith,
      low,
      halves,
      mul_pow-suc a k,
      mul_pow-suc b k,
      mul_pow-suc (bit_or a b) k,
      or-low r s,
      or-join k a b (r / 2) (s / 2) (omega (arith, pow-suc 2 k)) (omega (arith, pow-suc 2 k)),
    )

-- A mask of ones keeps a word that is no wider.
pub and-ones : (k r : ℕ) → r < 2 ^ k → bit_and r (2 ^ k - 1) ≡ r
and-ones zero r h = let e : r ≡ 0 = omega arith in rw e
and-ones (suc k) r h =
    let m : (2 ^ suc k - 1) / 2 ≡ 2 ^ k - 1 = omega (arith, pow-suc 2 k) in
    omega (
      arith,
      and-low r (2 ^ suc k - 1),
      ap (bit_and (r / 2)) m,
      and-ones k (r / 2) (omega (arith, pow-suc 2 k)),
      pow-suc 2 k,
    )

-- It keeps the low part of a wider one.
pub and-mask : (k h l : ℕ) → l < 2 ^ k → bit_and (h * 2 ^ k + l) (2 ^ k - 1) ≡ l
and-mask k h l small =
    let e : 0 * 2 ^ k + (2 ^ k - 1) ≡ 2 ^ k - 1 = omega arith in
    omega (
      arith,
      ap (bit_and (h * 2 ^ k + l)) e,
      and-join k h 0 l (2 ^ k - 1) small (omega arith),
      ap (λ t. t * 2 ^ k) (and-zero h),
      and-ones k l small,
    )
