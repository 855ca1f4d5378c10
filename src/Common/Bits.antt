-- ===== src/Common/Bits.antt =====
-- Facts on native bit operations that the tactics do not have, and checks by exhaustion.
mod Step
mod Digits
mod Fields
mod Words
use Prim.Native.Nat.{
  ℕ, zero, suc, ◌+◌, ◌*◌, ◌/◌, ◌%◌, ◌^◌, ◌≤◌, ◌<◌, bit_and, bit_or, bit_xor, differ,
}
use mathlib.Core.Path.{◌≡◌, refl, ap}
use mathlib.Core.Bool.{Bool, true, ◌&&◌}
use native.Mathlib.Omega.{arith}
use native.Mathlib.Nat.{pow-suc}
pub use Step.{and-low, or-low, xor-low}
pub use Digits.*
pub use Fields.*
pub use Words.*

-- Whether a test passes at every number below a bound.
unfoldable pub all_below : ℕ → (ℕ → Bool) → Bool
all_below zero test = true
all_below (suc top) test = test top && all_below top test

pub all_below_sound :
    (bound : ℕ) (test : ℕ → Bool) (value : ℕ)
    → all_below bound test ≡ true
    → value < bound
    → test value ≡ true
unfolding all_below
all_below_sound zero test value passed small = absurd (omega arith)
all_below_sound (suc top) test value passed small = ground (arith, all_below_sound top test value)

differ-lt : (a b : ℕ) → differ (a % 2) (b % 2) < 2
differ-lt a b = split (a % 2) (b % 2) (omega arith) (omega arith)
  where
    split : (x y : ℕ) → x < 2 → y < 2 → differ x y < 2
    split zero y h k = k
    split (suc x) zero h k = h
    split (suc zero) (suc zero) h k = omega arith
    split (suc (suc x)) (suc y) h k = absurd (omega arith)
    split (suc zero) (suc (suc y)) h k = absurd (omega arith)

differ_self : (x : ℕ) → differ x x ≡ 0
differ_self zero = refl
differ_self (suc x) = differ_self x

-- Exclusive or does not widen a word.
pub xor-lt : (k a b : ℕ) → a < 2 ^ k → b < 2 ^ k → bit_xor a b < 2 ^ k
xor-lt zero a b p q =
    let e : a ≡ 0 = omega arith in let f : b ≡ 0 = omega arith in rw (e, f) (omega arith)
xor-lt (suc k) a b p q = omega (
  arith,
  xor-low a b,
  differ-lt a b,
  pow-suc 2 k,
  xor-lt k (a / 2) (b / 2) (omega (arith, pow-suc 2 k)) (omega (arith, pow-suc 2 k)),
)

-- A word cancels itself.
xor-self_fuel : (n a : ℕ) → a ≤ n → bit_xor a a ≡ 0
xor-self_fuel zero a h = let e : a ≡ 0 = omega arith in rw e
xor-self_fuel (suc n) zero h = refl
xor-self_fuel (suc n) (suc a) h = omega (
  arith,
  xor-low (suc a) (suc a),
  differ_self (suc a % 2),
  xor-self_fuel n (suc a / 2) (omega arith),
)

pub xor_self : (a : ℕ) → bit_xor a a ≡ 0
xor_self a = xor-self_fuel a a (omega arith)

differ-zero : (x : ℕ) → differ x 0 ≡ x
differ-zero zero = refl
differ-zero (suc x) = refl

-- Below the lowest digit of a shifted operand nothing changes.
xor-even : (a b : ℕ) → bit_xor a (b * 2) ≡ bit_xor (a / 2) b * 2 + a % 2
xor-even a b =
    let e : b * 2 / 2 ≡ b = omega arith in
    let f : b * 2 % 2 ≡ 0 = omega arith in rw (xor-low a (b * 2), e, f, differ-zero (a % 2))

pub xor-byte : (a b : ℕ) → bit_xor a (b * 256) ≡ bit_xor (a / 256) b * 256 + a % 256
xor-byte a b =
    let e : b * 256 ≡ b * 2 * 2 * 2 * 2 * 2 * 2 * 2 * 2 = omega arith in
    let f : a / 2 / 2 / 2 / 2 / 2 / 2 / 2 / 2 ≡ a / 256 = omega arith in
    rw e (
      omega (
        arith,
        xor-even a (b * 2 * 2 * 2 * 2 * 2 * 2 * 2),
        xor-even (a / 2) (b * 2 * 2 * 2 * 2 * 2 * 2),
        xor-even (a / 2 / 2) (b * 2 * 2 * 2 * 2 * 2),
        xor-even (a / 2 / 2 / 2) (b * 2 * 2 * 2 * 2),
        xor-even (a / 2 / 2 / 2 / 2) (b * 2 * 2 * 2),
        xor-even (a / 2 / 2 / 2 / 2 / 2) (b * 2 * 2),
        xor-even (a / 2 / 2 / 2 / 2 / 2 / 2) (b * 2),
        xor-even (a / 2 / 2 / 2 / 2 / 2 / 2 / 2) b,
        ap (λ t. bit_xor t b) f,
      ))
