-- ===== src/Format/Crc/Laws.antt =====
-- emcyphal/src/format.rs: the residue of the transfer CRC.
use emcyphal.Common.{
  ℕ, zero, suc, ◌*◌, ◌/◌, ◌%◌, ◌^◌, ◌<◌, bit_xor, ◌≡◌, refl, Bool, true, List, [], ◌∷◌, ◌++◌, arith,
  ◌==◌, ==_iff, all_below, all_below_sound, xor-lt, xor_self, xor-byte,
}
use emcyphal.Format.Crc.{TransferCrc, add_bit, add_bits, add, add_bytes, to_be_bytes}

-- Every word of the message is a byte.
abbrev pub AreBytes : List ℕ → Type 0
AreBytes [] = Unit {0}
AreBytes (b ∷ bs) = (b < 256) × AreBytes bs

add_bit-lt : (c : TransferCrc) → add_bit c < 2 ^ 16
unfolding add_bit
add_bit-lt c = ground (arith, xor-lt 16 (c * 2 % 2 ^ 16) 0x1021 (omega arith) (omega arith))

add_bits-lt : (n : ℕ) (c : TransferCrc) → c < 2 ^ 16 → add_bits n c < 2 ^ 16
unfolding add_bits
add_bits-lt zero c h = h
add_bits-lt (suc n) c h = add_bits-lt n (add_bit c) (add_bit-lt c)

pub add-lt : (c : TransferCrc) (b : ℕ) → c < 2 ^ 16 → add c b < 2 ^ 16
unfolding add
add-lt c b h = add_bits-lt 8 _ (xor-lt 16 c (b * 2 ^ 8 % 2 ^ 16) h (omega arith))

pub add_bytes-lt : (c : TransferCrc) (bs : List ℕ) → c < 2 ^ 16 → add_bytes c bs < 2 ^ 16
add_bytes-lt c [] h = h
add_bytes-lt c (b ∷ bs) h = add_bytes-lt (add c b) bs (add-lt c b h)

pub add_bytes-append :
    (c : TransferCrc) (xs ys : List ℕ) → add_bytes c (xs ++ ys) ≡ add_bytes (add_bytes c xs) ys
add_bytes-append c [] ys = refl
add_bytes-append c (x ∷ xs) ys = add_bytes-append (add c x) xs ys

-- A word with an empty high byte is shifted, with no feedback.
shift_test : ℕ → Bool
shift_test x = add_bits 8 x == x * 256

shift_table : all_below 256 shift_test ≡ true
unfolding all_below shift_test add_bits add_bit
shift_table = refl

add_bits-byte : (x : ℕ) → x < 256 → add_bits 8 x ≡ x * 256
unfolding shift_test
add_bits-byte x h = (==_iff _ _).0 (all_below_sound 256 shift_test x shift_table h)

-- Adding the high byte of the register leaves the low byte in its place.
add-high : (c : TransferCrc) → c < 2 ^ 16 → add c (c / 256) ≡ c % 256 * 256
unfolding add
add-high c h =
    let e : c / 256 * 2 ^ 8 % 2 ^ 16 ≡ c / 256 * 256 = omega arith in
    let f : bit_xor c (c / 256 * 256) ≡ c % 256 =
      omega (arith, xor-byte c (c / 256), xor_self (c / 256)) in
    rw (e, f) (add_bits-byte (c % 256) (omega arith))

add-low : (x : ℕ) → x < 256 → add (x * 256) x ≡ 0
unfolding add add_bits add_bit
add-low x h = let e : x * 2 ^ 8 % 2 ^ 16 ≡ x * 256 = omega arith in rw (e, xor_self (x * 256))

-- Any 16-bit CRC register that takes in its own two bytes, the high one first, becomes 0.
pub residue : (c : TransferCrc) → c < 2 ^ 16 → add_bytes c (to_be_bytes c) ≡ 0
residue c h = rw (add-high c h) (add-low (c % 256) (omega arith))
