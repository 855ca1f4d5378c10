-- ===== src/Format/Crc.antt =====
-- emcyphal/src/format.rs, `TransferCrc`: CRC-16/CCITT-FALSE, a byte at a time.
pub mod Laws
use emcyphal.Common.{
  ℕ, zero, suc, ◌*◌, ◌/◌, ◌%◌, ◌^◌, bit_and, bit_xor, List, [], ◌∷◌, ◌==◌, if◌then◌else◌,
}

-- The `u16` in the tuple struct.
abbrev pub TransferCrc : Type 0
TransferCrc = ℕ

-- The `LENGTH` of the type, in bytes.
abbrev pub crc_length : ℕ
crc_length = 2

abbrev pub init_value : TransferCrc
init_value = 0xffff

abbrev pub polynomial : ℕ
polynomial = 0x1021

-- One turn of the loop over bits; `<< 1` drops what leaves the word.
pub add_bit : TransferCrc → TransferCrc
add_bit crc =
    if bit_and crc 0x8000 == 0 then crc * 2 % 2 ^ 16 else bit_xor (crc * 2 % 2 ^ 16) polynomial

pub add_bits : ℕ → TransferCrc → TransferCrc
unfolding add_bit
add_bits zero crc = crc
add_bits (suc n) crc = add_bits n (add_bit crc)

unfoldable pub add : TransferCrc → ℕ → TransferCrc
unfolding add_bits
add crc byte = add_bits 8 (bit_xor crc (byte * 2 ^ 8 % 2 ^ 16))

abbrev pub add_bytes : TransferCrc → List ℕ → TransferCrc
add_bytes crc [] = crc
add_bytes crc (byte ∷ bytes) = add_bytes (add crc byte) bytes

-- `get().to_be_bytes()`
abbrev pub to_be_bytes : TransferCrc → List ℕ
to_be_bytes crc = (crc / 256) ∷ (crc % 256) ∷ []
