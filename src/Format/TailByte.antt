-- ===== src/Format/TailByte.antt =====
-- emcyphal/src/format.rs, `TailByte`: the last byte of each frame.
pub mod Laws
use emcyphal.Common.{ℕ, ◌*◌, ◌/◌, ◌%◌, ◌^◌, bit_and, bit_or, Bool, true, false, not, ◌==◌}
use emcyphal.Core.Ids.TransferId.{TransferId, from_u8_truncating}

-- The `u8` in the tuple struct.
abbrev pub TailByte : Type 0
TailByte = ℕ

abbrev pub to_u8 : Bool → ℕ
to_u8 true = 1
to_u8 false = 0

abbrev pub shl_u8 : ℕ → ℕ → ℕ
shl_u8 x k = x * 2 ^ k % 256

unfoldable pub new : Bool → Bool → Bool → TransferId → TailByte
new sot eof toggle transfer_id =
    bit_or (bit_or (bit_or (shl_u8 (to_u8 sot) 7) (shl_u8 (to_u8 eof) 6)) (shl_u8 (to_u8 toggle) 5))
      (shl_u8 transfer_id 0)

unfoldable pub sot : TailByte → Bool
sot t = not (bit_and (t / 2 ^ 7) 0x1 == 0)

unfoldable pub eot : TailByte → Bool
eot t = not (bit_and (t / 2 ^ 6) 0x1 == 0)

unfoldable pub toggle : TailByte → Bool
toggle t = not (bit_and (t / 2 ^ 5) 0x1 == 0)

unfoldable pub transfer_id : TailByte → TransferId
transfer_id t = from_u8_truncating (t / 2 ^ 0)
