-- ===== src/Format.antt =====
-- emcyphal/src/format.rs: the transfer CRC and the tail byte.
pub mod Crc
pub mod TailByte
use emcyphal.Common.{ℕ, Option, none, some, Bool, true, split_last}
use emcyphal.Frame.{Frame, deref}

abbrev pub sot_toggle_bit : Bool
sot_toggle_bit = true

abbrev pub pad_value : ℕ
pad_value = 0

-- `none` is a frame without data.
abbrev pub is_eot_frame : {I : Type 0} → Frame I → Option Bool
is_eot_frame frame = elim (split_last (deref frame.content)) [
  | none ↦ none
  | some (byte, init) ↦ some (TailByte.eot byte)
]
