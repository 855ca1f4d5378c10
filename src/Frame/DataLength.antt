-- ===== src/Frame/DataLength.antt =====
-- emcyphal-driver/src/frame.rs, `DataLength`: the lengths that a CAN FD frame can have.
pub mod Laws
use emcyphal.Common.{ℕ, ◌+◌, ◌*◌, ◌/◌, ◌%◌, Option, none, some, ltb, leb, ◌==◌, if◌then◌else◌}

-- The `u8` in the tuple struct.
abbrev pub DataLength : Type 0
DataLength = ℕ

abbrev pub max_length : ℕ
max_length = 64

-- The `match` on ranges, and the cast to a byte.
unfoldable pub new_floor : ℕ → DataLength
new_floor value =
    let floor =
      if ltb value 8
      then value
      else if ltb value 24
      then value / 4 * 4
      else if ltb value 32
      then value / 8 * 8
      else if ltb value 64
      then value / 16 * 16
      else 64 in
    floor % 256

abbrev pub div_ceil : ℕ → ℕ → ℕ
div_ceil value d = if value % d == 0 then value / d else value / d + 1

unfoldable pub new_ceil : ℕ → Option DataLength
new_ceil value =
    if leb value max_length
    then some (
        (if ltb value 8
          then value
          else if ltb value 24
          then div_ceil value 4 * 4
          else if ltb value 32
          then div_ceil value 8 * 8
          else div_ceil value 16 * 16)
        % 256)
    else none

unfoldable pub new : ℕ → Option DataLength
unfolding new_floor
new value = if new_floor value == value then some (new_floor value) else none
