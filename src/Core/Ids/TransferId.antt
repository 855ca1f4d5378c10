-- ===== src/Core/Ids/TransferId.antt =====
-- emcyphal-core/src/lib.rs, `TransferId`: a `u8` of at most 0x1f.
use emcyphal.Common.{ℕ, ◌+◌, bit_and, Option, none, some, leb, if◌then◌else◌}

abbrev pub TransferId : Type 0
TransferId = ℕ

abbrev pub max_value : ℕ
max_value = 0x1f

abbrev pub from_u8_truncating : ℕ → TransferId
from_u8_truncating value = bit_and value max_value

abbrev pub new : ℕ → Option TransferId
new value = if leb value max_value then some (from_u8_truncating value) else none

abbrev pub session_start : TransferId
session_start = 0

-- A `TransferId` is at most 31, so `+ 1` does not leave the byte.
abbrev pub next : TransferId → TransferId
next t = bit_and (t + 1) max_value
