-- ===== src/Core/Ids/NodeId.antt =====
-- emcyphal-core/src/lib.rs, `NodeId`: a `u8` of at most 0x7f.
use emcyphal.Common.{ℕ, bit_and, Option, none, some, leb, if◌then◌else◌}

abbrev pub NodeId : Type 0
NodeId = ℕ

abbrev pub max_value : ℕ
max_value = 0x7f

abbrev pub from_u8_truncating : ℕ → NodeId
from_u8_truncating value = bit_and value max_value

abbrev pub new : ℕ → Option NodeId
new value = if leb value max_value then some (from_u8_truncating value) else none
