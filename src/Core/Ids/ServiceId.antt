-- ===== src/Core/Ids/ServiceId.antt =====
-- emcyphal-core/src/lib.rs, `ServiceId`: a `u16` of at most 0x1ff.
use emcyphal.Common.{ℕ, bit_and, Option, none, some, leb, if◌then◌else◌}

abbrev pub ServiceId : Type 0
ServiceId = ℕ

abbrev pub max_value : ℕ
max_value = 0x1ff

abbrev pub from_u16_truncating : ℕ → ServiceId
from_u16_truncating value = bit_and value max_value

abbrev pub new : ℕ → Option ServiceId
new value = if leb value max_value then some (from_u16_truncating value) else none
