-- ===== src/Core/Ids/SubjectId.antt =====
-- emcyphal-core/src/lib.rs, `SubjectId`: a `u16` of at most 0x1fff.
use emcyphal.Common.{ℕ, bit_and, Option, none, some, leb, if◌then◌else◌}

abbrev pub SubjectId : Type 0
SubjectId = ℕ

abbrev pub max_value : ℕ
max_value = 0x1fff

abbrev pub from_u16_truncating : ℕ → SubjectId
from_u16_truncating value = bit_and value max_value

abbrev pub new : ℕ → Option SubjectId
new value = if leb value max_value then some (from_u16_truncating value) else none
