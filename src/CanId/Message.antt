-- ===== src/CanId/Message.antt =====
-- emcyphal-stm32-native/src/format.rs, `MessageCanId` and the filter patterns of subjects.
pub mod Laws
use emcyphal.Common.{
  ℕ, ◌+◌, ◌-◌, ◌*◌, ◌/◌, ◌%◌, ◌^◌, bit_and, bit_or, Bool, not, Option, none, some, ◌==◌,
  if◌then◌else◌,
}
use emcyphal.Core.Priority.{Priority, into_u8}
use emcyphal.Core.Ids.SubjectId.{SubjectId}
use emcyphal.Core.Ids.NodeId.{NodeId}
use emcyphal.Core.Priority
use emcyphal.Core.Ids
use emcyphal.CanId.{
  not32, shl32, shr32, can_id_mask, node_id_mask, subject_id_mask, priority_mask, priority_offset,
  source_offset, msg_subject_offset, msg_anonymous_flag, msg_check_mask, msg_check_value,
  msg_ignore_mask,
}

-- The `u32` in the tuple struct.
abbrev pub MessageCanId : Type 0
MessageCanId = ℕ

abbrev pub new : MessageCanId
new = bit_or msg_check_value msg_ignore_mask

unfoldable pub from_can_id : ℕ → Option MessageCanId
from_can_id can_id =
    if bit_and can_id msg_check_mask == msg_check_value
    then some (bit_or (bit_and can_id can_id_mask) msg_ignore_mask)
    else none

unfoldable pub priority : MessageCanId → Priority
priority id = Priority.from_u8_truncating (shr32 id priority_offset % 256)

unfoldable pub set_priority : MessageCanId → Priority → MessageCanId
set_priority id value =
    bit_or (bit_and id (not32 (shl32 priority_mask priority_offset)))
      (shl32 (into_u8 value) priority_offset)

unfoldable pub anonymous : MessageCanId → Bool
anonymous id = not (bit_and id msg_anonymous_flag == 0)

unfoldable pub set_anonymous : MessageCanId → Bool → MessageCanId
set_anonymous id value =
    if value then bit_or id msg_anonymous_flag else bit_and id (not32 msg_anonymous_flag)

unfoldable pub subject : MessageCanId → SubjectId
subject id = Ids.SubjectId.from_u16_truncating (shr32 id msg_subject_offset % 65536)

unfoldable pub set_subject : MessageCanId → SubjectId → MessageCanId
set_subject id value =
    bit_or (bit_and id (not32 (shl32 subject_id_mask msg_subject_offset)))
      (shl32 value msg_subject_offset)

unfoldable pub source : MessageCanId → NodeId
source id = Ids.NodeId.from_u8_truncating (shr32 id source_offset % 256)

unfoldable pub set_source : MessageCanId → NodeId → MessageCanId
set_source id value =
    bit_or (bit_and id (not32 (shl32 node_id_mask source_offset))) (shl32 value source_offset)

abbrev pub msg_filter_mask : ℕ
msg_filter_mask = bit_or msg_check_mask (shl32 subject_id_mask msg_subject_offset)

unfoldable pub make_msg_filter_pattern : Option SubjectId → ℕ
make_msg_filter_pattern none = bit_and (not32 msg_filter_mask) can_id_mask
make_msg_filter_pattern (some subject) = bit_or msg_check_value (shl32 subject msg_subject_offset)

unfoldable pub decode_msg_filter_pattern : ℕ → Option SubjectId
decode_msg_filter_pattern pattern =
    if bit_and pattern (not32 msg_filter_mask) == 0
    then some (Ids.SubjectId.from_u16_truncating (shr32 pattern msg_subject_offset % 65536))
    else none
