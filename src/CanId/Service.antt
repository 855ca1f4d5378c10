-- ===== src/CanId/Service.antt =====
-- emcyphal-stm32-native/src/format.rs, `ServiceCanId` and the filter patterns of a node.
pub mod Laws
use emcyphal.Common.{
  ℕ, ◌+◌, ◌-◌, ◌*◌, ◌/◌, ◌%◌, ◌^◌, bit_and, bit_or, Bool, not, Option, none, some, ◌==◌,
  if◌then◌else◌,
}
use emcyphal.Core.Priority.{Priority, into_u8}
use emcyphal.Core.Ids.ServiceId.{ServiceId}
use emcyphal.Core.Ids.NodeId.{NodeId}
use emcyphal.Core.Priority
use emcyphal.Core.Ids
use emcyphal.CanId.{
  not32, shl32, shr32, can_id_mask, node_id_mask, service_id_mask, priority_mask, priority_offset,
  source_offset, srv_destination_offset, srv_service_offset, srv_request_flag, srv_check_mask,
  srv_check_value, srv_ignore_mask,
}

-- The `u32` in the tuple struct.
abbrev pub ServiceCanId : Type 0
ServiceCanId = ℕ

abbrev pub new : ServiceCanId
new = bit_or srv_check_value srv_ignore_mask

unfoldable pub from_can_id : ℕ → Option ServiceCanId
from_can_id can_id =
    if bit_and can_id srv_check_mask == srv_check_value
    then some (bit_or (bit_and can_id can_id_mask) srv_ignore_mask)
    else none

unfoldable pub priority : ServiceCanId → Priority
priority id = Priority.from_u8_truncating (shr32 id priority_offset % 256)

unfoldable pub set_priority : ServiceCanId → Priority → ServiceCanId
set_priority id value =
    bit_or (bit_and id (not32 (shl32 priority_mask priority_offset)))
      (shl32 (into_u8 value) priority_offset)

unfoldable pub request : ServiceCanId → Bool
request id = not (bit_and id srv_request_flag == 0)

unfoldable pub set_request : ServiceCanId → Bool → ServiceCanId
set_request id value =
    if value then bit_or id srv_request_flag else bit_and id (not32 srv_request_flag)

unfoldable pub service : ServiceCanId → ServiceId
service id = Ids.ServiceId.from_u16_truncating (shr32 id srv_service_offset % 65536)

unfoldable pub set_service : ServiceCanId → ServiceId → ServiceCanId
set_service id value =
    bit_or (bit_and id (not32 (shl32 service_id_mask srv_service_offset)))
      (shl32 value srv_service_offset)

unfoldable pub destination : ServiceCanId → NodeId
destination id = Ids.NodeId.from_u8_truncating (shr32 id srv_destination_offset % 256)

unfoldable pub set_destination : ServiceCanId → NodeId → ServiceCanId
set_destination id value =
    bit_or (bit_and id (not32 (shl32 node_id_mask srv_destination_offset)))
      (shl32 value srv_destination_offset)

unfoldable pub source : ServiceCanId → NodeId
source id = Ids.NodeId.from_u8_truncating (shr32 id source_offset % 256)

unfoldable pub set_source : ServiceCanId → NodeId → ServiceCanId
set_source id value =
    bit_or (bit_and id (not32 (shl32 node_id_mask source_offset))) (shl32 value source_offset)

abbrev pub srv_filter_mask : ℕ
srv_filter_mask = bit_or srv_check_mask (shl32 node_id_mask srv_destination_offset)

unfoldable pub make_srv_filter_pattern : Option NodeId → ℕ
make_srv_filter_pattern none = bit_and (not32 srv_check_mask) can_id_mask
make_srv_filter_pattern (some node) = bit_or srv_check_value (shl32 node srv_destination_offset)

unfoldable pub decode_srv_filter_pattern : ℕ → Option NodeId
decode_srv_filter_pattern pattern =
    if bit_and pattern (not32 srv_filter_mask) == 0
    then some (Ids.NodeId.from_u8_truncating (shr32 pattern srv_destination_offset % 256))
    else none
