-- ===== src/CanId.antt =====
-- emcyphal-stm32-native/src/format.rs: the fields of the 29-bit CAN identifier, and the filter
-- patterns of a port. The driver for embassy lays identifiers out in the same way.
pub mod Message
pub mod Service
pub mod Header
pub mod Filters
use emcyphal.Common.{ℕ, ◌+◌, ◌-◌, ◌*◌, ◌/◌, ◌%◌, ◌^◌, bit_and, bit_or, ltb, if◌then◌else◌}

-- The operations on a `u32`.
abbrev pub not32 : ℕ → ℕ
not32 x = 0xffffffff - x

abbrev pub shl32 : ℕ → ℕ → ℕ
shl32 x n = x * 2 ^ n % 2 ^ 32

abbrev pub shr32 : ℕ → ℕ → ℕ
shr32 x n = x / 2 ^ n

abbrev pub lsb_mask : ℕ → ℕ
lsb_mask n = if ltb 0 n then shr32 0xffffffff (32 - n) else 0

abbrev pub can_id_mask : ℕ
can_id_mask = lsb_mask 29

abbrev pub node_id_mask : ℕ
node_id_mask = lsb_mask 7

abbrev pub subject_id_mask : ℕ
subject_id_mask = lsb_mask 13

abbrev pub service_id_mask : ℕ
service_id_mask = lsb_mask 9

abbrev pub priority_mask : ℕ
priority_mask = lsb_mask 3

abbrev pub priority_offset : ℕ
priority_offset = 26

abbrev pub source_offset : ℕ
source_offset = 0

abbrev pub msg_subject_offset : ℕ
msg_subject_offset = 8

abbrev pub srv_destination_offset : ℕ
srv_destination_offset = 7

abbrev pub srv_service_offset : ℕ
srv_service_offset = 14

abbrev pub service_flag : ℕ
service_flag = shl32 1 25

abbrev pub res_23_flag : ℕ
res_23_flag = shl32 1 23

abbrev pub msg_anonymous_flag : ℕ
msg_anonymous_flag = shl32 1 24

abbrev pub msg_res_7_flag : ℕ
msg_res_7_flag = shl32 1 7

abbrev pub srv_request_flag : ℕ
srv_request_flag = shl32 1 24

abbrev pub msg_check_mask : ℕ
msg_check_mask = bit_or (bit_or service_flag res_23_flag) msg_res_7_flag

abbrev pub msg_check_value : ℕ
msg_check_value = 0

abbrev pub msg_ignore_mask : ℕ
msg_ignore_mask =
    let checked = bit_and can_id_mask (not32 msg_check_mask) in
    let levels = bit_and checked (not32 (shl32 priority_mask priority_offset)) in
    let flags = bit_and levels (not32 msg_anonymous_flag) in
    let subjects = bit_and flags (not32 (shl32 subject_id_mask msg_subject_offset)) in
    bit_and subjects (not32 (shl32 node_id_mask source_offset))

abbrev pub srv_check_mask : ℕ
srv_check_mask = bit_or service_flag res_23_flag

abbrev pub srv_check_value : ℕ
srv_check_value = service_flag

abbrev pub srv_ignore_mask : ℕ
srv_ignore_mask =
    let checked = bit_and can_id_mask (not32 srv_check_mask) in
    let levels = bit_and checked (not32 (shl32 priority_mask priority_offset)) in
    let flags = bit_and levels (not32 srv_request_flag) in
    let services = bit_and flags (not32 (shl32 service_id_mask srv_service_offset)) in
    let nodes = bit_and services (not32 (shl32 node_id_mask srv_destination_offset)) in
    bit_and nodes (not32 (shl32 node_id_mask source_offset))
