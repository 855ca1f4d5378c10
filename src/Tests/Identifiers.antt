-- ===== src/Tests/Identifiers.antt =====
-- The theorems on CAN identifiers at inputs that meet their hypotheses.
use emcyphal.Common.{some_unique, ◌≡◌, ◌<◌, ◌↔◌, bit_and, refl, some, arith}
use emcyphal.Core.Priority.{high}
use emcyphal.Frame.{Header, request}
use emcyphal.CanId.Message
use emcyphal.CanId.Service
use emcyphal.CanId.Message.{msg_filter_mask, make_msg_filter_pattern, decode_msg_filter_pattern}
use emcyphal.CanId.Service.{srv_filter_mask, make_srv_filter_pattern}
use emcyphal.CanId.Header.{make_can_id}
use emcyphal.CanId.Header.RoundTrip.{Loads, load-make_can_id}
use emcyphal.CanId.Filters.{
  make_msg_filter_pattern_selects, make_srv_filter_pattern_selects, decode-make_msg_filter_pattern,
}

-- A request to node 42 for service 430, at priority `high`.
abbrev node_info : Header
node_info = record {
  priority = high;
  data_spec = request 430;
  source = some 7;
  destination = some 42;
}

load-make_can_id_example : (0x0f6b9507 < 536870912) × Loads (request 430) 0x0f6b9507 node_info
unfolding make_can_id Service.set_source Service.set_destination Service.set_service
    Service.set_request Service.set_priority
load-make_can_id_example =
    load-make_can_id node_info 0x0f6b9507 (omega arith, omega arith, omega arith) refl

make_msg_filter_pattern_selects_example :
    (bit_and 0x107d552a msg_filter_mask ≡ make_msg_filter_pattern (some 7509)) ↔ (
      (w : Message.MessageCanId) × (Message.from_can_id 0x107d552a ≡ some w)
      × (Message.subject w ≡ 7509))
make_msg_filter_pattern_selects_example =
    make_msg_filter_pattern_selects 0x107d552a 7509 (omega arith)

make_srv_filter_pattern_selects_example :
    (bit_and 0x0f6b9507 srv_filter_mask ≡ make_srv_filter_pattern (some 42)) ↔ (
      (w : Service.ServiceCanId) × (Service.from_can_id 0x0f6b9507 ≡ some w)
      × (Service.destination w ≡ 42))
make_srv_filter_pattern_selects_example =
    make_srv_filter_pattern_selects 0x0f6b9507 42 (omega arith)

decode-make_msg_filter_pattern_example :
    decode_msg_filter_pattern (make_msg_filter_pattern (some 7509)) ≡ some 7509
decode-make_msg_filter_pattern_example =
    decode-make_msg_filter_pattern (some 7509) (λ n e. omega (arith, some_unique e refl))
