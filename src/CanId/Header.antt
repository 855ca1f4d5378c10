-- ===== src/CanId/Header.antt =====
-- emcyphal-stm32-native/src/raw.rs: from a frame's header to its CAN identifier and back.
pub mod RoundTrip
use emcyphal.Common.{ℕ, Bool, not, true, false, Option, none, some, ◌==◌, if◌then◌else◌}
use emcyphal.Frame.{Header, DataSpecifier, message, request, response}
use emcyphal.CanId.Message
use emcyphal.CanId.Service

unfoldable pub load_msg_frame_header : ℕ → Option Header
load_msg_frame_header can_id = elim (Message.from_can_id can_id) [
  | none ↦ none
  | some id ↦ some (record {
    priority = Message.priority id;
    data_spec = message (Message.subject id);
    source = if not (Message.anonymous id) then some (Message.source id) else none;
    destination = none;
  })
]

unfoldable pub load_srv_frame_header : ℕ → Option Header
load_srv_frame_header can_id = elim (Service.from_can_id can_id) [
  | none ↦ none
  | some id ↦ some (record {
    priority = Service.priority id;
    data_spec =
        if Service.request id then request (Service.service id) else response (Service.service id);
    source = some (Service.source id);
    destination = some (Service.destination id);
  })
]

-- `none` is `InvalidFrameHeader`.
unfoldable pub make_can_id : Header → Option ℕ
make_can_id h = elim h.data_spec [
  | message subject ↦ elim h.destination [
    | some _ ↦ none
    | none ↦ elim h.source [
      | none ↦ none
      | some src ↦
          let a = Message.set_priority Message.new h.priority in
          let b = Message.set_anonymous a false in
          let c = Message.set_subject b subject in some (Message.set_source c src)
    ]
  ]
  | request service ↦ elim h.destination [
    | none ↦ none
    | some dst ↦ elim h.source [
      | none ↦ none
      | some src ↦
          let a = Service.set_priority Service.new h.priority in
          let b = Service.set_request a true in
          let c = Service.set_service b service in
          let d = Service.set_destination c dst in some (Service.set_source d src)
    ]
  ]
  | response service ↦ elim h.destination [
    | none ↦ none
    | some dst ↦ elim h.source [
      | none ↦ none
      | some src ↦
          let a = Service.set_priority Service.new h.priority in
          let b = Service.set_request a false in
          let c = Service.set_service b service in
          let d = Service.set_destination c dst in some (Service.set_source d src)
    ]
  ]
]
