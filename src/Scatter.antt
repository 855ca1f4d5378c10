-- ===== src/Scatter.antt =====
-- emcyphal/src/buffer/scatter.rs: a transfer cut into frames. A method of `&mut self` returns the
-- new state; one that fills `payload: &mut [u8]` takes that slice's length and returns the bytes
-- written. `none` around these is a panic: a failed `assert!` or `unwrap!`, an index out of range.
-- Sums of lengths are those of slices in memory and do not leave a `usize`.
pub mod Segments
pub mod Frames
pub mod Live
use emcyphal.Common.{
  ℕ, ◌+◌, ◌-◌, min, max, List, ◌∷◌, ◌++◌, Bool, true, not, ◌&&◌, Option, none, some, length, take,
  drop, replicate, leb, ◌==◌, if◌then◌else◌,
}
use emcyphal.Core.Ids.TransferId.{TransferId}
use emcyphal.Format.{sot_toggle_bit, pad_value}
use emcyphal.Format.TailByte
use emcyphal.Format.Crc.{TransferCrc, add_bytes, crc_length, to_be_bytes}
use emcyphal.Frame.{Data}
use emcyphal.Frame.DataLength.{new_ceil}
use emcyphal.Frame.Mtu.{Mtu, to_usize}

pub record Scatter : Type 0 where
  pub transfer_id : TransferId
  pub toggle_bit : Bool
  pub data_length : ℕ
  pub offset : ℕ
  pub crc : TransferCrc

abbrev pub tail_length : ℕ
tail_length = 1

abbrev pub new : TransferId → ℕ → TransferCrc → Scatter
new id n crc = record {
  transfer_id = id;
  toggle_bit = sot_toggle_bit;
  data_length = n;
  offset = 0;
  crc = crc;
}

pub is_exhausted : Scatter → Bool
is_exhausted s = s.offset == s.data_length + crc_length

-- `bytes[from..to]`, which panics unless `from <= to <= bytes.len()`.
unfoldable pub slice : List ℕ → ℕ → ℕ → Option (List ℕ)
slice bytes from to =
    if leb from to && leb to (length bytes) then some (drop from (take to bytes)) else none

-- The subtraction panics below 0, which no reachable state comes to.
unfoldable pub residual : Scatter → Option ℕ
residual s =
    if leb s.offset (s.data_length + crc_length)
    then some (s.data_length + crc_length - s.offset)
    else none

-- What a method leaves behind: the state and the `room` bytes that it filled.
abbrev pub Filled : Type 0
Filled = Scatter × List ℕ

pub fetch_single_segment : Scatter → List ℕ → ℕ → Option Filled
fetch_single_segment s buffer room = elim (slice buffer 0 s.data_length) [
  | none ↦ none
  | some bytes ↦
      if leb s.data_length room
      then some (
        record s { offset = s.data_length + crc_length },
        bytes ++ replicate (room - s.data_length) pad_value,
      )
      else none
]

-- As much of the data left as fits, then bytes of the CRC in the room after it.
pub fetch_full_segment : Scatter → List ℕ → ℕ → Option Filled
fetch_full_segment s buffer room =
    let crc_offset = max s.offset s.data_length - s.data_length in
    elim (residual s) [
      | none ↦ none
      | some left ↦ elim (slice buffer (min s.offset s.data_length) s.data_length) [
        | none ↦ none
        | some bytes ↦
            let count = min (length bytes) room in
            let crc_bytes = drop crc_offset (to_be_bytes s.crc) in
            if leb room left && leb (room - count) (length crc_bytes)
            then some (
              record s { offset = s.offset + room },
              take count bytes ++ take (room - count) crc_bytes,
            )
            else none
      ]
    ]

-- The rest of the data, padding, and the CRC of both at the end of the room.
pub fetch_padded_segment : Scatter → List ℕ → ℕ → Option Filled
fetch_padded_segment s buffer room = elim (slice buffer s.offset s.data_length) [
  | none ↦ none
  | some bytes ↦
      let pad = replicate (room - crc_length - length bytes) pad_value in
      if leb (crc_length + length bytes) room && leb s.offset s.data_length
      then some (
        record s { offset = s.offset + length bytes + crc_length },
        bytes ++ (pad ++ to_be_bytes (add_bytes s.crc pad)),
      )
      else none
]

-- The array of a frame of `frame_length` zeros once its payload and its tail byte are written.
abbrev pub frame_of : ℕ → List ℕ → ℕ → Data
frame_of frame_length payload tail = record {
  len = frame_length;
  bytes = payload ++ (tail ∷ drop frame_length (replicate 64 0));
}

abbrev pub Fetched : Type 0
Fetched = Scatter × Option Data

-- A frame of the length rounded up to a frame length, of which one byte is the tail.
unfoldable pub with_room : ℕ → (ℕ → Option Fetched) → Option Fetched
with_room n fill = elim (new_ceil (n + tail_length)) [
  | none ↦ none
  | some frame_length ↦
      if leb tail_length frame_length then fill (frame_length - tail_length) else none
]

pub fetch_single : Scatter → List ℕ → Option Fetched
unfolding with_room fetch_single_segment
fetch_single s buffer = with_room s.data_length λ room. elim (fetch_single_segment s buffer room) [
  | none ↦ none
  | some (s', payload) ↦ some (
    s',
    some (
        frame_of (room + tail_length) payload
          (TailByte.new true true sot_toggle_bit s.transfer_id)),
  )
]

-- The segment of a multi-frame transfer that starts at the offset.
pub fetch_segment : Scatter → List ℕ → ℕ → ℕ → Option Filled
unfolding fetch_full_segment fetch_padded_segment
fetch_segment s buffer left room =
    if leb room left
    then fetch_full_segment s buffer room
    else if leb s.offset s.data_length
    then fetch_padded_segment s buffer room
    else none

pub fetch_multi : Scatter → List ℕ → ℕ → ℕ → Option Fetched
unfolding with_room fetch_segment
fetch_multi s buffer left max_payload_length = with_room (min left max_payload_length) λ room.
    elim (fetch_segment s buffer left room) [
      | none ↦ none
      | some (s', payload) ↦ some (
        record s' { toggle_bit = not s'.toggle_bit },
        some (
            frame_of (room + tail_length) payload (
              TailByte.new (s.offset == 0) (s'.offset == s'.data_length + crc_length) s'.toggle_bit
                s'.transfer_id)),
      )
    ]

pub fetch_frame_data : Scatter → List ℕ → Mtu → Option Fetched
unfolding fetch_single fetch_multi
fetch_frame_data s buffer mtu =
    let max_payload_length = to_usize mtu - tail_length in
    if s.offset == 0 && leb s.data_length max_payload_length
    then fetch_single s buffer
    else elim (residual s) [
      | none ↦ none
      | some left ↦
          if left == 0 then some (s, none) else fetch_multi s buffer left max_payload_length
    ]
