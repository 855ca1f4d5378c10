-- ===== src/Gather.antt =====
-- emcyphal/src/buffer/gather.rs: reassembly of a transfer from the frames of one session.
-- A method of `&mut self` returns the new state and the new contents of `buffer` beside its result;
-- `none` around these is a panic, where `unwrap!` meets `None`.
pub mod Store
pub mod Receive
pub mod First
use emcyphal.Common.{
  ℕ, ◌+◌, ◌-◌, ◌^◌, min, List, ◌++◌, Bool, true, false, not, ◌&&◌, Option, none, some, length, take,
  drop, split_last, ltb, leb, ◌==◌, if◌then◌else◌,
}
use emcyphal.Core.Priority.{Priority}
use emcyphal.Core.Ids.TransferId.{TransferId}
use emcyphal.Format.{sot_toggle_bit}
use emcyphal.Format.TailByte
use emcyphal.Format.Crc.{TransferCrc, init_value, add_bytes, crc_length}
use emcyphal.Frame.Mtu.{Mtu, try_from}
use emcyphal.Time.{Clock}

pub record Segment (I : Type 0) : Type 0 where
  pub transfer_id : TransferId
  pub priority : Priority
  pub payload : List ℕ
  pub timestamp : I

pub record Transfer (I : Type 0) : Type 0 where
  pub id : TransferId
  pub priority : Priority
  pub timestamp : I
  pub len : ℕ

pub data State : Type 0 where
  idle idle_last_transfer accumulated_first accumulated_odd accumulated_even assembled : State

pub record PayloadAccumulator : Type 0 where
  pub len : ℕ
  pub crc : TransferCrc

abbrev pub empty_acc : PayloadAccumulator
empty_acc = record { len = 0; crc = init_value }

-- A slice of `buffer` from `offset` on is overwritten by `bytes`.
abbrev pub write_at : List ℕ → ℕ → List ℕ → List ℕ
write_at buffer offset bytes = take offset buffer ++ (bytes ++ drop (offset + length bytes) buffer)

-- `PayloadAccumulator::append`; `none` is its `Err`, which changes nothing. The conversion of the
-- length to `u32` and the checked sum fail at 2^32; what does not fit the buffer is dropped.
pub append : PayloadAccumulator → List ℕ → List ℕ → Option (PayloadAccumulator × List ℕ)
append acc buffer segment =
    if ltb (length segment) (2 ^ 32) && ltb (acc.len + length segment) (2 ^ 32)
    then (let offset = min (length buffer) acc.len in
        let stored = min (length segment) (length buffer - offset) in
        some (
          record { len = acc.len + length segment; crc = add_bytes acc.crc segment },
          write_at buffer offset (take stored segment),
        ))
    else none

pub try_get : PayloadAccumulator → Option ℕ
try_get acc = if leb crc_length acc.len && acc.crc == 0 then some (acc.len - crc_length) else none

pub record Gather (I : Type 0) : Type 0 where
  pub state : State
  pub sof_timestamp : Option I
  pub transfer_id : Option TransferId
  pub acc : PayloadAccumulator

-- `Gather::default()`
abbrev pub new_gather : {I : Type 0} → Gather I
new_gather = record { state = idle; sof_timestamp = none; transfer_id = none; acc = empty_acc }

-- What a method leaves behind: the state, the buffer, and a transfer if it is complete.
abbrev pub Outcome : Type 0 → Type 0
Outcome I = Gather I × List ℕ × Option (Transfer I)

-- `none` outside is a panic.
pub last_transfer_timestamp : {I : Type 0} → Gather I → Option (Option I)
last_transfer_timestamp g = elim g.state [
  | idle ↦ some none
  | _ ↦ elim g.sof_timestamp [ none ↦ none | some t ↦ some (some t) ]
]

module _ {I : Type 0} where
  pub skip_frame : Gather I → List ℕ → Option (Outcome I)
  skip_frame g buffer = some (g, buffer, none)

  pub stop_assembly : Gather I → List ℕ → Option (Outcome I)
  stop_assembly g buffer = some (
    record {
      state = elim g.sof_timestamp [ none ↦ idle | some _ ↦ idle_last_transfer ];
      sof_timestamp = g.sof_timestamp;
      transfer_id = none;
      acc = empty_acc;
    },
    buffer,
    none,
  )

  -- The length of the transfer is a `u32`.
  pub single_frame_assembly : Gather I → List ℕ → Segment I → Option (Outcome I)
  single_frame_assembly g buffer segment =
      let stored = min (length segment.payload) (length buffer) in
      if ltb (length segment.payload) (2 ^ 32)
      then some (
        record {
          state = assembled;
          sof_timestamp = some segment.timestamp;
          transfer_id = some segment.transfer_id;
          acc = empty_acc;
        },
        write_at buffer 0 (take stored segment.payload),
        some (record {
          id = segment.transfer_id;
          priority = segment.priority;
          timestamp = segment.timestamp;
          len = length segment.payload;
        }),
      )
      else none

  -- The common end of the three methods that accumulate: append the payload, or stop.
  pub accumulate : Gather I → List ℕ → Segment I → Option (Outcome I)
  unfolding stop_assembly append
  accumulate g buffer segment = elim (append g.acc buffer segment.payload) [
    | none ↦ stop_assembly g buffer
    | some (acc, buffer') ↦ some (record g { acc = acc }, buffer', none)
  ]

  -- The payload and the tail byte make up a full frame of some MTU.
  unfoldable pub is_full : Segment I → Bool
  is_full segment = elim (try_from (length segment.payload + 1)) [ none ↦ false | some _ ↦ true ]

  pub accumulate_first : Gather I → List ℕ → Segment I → Option (Outcome I)
  unfolding stop_assembly accumulate
  accumulate_first g buffer segment =
      if not (is_full segment)
      then stop_assembly g buffer
      else accumulate
          (record {
            state = accumulated_first;
            sof_timestamp = some segment.timestamp;
            transfer_id = some segment.transfer_id;
            acc = empty_acc;
          })
          buffer segment

  pub accumulate_odd : Gather I → List ℕ → Segment I → Option (Outcome I)
  unfolding stop_assembly accumulate
  accumulate_odd g buffer segment =
      if not (is_full segment)
      then stop_assembly g buffer
      else accumulate (record g { state = accumulated_odd }) buffer segment

  pub accumulate_even : Gather I → List ℕ → Segment I → Option (Outcome I)
  unfolding stop_assembly accumulate
  accumulate_even g buffer segment =
      if not (is_full segment)
      then stop_assembly g buffer
      else accumulate (record g { state = accumulated_even }) buffer segment

  -- `unwrap!` of the two fields of a finished transfer.
  abbrev pub finished :
      Gather I → List ℕ → Priority → ℕ → Option TransferId → Option I → Option (Outcome I)
  finished g buffer priority n none t = none
  finished g buffer priority n (some id) none = none
  finished g buffer priority n (some id) (some t) = some (
    record g { state = assembled; acc = empty_acc },
    buffer,
    some (record { id = id; priority = priority; timestamp = t; len = n }),
  )

  pub finish_assembly : Gather I → List ℕ → Segment I → Option (Outcome I)
  unfolding stop_assembly append try_get
  finish_assembly g buffer segment =
      if length segment.payload == 0
      then stop_assembly g buffer
      else elim (append g.acc buffer segment.payload) [
        | none ↦ stop_assembly g buffer
        | some (acc, buffer') ↦ elim (try_get acc) [
          | none ↦ stop_assembly (record g { acc = acc }) buffer'
          | some n ↦ finished g buffer' segment.priority n g.transfer_id g.sof_timestamp
        ]
      ]

-- The method that a frame calls for.
pub data Action : Type 0 where
  skip stop single first odd even finish : Action

-- The `match` of `push_frame`, in its order: the state, SOT, EOT, the odd toggle, the id's match.
pub dispatch : State → Bool → Bool → Bool → Bool → Action
dispatch assembled _ _ _ true = skip
dispatch _ true _ true _ = stop
dispatch _ true true false _ = single
dispatch _ true false false _ = first
dispatch _ _ _ _ false = stop
dispatch idle _ _ _ _ = skip
dispatch idle_last_transfer _ _ _ _ = skip
dispatch accumulated_first false false false true = stop
dispatch accumulated_first false false true true = odd
dispatch accumulated_first false true false true = stop
dispatch accumulated_first false true true true = finish
dispatch accumulated_odd false false false true = even
dispatch accumulated_odd false false true true = skip
dispatch accumulated_odd false true false true = finish
dispatch accumulated_odd false true true true = stop
dispatch accumulated_even false false false true = skip
dispatch accumulated_even false false true true = odd
dispatch accumulated_even false true false true = stop
dispatch accumulated_even false true true true = finish

pub perform : {I : Type 0} → Action → Gather I → List ℕ → Segment I → Option (Outcome I)
unfolding skip_frame single_frame_assembly accumulate_first accumulate_odd accumulate_even
    finish_assembly
perform skip g buffer segment = skip_frame g buffer
perform stop g buffer segment = stop_assembly g buffer
perform single g buffer segment = single_frame_assembly g buffer segment
perform first g buffer segment = accumulate_first g buffer segment
perform odd g buffer segment = accumulate_odd g buffer segment
perform even g buffer segment = accumulate_even g buffer segment
perform finish g buffer segment = finish_assembly g buffer segment

abbrev pub xor_bool : Bool → Bool → Bool
xor_bool true b = not b
xor_bool false b = b

module _ (c : Clock) where
  open c use {Instant, Duration, saturating_add, le}

  -- The test of the id and, only where that holds, of the timeout; `none` is a panic.
  abbrev pub current :
      Duration → TransferId → Instant → Option TransferId → Option Instant → Option Bool
  current timeout id now none sof = none
  current timeout id now (some expected) none = if id == expected then none else some false
  current timeout id now (some expected) (some start) =
      some (id == expected && le now (saturating_add start timeout))

  unfoldable pub tid_match : Duration → TransferId → Instant → Gather Instant → Option Bool
  tid_match timeout id now g = elim g.state [
    | idle ↦ some false
    | idle_last_transfer ↦ some false
    | _ ↦ current timeout id now g.transfer_id g.sof_timestamp
  ]

  -- A frame whose payload and tail byte are taken apart.
  unfoldable pub push_decoded :
      Duration
      → List ℕ
      → Gather Instant
      → Priority
      → Bool
      → Bool
      → Bool
      → TransferId
      → List ℕ
      → Instant
      → Option (Outcome Instant)
  unfolding tid_match dispatch perform
  push_decoded timeout buffer g priority sot eot toggle id payload timestamp =
      elim (tid_match timeout id timestamp g) [
        | none ↦ none
        | some matches ↦
            perform (dispatch g.state sot eot (xor_bool toggle sot_toggle_bit) matches) g buffer
              (record {
                transfer_id = id;
                priority = priority;
                payload = payload;
                timestamp = timestamp;
              })
      ]

  -- A frame without data is skipped.
  unfoldable pub push_frame :
      Duration
      → List ℕ
      → Gather Instant
      → Priority
      → List ℕ
      → Instant
      → Mtu
      → Option (Outcome Instant)
  push_frame timeout buffer g priority frame timestamp mtu = elim (split_last frame) [
    | none ↦ some (g, buffer, none)
    | some (tail, payload) ↦
        push_decoded timeout buffer g priority (TailByte.sot tail) (TailByte.eot tail)
          (TailByte.toggle tail) (TailByte.transfer_id tail) payload timestamp
  ]
