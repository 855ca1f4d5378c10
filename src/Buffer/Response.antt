-- ===== src/Buffer/Response.antt =====
-- emcyphal/src/buffer/tx_resp/blocking.rs: a buffer of one response for each priority. The conventions
-- are those of the buffers for messages.
pub mod Slots
pub mod Laws
pub mod Ready
use emcyphal.Common.{ℕ, List, Bool, true, false, not, Option, none, some, get_elem?, if◌then◌else◌}
use emcyphal.Core.Priority.{Priority}
use emcyphal.Core.PrioritySet
use emcyphal.Core.PrioritySet.{PrioritySet, new_eq, contains, intersection, complement}
use emcyphal.Core.Ids.NodeId.{NodeId}
use emcyphal.Core.Ids.ServiceId.{ServiceId}
use emcyphal.External.{Platform}
use emcyphal.Format.Crc.{TransferCrc}
use emcyphal.Frame.{Frame, Header, Data, response}
use emcyphal.Frame.Mtu.{Mtu}
use emcyphal.Scatter
use emcyphal.Scatter.{Scatter, is_exhausted, fetch_frame_data}
use emcyphal.Utils.PriorityMap
use emcyphal.Utils.PriorityMap.{PriorityMap}
use emcyphal.Utils.PriorityTrigger
use emcyphal.Utils.PriorityTrigger.{PriorityTrigger}
use emcyphal.Buffer.Types.{
  BufferError, service_address_not_specified, priority_not_ready, scratchpad_not_initialized,
  TransferMeta, Poll, ready, pending, Pushed, ok, err, range, is_none,
}

abbrev pub buffer_count : ℕ
buffer_count = 8

module _ (p : Platform) where
  pub record TransferEntry : Type 0 where
    pub address : NodeId
    pub scatter : Scatter
    pub deadline : p.clock.Instant
    pub loop_back : Bool
    pub buffer_idx : ℕ

  pub record Inner : Type 0 where
    pub service : ServiceId
    pub buffers : List (List ℕ)
    pub scratchpad_buffer_idx : Option ℕ
    pub free_buffer_idx : p.vecs.Vec buffer_count
    pub transfers : PriorityMap TransferEntry
    pub non_full_trigger : PriorityTrigger p.wakers
    pub empty_trigger : p.wakers.Registration

module _ (p : Platform) where
  open p use {clock.{Instant}, wakers, vecs}

  unfoldable pub new : ServiceId → List (List ℕ) → Option (Inner p)
  new service buffers = elim (vecs.collect buffer_count (range 0 buffer_count)) [
    | none ↦ none
    | some free ↦ some (record {
      service = service;
      buffers = buffers;
      scratchpad_buffer_idx = none;
      free_buffer_idx = free;
      transfers = PriorityMap.new;
      non_full_trigger = PriorityTrigger.new wakers;
      empty_trigger = wakers.new;
    })
  ]

  abbrev pub pop_readiness : Inner p → PrioritySet
  pop_readiness s = PriorityMap.keys s.transfers

  -- The end of a transfer gives its buffer back and wakes who waits for its priority.
  pub release : Inner p → Priority → TransferEntry p → Option (Inner p)
  release s priority entry =
      if is_exhausted entry.scatter
      then elim (vecs.push buffer_count s.free_buffer_idx entry.buffer_idx) [
        | none ↦ none
        | some free ↦ some (record s {
          free_buffer_idx = free;
          transfers = (PriorityMap.remove s.transfers priority).0;
          non_full_trigger = PriorityTrigger.wake wakers s.non_full_trigger (new_eq priority);
        })
      ]
      else some (record s { transfers = PriorityMap.assign s.transfers priority entry })

  abbrev pub wake_if_empty : Inner p → Inner p
  wake_if_empty s =
      if PriorityMap.is_empty s.transfers
      then record s { empty_trigger = wakers.wake s.empty_trigger }
      else s

  abbrev pub frame_from : Inner p → Priority → TransferEntry p → Data → Frame Instant
  frame_from s priority entry bytes = record {
    header = record {
      priority = priority;
      data_spec = response s.service;
      source = none;
      destination = some entry.address;
    };
    content = bytes;
    timestamp = entry.deadline;
    loop_back = entry.loop_back;
  }

  -- A frame of the transfer of one priority; `transfers[priority]` panics on a missing key.
  pub pop_at : Inner p → Priority → Mtu → Option (Inner p × Option (Frame Instant))
  unfolding release
  pop_at s priority mtu = elim (PriorityMap.index s.transfers priority) [
    | none ↦ none
    | some entry ↦ elim (get_elem? s.buffers entry.buffer_idx) [
      | none ↦ none
      | some buffer ↦ elim (fetch_frame_data entry.scatter buffer mtu) [
        | none ↦ none
        | some (scatter, none) ↦ none
        | some (scatter, some bytes) ↦
            elim (release s priority (record entry { scatter = scatter })) [
              | none ↦ none
              | some s' ↦ some (wake_if_empty s', some (frame_from s priority entry bytes))
            ]
      ]
    ]
  ]

  pub try_pop : Inner p → PrioritySet → Mtu → Option (Inner p × Option (Frame Instant))
  unfolding pop_at
  try_pop s mask mtu = elim (PrioritySet.first (intersection (PriorityMap.keys s.transfers) mask)) [
    | none ↦ some (s, none)
    | some priority ↦ pop_at s priority mtu
  ]

  abbrev pub is_empty : Inner p → Bool
  is_empty s = PriorityMap.is_empty s.transfers

  unfoldable pub poll_is_empty : Inner p → wakers.Waker → Inner p × Poll (Unit {0})
  poll_is_empty s waker =
      if is_empty s
      then (s, ready tt)
      else (record s { empty_trigger = wakers.register s.empty_trigger waker }, pending)

  abbrev pub push_readiness : Inner p → PrioritySet
  push_readiness s = complement (PriorityMap.keys s.transfers)

  unfoldable pub poll_push_readiness :
      Inner p → wakers.Waker → PrioritySet → Inner p × Poll PrioritySet
  poll_push_readiness s waker mask =
      let priorities = intersection (push_readiness s) mask in
      if not (PrioritySet.is_empty priorities) then (s, ready priorities) else (
        record s {
          non_full_trigger = PriorityTrigger.register wakers s.non_full_trigger waker mask;
        },
        pending,
      )

  -- `some (s, none)` is the source's `None`; the buffer is named by its index.
  pub get_scratchpad : Inner p → Option (Inner p × Option (PrioritySet × ℕ))
  get_scratchpad s =
      if PrioritySet.is_empty (push_readiness s)
      then some (s, none)
      else elim s.scratchpad_buffer_idx [
        | some idx ↦ some (s, some (push_readiness s, idx))
        | none ↦ elim (vecs.pop buffer_count s.free_buffer_idx) [
          | none ↦ none
          | some (idx, free) ↦ some (
            record s { scratchpad_buffer_idx = some idx; free_buffer_idx = free },
            some (push_readiness s, idx),
          )
        ]
      ]

  -- `assert!(prev.is_none())` on the value that the new one replaces.
  abbrev pub enqueue : Inner p → Priority → TransferEntry p → Option (Inner p × Pushed)
  enqueue s priority entry =
      let (transfers, prev) = PriorityMap.insert s.transfers priority entry in
      if is_none prev then some (record s { transfers = transfers }, ok) else none

  pub try_push : Inner p → TransferMeta Instant → ℕ → TransferCrc → Option (Inner p × Pushed)
  try_push s meta length crc = elim meta.address [
    | none ↦ some (s, err service_address_not_specified)
    | some address ↦
        if not (contains (push_readiness s) meta.priority)
        then some (s, err priority_not_ready)
        else elim s.scratchpad_buffer_idx [
          | none ↦ some (s, err scratchpad_not_initialized)
          | some idx ↦ elim (get_elem? s.buffers idx) [
            | none ↦ none
            | some buffer ↦
                enqueue (record s { scratchpad_buffer_idx = none }) meta.priority
                  (record {
                    address = address;
                    scatter = Scatter.new meta.transfer_id length crc;
                    deadline = meta.timestamp;
                    buffer_idx = idx;
                    loop_back = meta.loop_back;
                  })
          ]
        ]
  ]
