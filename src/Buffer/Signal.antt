-- ===== src/Buffer/Signal.antt =====
-- emcyphal/src/buffer/tx_msg/signal.rs: a buffer of one complete and one partly sent message.
-- A method of `&mut self` returns the new state beside its result; `none` around these is a panic,
-- or an index past the array of buffers, which the pointer arithmetic must not produce.
-- `buffers` is the array behind `buffers_ptr`; the slice that `get_scratchpad` hands out is named
-- by its index.
pub mod Slots
pub mod Laws
pub mod Ready
pub mod Reach
use emcyphal.Common.{
  ℕ, List, Bool, true, false, not, ◌&&◌, Option, none, some, get_elem?, if◌then◌else◌,
}
use emcyphal.Core.Priority.{Priority}
use emcyphal.Core.PrioritySet.{PrioritySet, none_set, new_eq, contains}
use emcyphal.Core.Ids.SubjectId.{SubjectId}
use emcyphal.External.{Platform}
use emcyphal.Format.Crc.{TransferCrc}
use emcyphal.Frame.{Frame, Data, message}
use emcyphal.Frame.Mtu.{Mtu}
use emcyphal.Scatter
use emcyphal.Scatter.{Scatter, is_exhausted, fetch_frame_data}
use emcyphal.Buffer.Types.{
  message_address_specified, priority_not_ready, scratchpad_not_initialized, TransferMeta, Poll,
  ready, pending, Pushed, ok, err, range, is_none,
}

abbrev pub buffer_count : ℕ
buffer_count = 2

module _ (p : Platform) where
  pub record TransferEntry : Type 0 where
    pub buffer_idx : ℕ
    pub scatter : Scatter
    pub timestamp : p.clock.Instant
    pub loop_back : Bool

  pub record Inner : Type 0 where
    pub subject : SubjectId
    pub buffers : List (List ℕ)
    pub priority : Priority
    pub pending_transfer : Option TransferEntry
    pub fragmented_transfer : Option TransferEntry
    pub scratchpad_buffer_idx : Option ℕ
    pub free_buffer_indexes : p.vecs.Vec buffer_count
    pub empty_waker : p.wakers.Registration

module _ (p : Platform) where
  open p use {clock.{Instant}, wakers.{Waker, register, wake}, vecs}

  unfoldable pub new : SubjectId → Priority → List (List ℕ) → Option (Inner p)
  new subject priority buffers = elim (vecs.collect buffer_count (range 0 buffer_count)) [
    | none ↦ none
    | some free ↦ some (record {
      subject = subject;
      buffers = buffers;
      priority = priority;
      pending_transfer = none;
      fragmented_transfer = none;
      scratchpad_buffer_idx = none;
      free_buffer_indexes = free;
      empty_waker = p.wakers.new;
    })
  ]

  abbrev pub is_empty : Inner p → Bool
  is_empty s = is_none s.fragmented_transfer && is_none s.pending_transfer

  unfoldable pub pop_readiness : Inner p → PrioritySet
  pop_readiness s = if not (is_empty s) then new_eq s.priority else none_set

  -- The transfer that is being sent: the fragmented one, else the pending one, which leaves its slot.
  abbrev pub promote : Inner p → Inner p
  promote s = elim s.fragmented_transfer [
    | none ↦ record s { fragmented_transfer = s.pending_transfer; pending_transfer = none }
    | some _ ↦ s
  ]

  -- The end of a transfer gives its buffer back.
  abbrev pub release : Inner p → TransferEntry p → Option (Inner p)
  release s entry =
      if is_exhausted entry.scatter
      then elim (vecs.push buffer_count s.free_buffer_indexes entry.buffer_idx) [
        | none ↦ none
        | some free ↦ some (record s { fragmented_transfer = none; free_buffer_indexes = free })
      ]
      else some (record s { fragmented_transfer = some entry })

  abbrev pub wake_if_empty : Inner p → Inner p
  wake_if_empty s = if is_empty s then record s { empty_waker = wake s.empty_waker } else s

  abbrev pub frame_from : Inner p → TransferEntry p → Data → Frame Instant
  frame_from s entry bytes = record {
    header = record {
      priority = s.priority;
      data_spec = message s.subject;
      source = none;
      destination = none;
    };
    content = bytes;
    timestamp = entry.timestamp;
    loop_back = entry.loop_back;
  }

  -- A frame of the transfer that is being sent.
  pub pop_entry : Inner p → TransferEntry p → Mtu → Option (Inner p × Option (Frame Instant))
  pop_entry s entry mtu = elim (get_elem? s.buffers entry.buffer_idx) [
    | none ↦ none
    | some buffer ↦ elim (fetch_frame_data entry.scatter buffer mtu) [
      | none ↦ none
      | some (scatter, none) ↦ none
      | some (scatter, some bytes) ↦ elim (release s (record entry { scatter = scatter })) [
        | none ↦ none
        | some s' ↦ some (wake_if_empty s', some (frame_from s entry bytes))
      ]
    ]
  ]

  pub try_pop : Inner p → PrioritySet → Mtu → Option (Inner p × Option (Frame Instant))
  unfolding pop_entry
  try_pop s mask mtu =
      if not (contains mask s.priority)
      then some (s, none)
      else elim (promote s).fragmented_transfer [
        | none ↦ some (promote s, none)
        | some entry ↦ pop_entry (promote s) entry mtu
      ]

  unfoldable pub poll_is_empty : Inner p → Waker → Inner p × Poll (Unit {0})
  poll_is_empty s waker =
      if is_empty s
      then (s, ready tt)
      else (record s { empty_waker = register s.empty_waker waker }, pending)

  abbrev pub push_readiness : Inner p → PrioritySet
  push_readiness s = new_eq s.priority

  unfoldable pub poll_push_readiness : Inner p → PrioritySet → Poll PrioritySet
  poll_push_readiness s mask =
      if contains mask s.priority then ready (new_eq s.priority) else pending

  -- A buffer for the scratchpad: a free one, else that of the pending transfer, which is dropped.
  unfoldable pub get_scratchpad : Inner p → Option (Inner p × PrioritySet × ℕ)
  get_scratchpad s = elim s.scratchpad_buffer_idx [
    | some idx ↦ some (s, new_eq s.priority, idx)
    | none ↦ elim (vecs.pop buffer_count s.free_buffer_indexes) [
      | some (idx, free) ↦ some (
        record s { scratchpad_buffer_idx = some idx; free_buffer_indexes = free },
        new_eq s.priority,
        idx,
      )
      | none ↦ elim s.pending_transfer [
        | none ↦ none
        | some entry ↦ some (
          record s { scratchpad_buffer_idx = some entry.buffer_idx; pending_transfer = none },
          new_eq s.priority,
          entry.buffer_idx,
        )
      ]
    ]
  ]

  -- The new transfer replaces the pending one, whose buffer is free again.
  pub replace_pending : Inner p → TransferEntry p → Option (Inner p × Pushed)
  replace_pending s entry = elim s.pending_transfer [
    | none ↦ some (record s { pending_transfer = some entry }, ok)
    | some prev ↦ elim (vecs.push buffer_count s.free_buffer_indexes prev.buffer_idx) [
      | none ↦ none
      | some free ↦
          some (record s { pending_transfer = some entry; free_buffer_indexes = free }, ok)
    ]
  ]

  pub try_push : Inner p → TransferMeta Instant → ℕ → TransferCrc → Option (Inner p × Pushed)
  unfolding replace_pending
  try_push s meta length crc =
      if not (is_none meta.address)
      then some (s, err message_address_specified)
      else if not (contains (push_readiness s) meta.priority)
      then some (s, err priority_not_ready)
      else elim s.scratchpad_buffer_idx [
        | none ↦ some (s, err scratchpad_not_initialized)
        | some idx ↦ elim (get_elem? s.buffers idx) [
          | none ↦ none
          | some buffer ↦
              replace_pending (record s { scratchpad_buffer_idx = none })
                (record {
                  buffer_idx = idx;
                  scatter = Scatter.new meta.transfer_id length crc;
                  timestamp = meta.timestamp;
                  loop_back = meta.loop_back;
                })
        ]
      ]
