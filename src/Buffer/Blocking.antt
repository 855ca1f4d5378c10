-- ===== src/Buffer/Blocking.antt =====
-- emcyphal/src/buffer/tx_msg/blocking.rs: a buffer of one message, which takes no other until all
-- frames are fetched. The conventions are those of the sibling for signals: `none` around a result is
-- a panic, and `buffer` is the array behind `buffer_ptr`, the slice that `get_scratchpad` hands out.
pub mod Laws
pub mod Ready
use emcyphal.Common.{ℕ, List, Bool, true, false, not, Option, none, some, ◌==◌, if◌then◌else◌}
use emcyphal.Core.Priority.{Priority}
use emcyphal.Core.PrioritySet.{PrioritySet, none_set, new_eq, contains, is_empty, intersection}
use emcyphal.Core.Ids.SubjectId.{SubjectId}
use emcyphal.External.{Platform}
use emcyphal.Format.Crc.{TransferCrc}
use emcyphal.Frame.{Frame, Header, Data, message}
use emcyphal.Frame.Mtu.{Mtu}
use emcyphal.Scatter
use emcyphal.Scatter.{Scatter, is_exhausted, fetch_frame_data}
use emcyphal.Buffer.Types.{
  BufferError, message_address_specified, priority_not_ready, scratchpad_not_initialized,
  TransferMeta, Poll, ready, pending, Pushed, ok, err, is_none,
}

module _ (p : Platform) where
  pub record TransferEntry : Type 0 where
    pub scatter : Scatter
    pub deadline : p.clock.Instant
    pub loop_back : Bool

  pub record Inner : Type 0 where
    pub subject : SubjectId
    pub priority : Priority
    pub buffer : List ℕ
    pub pending_transfer : Option TransferEntry
    pub scratchpad_provided : Bool
    pub non_full_trigger : p.wakers.Registration
    pub empty_trigger : p.wakers.Registration

module _ (p : Platform) where
  open p use {clock.{Instant}, wakers.{Waker, register, wake}}

  abbrev pub new : SubjectId → Priority → List ℕ → Inner p
  new subject priority buffer = record {
    subject = subject;
    priority = priority;
    buffer = buffer;
    pending_transfer = none;
    scratchpad_provided = false;
    non_full_trigger = p.wakers.new;
    empty_trigger = p.wakers.new;
  }

  unfoldable pub pop_readiness : Inner p → PrioritySet
  pop_readiness s = if not (is_none s.pending_transfer) then new_eq s.priority else none_set

  -- The end of the transfer frees the buffer and wakes both kinds of waiters.
  abbrev pub release : Inner p → TransferEntry p → Inner p
  release s entry =
      if is_exhausted entry.scatter
      then record s {
        pending_transfer = none;
        non_full_trigger = wake s.non_full_trigger;
        empty_trigger = wake s.empty_trigger;
      }
      else record s { pending_transfer = some entry }

  abbrev pub frame_from : Inner p → TransferEntry p → Data → Frame Instant
  frame_from s entry bytes = record {
    header = record {
      priority = s.priority;
      data_spec = message s.subject;
      source = none;
      destination = none;
    };
    content = bytes;
    timestamp = entry.deadline;
    loop_back = entry.loop_back;
  }

  pub try_pop : Inner p → PrioritySet → Mtu → Option (Inner p × Option (Frame Instant))
  unfolding pop_readiness
  try_pop s mask mtu =
      if is_empty (intersection (pop_readiness s) mask)
      then some (s, none)
      else elim s.pending_transfer [
        | none ↦ none
        | some entry ↦ elim (fetch_frame_data entry.scatter s.buffer mtu) [
          | none ↦ none
          | some (scatter, none) ↦ none
          | some (scatter, some bytes) ↦
              some (release s (record entry { scatter = scatter }), some (frame_from s entry bytes))
        ]
      ]

  abbrev pub empty : Inner p → Bool
  empty s = is_none s.pending_transfer

  unfoldable pub poll_is_empty : Inner p → Waker → Inner p × Poll (Unit {0})
  poll_is_empty s waker =
      if empty s
      then (s, ready tt)
      else (record s { empty_trigger = register s.empty_trigger waker }, pending)

  unfoldable pub push_readiness : Inner p → PrioritySet
  push_readiness s = if is_none s.pending_transfer then new_eq s.priority else none_set

  unfoldable pub poll_push_readiness : Inner p → Waker → PrioritySet → Inner p × Poll PrioritySet
  poll_push_readiness s waker mask =
      if contains mask s.priority
      then (if is_none s.pending_transfer
          then (s, ready (new_eq s.priority))
          else (record s { non_full_trigger = register s.non_full_trigger waker }, pending))
      else (s, pending)

  -- `some none` is the source's `None`; the assertion that no transfer is pending fails on `none`.
  pub get_scratchpad : Inner p → Option (Inner p × Option PrioritySet)
  unfolding push_readiness
  get_scratchpad s =
      if is_empty (push_readiness s)
      then some (s, none)
      else if is_none s.pending_transfer
      then some (record s { scratchpad_provided = true }, some (push_readiness s))
      else none

  pub try_push : Inner p → TransferMeta Instant → ℕ → TransferCrc → Option (Inner p × Pushed)
  unfolding push_readiness
  try_push s meta length crc =
      if not (is_none meta.address)
      then some (s, err message_address_specified)
      else if not (contains (push_readiness s) meta.priority)
      then some (s, err priority_not_ready)
      else if not s.scratchpad_provided
      then some (s, err scratchpad_not_initialized)
      else if is_none s.pending_transfer
      then some (
        record s {
          scratchpad_provided = false;
          pending_transfer = some (record {
            scatter = Scatter.new meta.transfer_id length crc;
            deadline = meta.timestamp;
            loop_back = meta.loop_back;
          });
        },
        ok,
      )
      else none
