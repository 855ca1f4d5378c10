-- ===== src/Buffer/RxPriorityFifo.antt =====
-- emcyphal/src/buffer/rx_priority_fifo.rs: the buffer of a receiver, which puts the frames of each
-- sender together and queues the transfers for the reader. `none` around a result is a panic, or an
-- access outside the allocation of `buffers`.
pub mod Transfers
pub mod Stock
pub mod Grant
pub mod Ledger
pub mod Read
pub mod Lent
pub mod Accept
pub mod Start
pub mod NoSessions
use emcyphal.Common.{
  ℕ, ◌+◌, min, List, Bool, true, false, not, ◌&&◌, Option, none, some, length, take, set, get_elem?,
  split_last, ltb, leb, ◌==◌, bool_eq, if◌then◌else◌,
}
use emcyphal.Core.Priority.{Priority}
use emcyphal.Core.PrioritySet
use emcyphal.Core.PrioritySet.{PrioritySet, new_eq, intersection}
use emcyphal.Core.Ids.NodeId
use emcyphal.Core.Ids.NodeId.{NodeId}
use emcyphal.External.{Platform}
use emcyphal.Format.{sot_toggle_bit}
use emcyphal.Format.TailByte
use emcyphal.Frame.{Frame, DataSpecifier, eq_spec, deref}
use emcyphal.Frame.Mtu.{Mtu}
use emcyphal.Gather
use emcyphal.Gather.{Gather, Transfer, new_gather, last_transfer_timestamp, write_at}
use emcyphal.Utils.IndexQueue
use emcyphal.Utils.IndexQueue.{IndexQueue, Inserted, ok, err}
use emcyphal.Utils.MultiClassQueue.{◌>>=◌}
use emcyphal.Utils.PriorityQueue.{Pushed, accepted, rejected}
use emcyphal.Utils.PriorityTrigger
use emcyphal.Utils.PriorityTrigger.{PriorityTrigger}
use emcyphal.Buffer.Types.{TransferMeta, Poll, ready, pending, is_none}
use emcyphal.Buffer.RxPriorityFifo.Transfers
use emcyphal.Buffer.RxPriorityFifo.Transfers.{TransferEntry, TransferQueue}

pub record Session (I : Type 0) : Type 0 where
  pub gather : Gather I
  pub buffer_idx : ℕ

-- `buffers` is the memory behind `buffers_ptr`.
pub record Inner (p : Platform) (sn tn : ℕ) : Type 0 where
  pub data_specifier : DataSpecifier
  pub buffers : List (List ℕ)
  pub sessions : IndexQueue (Session p.clock.Instant) NodeId.max_value sn
  pub session_buffer_base : ℕ
  pub transfers : TransferQueue p.clock.Instant p.vecs tn
  pub readout_buffer_idx : ℕ
  pub timeout : p.clock.Duration
  pub priority_trigger : PriorityTrigger p.wakers

module _ (p : Platform) (sn tn : ℕ) where
  open p use {clock.{Instant, Duration, saturating_add, le, eq}, clock, wakers, vecs}

  -- The conversions of `SN` and of `SN + TN` to `u8` fail past 255.
  unfoldable pub new : DataSpecifier → Duration → List (List ℕ) → Option (Inner p sn tn)
  new data_specifier timeout buffers =
      if length buffers == sn + tn + 1 && (ltb sn 256 && ltb (sn + tn) 256)
      then (do
        sessions ← IndexQueue.new
        made ← Transfers.new sn
        transfers ← made
        some (record {
          data_specifier = data_specifier;
          buffers = buffers;
          sessions = sessions;
          session_buffer_base = 0;
          transfers = transfers;
          readout_buffer_idx = sn + tn;
          timeout = timeout;
          priority_trigger = PriorityTrigger.new wakers;
        }))
      else none

  -- The base stays below `SN`, a byte.
  abbrev pub allocate_session_buffer : Inner p sn tn → Inner p sn tn × Option ℕ
  allocate_session_buffer s =
      if ltb s.session_buffer_base sn
      then (
        record s { session_buffer_base = s.session_buffer_base + 1 },
        some s.session_buffer_base,
      )
      else (s, none)

  -- `is_none_or(|ts| ts.saturating_add(self.timeout) < timestamp)`
  abbrev pub is_expired : Duration → Option Instant → Instant → Bool
  is_expired timeout none timestamp = true
  is_expired timeout (some ts) timestamp =
      let limit = saturating_add ts timeout in le limit timestamp && not (eq limit timestamp)

  -- The session that is the first in the queue gives its buffer up if it has expired.
  unfoldable pub expire_oldest : Inner p sn tn → Instant → Option (Inner p sn tn × Option ℕ)
  expire_oldest s timestamp = do
    first ← IndexQueue.front s.sessions
    oldest_source ← first
    found ← IndexQueue.get s.sessions oldest_source
    oldest_session ← found
    last ← last_transfer_timestamp oldest_session.gather
    if is_expired s.timeout last timestamp
        then (do
          removed ← IndexQueue.remove s.sessions oldest_source
          session ← removed.1
          some (record s { sessions = removed.0 }, some session.buffer_idx))
        else some (s, none)

  unfoldable pub start_session : Inner p sn tn → NodeId → ℕ → Option (Inner p sn tn)
  start_session s source idx = do
    inserted ←
        IndexQueue.insert s.sessions source (record { gather = new_gather; buffer_idx = idx })
    elim (inserted.1) as (λ _. Option (Inner p sn tn)) [
      | err key value ↦ none
      | ok old ↦ do
        queued ← IndexQueue.enqueue_front (inserted.0) source
        sessions ← queued
        some (record s { sessions = sessions })
    ]

  unfoldable pub try_start_new_session : Inner p sn tn → NodeId → Instant → Option (Inner p sn tn)
  unfolding expire_oldest start_session
  try_start_new_session s source timestamp = do
    present ← IndexQueue.contains s.sessions source
    free ← if present then none else some (allocate_session_buffer s)
    granted ← elim (free.1) as (λ _. Option (Inner p sn tn × Option ℕ)) [
      | some idx ↦ some free
      | none ↦ expire_oldest s timestamp
    ]
    elim (granted.1) as (λ _. Option (Inner p sn tn)) [
      | none ↦ some (granted.0)
      | some idx ↦ start_session (granted.0) source idx
    ]

  -- A transfer waits for the reader and who waits for its priority is woken.
  unfoldable pub queue_transfer :
      Inner p sn tn → Priority → TransferEntry Instant → Option (Inner p sn tn)
  queue_transfer s priority entry = do
    pushed ← Transfers.push s.transfers priority entry
    elim (pushed.1) as (λ _. Option (Inner p sn tn)) [
      | rejected e ↦ none
      | accepted ↦ some (record s {
        transfers = pushed.0;
        priority_trigger = PriorityTrigger.wake wakers s.priority_trigger (new_eq priority);
      })
    ]

  -- A complete transfer changes places with a buffer for the session, if there is one.
  unfoldable pub deliver :
      Inner p sn tn
      → NodeId
      → Priority
      → Bool
      → Session Instant
      → List ℕ
      → Transfer Instant
      → Option (Inner p sn tn × Session Instant)
  unfolding queue_transfer
  deliver s source priority loop_back session buffer transfer = do
    allocated ← Transfers.allocate_buffer s.transfers transfer.priority
    elim (allocated.1) as (λ _. Option (Inner p sn tn × Session Instant)) [
      | none ↦ some (record s { transfers = allocated.0 }, session)
      | some idx ↦ do
        s' ←
            queue_transfer (record s { transfers = allocated.0 }) priority
              (record {
                source = some source;
                transfer_id = transfer.id;
                timestamp = transfer.timestamp;
                loop_back = loop_back;
                buffer_length = min transfer.len (length buffer);
                buffer_idx = session.buffer_idx;
              })
        some (s', record session { buffer_idx = idx })
    ]

  -- A frame of a session.
  unfoldable pub push_session_frame :
      Inner p sn tn
      → NodeId
      → Session Instant
      → Priority
      → List ℕ
      → Instant
      → Bool
      → Mtu
      → Option (Inner p sn tn)
  unfolding deliver
  push_session_frame s source session priority bytes timestamp loop_back mtu = do
    buffer ← get_elem? s.buffers session.buffer_idx
    (gather, buffer, transfer) ←
        Gather.push_frame clock s.timeout buffer session.gather priority bytes timestamp mtu
    let s' = record s { buffers = set s.buffers session.buffer_idx buffer }
    let session' = record session { gather = gather }
    left ← elim transfer as (λ _. Option (Inner p sn tn × Session Instant)) [
      | none ↦ some (s', session')
      | some t ↦ deliver s' source priority loop_back session' buffer t
    ]
    sessions ← IndexQueue.assign (left.0).sessions source (left.1)
    last ← last_transfer_timestamp gather
    if elim last [ none ↦ false | some ts ↦ eq ts timestamp ]
        then (do
          queued ← IndexQueue.enqueue_back sessions source
          sessions ← queued
          some (record (left.0) { sessions = sessions }))
        else some (record (left.0) { sessions = sessions })

  unfoldable pub push_regular_frame :
      Inner p sn tn → NodeId → Priority → List ℕ → Instant → Bool → Mtu → Option (Inner p sn tn)
  unfolding try_start_new_session push_session_frame
  push_regular_frame s source priority bytes timestamp loop_back mtu = do
    let sot : Bool = elim (split_last bytes) [
      | none ↦ false
      | some (byte, rest) ↦ TailByte.sot byte
    ]
    session ← IndexQueue.get s.sessions source
    s' ← if is_none session && sot then try_start_new_session s source timestamp else some s
    session' ← IndexQueue.get s'.sessions source
    elim session' as (λ _. Option (Inner p sn tn)) [
      | none ↦ some s'
      | some here ↦ push_session_frame s' source here priority bytes timestamp loop_back mtu
    ]

  unfoldable pub push_anonymous_frame :
      Inner p sn tn → Priority → List ℕ → Instant → Bool → Option (Inner p sn tn)
  unfolding queue_transfer
  push_anonymous_frame s priority bytes timestamp loop_back = elim (split_last bytes) [
    | none ↦ some s
    | some (tail, payload) ↦
        if TailByte.sot tail && (TailByte.eot tail && bool_eq (TailByte.toggle tail) sot_toggle_bit)
        then (do
          allocated ← Transfers.allocate_buffer s.transfers priority
          elim (allocated.1) as (λ _. Option (Inner p sn tn)) [
            | none ↦ some (record s { transfers = allocated.0 })
            | some buffer_idx ↦ do
              buffer ← get_elem? s.buffers buffer_idx
              let stored = min (length payload) (length buffer)
              queue_transfer
                  (record s {
                    buffers = set s.buffers buffer_idx (write_at buffer 0 (take stored payload));
                    transfers = allocated.0;
                  })
                  priority
                  (record {
                    source = none;
                    transfer_id = TailByte.transfer_id tail;
                    timestamp = timestamp;
                    loop_back = loop_back;
                    buffer_length = stored;
                    buffer_idx = buffer_idx;
                  })
          ])
        else some s
  ]

  unfoldable pub push_frame : Inner p sn tn → Frame Instant → Mtu → Option (Inner p sn tn)
  unfolding push_regular_frame push_anonymous_frame
  push_frame s frame mtu =
      if not (eq_spec frame.header.data_spec s.data_specifier)
      then some s
      else elim frame.header.source as (λ _. Option (Inner p sn tn)) [
        | some node ↦
            push_regular_frame s node frame.header.priority (deref frame.content) frame.timestamp
              frame.loop_back mtu
        | none ↦
            push_anonymous_frame s frame.header.priority (deref frame.content) frame.timestamp
              frame.loop_back
      ]

  abbrev pub pop_readiness : Inner p sn tn → PrioritySet
  pop_readiness s = Transfers.priorities s.transfers

  unfoldable pub poll_pop_readiness :
      Inner p sn tn → wakers.Waker → PrioritySet → Inner p sn tn × Poll PrioritySet
  poll_pop_readiness s waker mask =
      let priorities = intersection (pop_readiness s) mask in
      if not (PrioritySet.is_empty priorities) then (s, ready priorities) else (
        record s {
          priority_trigger = PriorityTrigger.register wakers s.priority_trigger waker mask;
        },
        pending,
      )

  -- The slice that the reader gets is the first `buffer_length` bytes; a longer one panics.
  unfoldable pub try_pop :
      Inner p sn tn → PrioritySet → Option (Inner p sn tn × Option (TransferMeta Instant × List ℕ))
  try_pop s mask = do
    popped ← Transfers.pop s.transfers mask
    elim (popped.1) as (λ _. Option (Inner p sn tn × Option (TransferMeta Instant × List ℕ))) [
      | none ↦ some (record s { transfers = popped.0 }, none)
      | some (priority, transfer) ↦ do
        transfers ← Transfers.free_buffer (popped.0) s.readout_buffer_idx
        buffer ← get_elem? s.buffers transfer.buffer_idx
        valid_buffer ←
            if leb transfer.buffer_length (length buffer)
            then some (take transfer.buffer_length buffer)
            else none
        some (
          record s { transfers = transfers; readout_buffer_idx = transfer.buffer_idx },
          some (
            record {
              priority = priority;
              address = transfer.source;
              transfer_id = transfer.transfer_id;
              timestamp = transfer.timestamp;
              loop_back = transfer.loop_back;
            },
            valid_buffer,
          ),
        )
    ]
