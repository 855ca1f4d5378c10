-- ===== src/Buffer/Watch.antt =====
-- emcyphal/src/buffer/rx_msg/watch.rs: the buffer of a receiver that keeps the newest message. `none`
-- around a result is a panic, or an access outside the allocation of `buffers`.
pub mod Newest
use emcyphal.Common.{
  ℕ, ◌+◌, min, List, Bool, true, false, not, ◌&&◌, Option, none, some, length, take, set, get_elem?,
  split_last, ltb, leb, ◌==◌, bool_eq, if◌then◌else◌,
}
use emcyphal.Core.Priority.{Priority}
use emcyphal.Core.PrioritySet
use emcyphal.Core.PrioritySet.{PrioritySet, new_eq, intersection}
use emcyphal.Core.Ids.NodeId
use emcyphal.Core.Ids.NodeId.{NodeId}
use emcyphal.External.{Platform}
use emcyphal.Format.{sot_toggle_bit}
use emcyphal.Format.TailByte
use emcyphal.Frame.{Frame, DataSpecifier, eq_spec, deref}
use emcyphal.Frame.Mtu.{Mtu}
use emcyphal.Gather
use emcyphal.Gather.{Gather, Transfer, new_gather, last_transfer_timestamp, write_at}
use emcyphal.Utils.IndexQueue
use emcyphal.Utils.IndexQueue.{IndexQueue, Inserted, ok, err}
use emcyphal.Utils.MultiClassQueue.{◌>>=◌}
use emcyphal.Utils.PriorityTrigger
use emcyphal.Utils.PriorityTrigger.{PriorityTrigger}
use emcyphal.Buffer.Types.{TransferMeta, Poll, ready, pending, is_none}

pub record Session (I : Type 0) : Type 0 where
  pub gather : Gather I
  pub buffer_idx : ℕ

pub record TransferEntry (I : Type 0) : Type 0 where
  pub meta : TransferMeta I
  pub buffer_length : ℕ

-- `buffers` is the memory behind `buffers_ptr`.
pub record Inner (p : Platform) (sn : ℕ) : Type 0 where
  pub data_specifier : DataSpecifier
  pub buffers : List (List ℕ)
  pub sessions : IndexQueue (Session p.clock.Instant) NodeId.max_value sn
  pub session_buffer_base : ℕ
  pub transfer : Option (TransferEntry p.clock.Instant)
  pub transfer_min_timestamp : p.clock.Instant
  pub transfer_buffer_idx : ℕ
  pub readout_buffer_idx : ℕ
  pub timeout : p.clock.Duration
  pub priority_trigger : PriorityTrigger p.wakers

module _ (p : Platform) (sn : ℕ) where
  open p use {clock.{Instant, Duration, saturating_add, le, eq, min_instant}, clock, wakers}

  -- The conversions of `SN` and of `SN + 1` to `u8` fail past 255.
  unfoldable pub new : DataSpecifier → Duration → List (List ℕ) → Option (Inner p sn)
  new data_specifier timeout buffers =
      if length buffers == sn + 2 && ltb (sn + 1) 256
      then (do
        sessions ← IndexQueue.new
        some (record {
          data_specifier = data_specifier;
          buffers = buffers;
          sessions = sessions;
          session_buffer_base = 0;
          transfer = none;
          transfer_min_timestamp = min_instant;
          transfer_buffer_idx = sn;
          readout_buffer_idx = sn + 1;
          timeout = timeout;
          priority_trigger = PriorityTrigger.new wakers;
        }))
      else none

  -- The base stays below `SN`, a byte.
  abbrev pub allocate_session_buffer : Inner p sn → Inner p sn × Option ℕ
  allocate_session_buffer s =
      if ltb s.session_buffer_base sn
      then (
        record s { session_buffer_base = s.session_buffer_base + 1 },
        some s.session_buffer_base,
      )
      else (s, none)

  -- `is_none_or(|ts| ts.saturating_add(self.timeout) < timestamp)`
  abbrev pub is_expired : Duration → Option Instant → Instant → Bool
  is_expired timeout none timestamp = true
  is_expired timeout (some ts) timestamp =
      let limit = saturating_add ts timeout in le limit timestamp && not (eq limit timestamp)

  -- The session that is the first in the queue gives its buffer up if it has expired.
  unfoldable pub expire_oldest : Inner p sn → Instant → Option (Inner p sn × Option ℕ)
  expire_oldest s timestamp = do
    first ← IndexQueue.front s.sessions
    oldest_source ← first
    found ← IndexQueue.get s.sessions oldest_source
    oldest_session ← found
    last ← last_transfer_timestamp oldest_session.gather
    if is_expired s.timeout last timestamp
        then (do
          removed ← IndexQueue.remove s.sessions oldest_source
          session ← removed.1
          some (record s { sessions = removed.0 }, some session.buffer_idx))
        else some (s, none)

  unfoldable pub start_session : Inner p sn → NodeId → ℕ → Option (Inner p sn)
  start_session s source idx = do
    inserted ←
        IndexQueue.insert s.sessions source (record { gather = new_gather; buffer_idx = idx })
    elim (inserted.1) as (λ _. Option (Inner p sn)) [
      | err key value ↦ none
      | ok old ↦ do
        queued ← IndexQueue.enqueue_front (inserted.0) source
        sessions ← queued
        some (record s { sessions = sessions })
    ]

  unfoldable pub try_start_new_session : Inner p sn → NodeId → Instant → Option (Inner p sn)
  unfolding expire_oldest start_session
  try_start_new_session s source timestamp = do
    present ← IndexQueue.contains s.sessions source
    free ← if present then none else some (allocate_session_buffer s)
    granted ← elim (free.1) as (λ _. Option (Inner p sn × Option ℕ)) [
      | some idx ↦ some free
      | none ↦ expire_oldest s timestamp
    ]
    elim (granted.1) as (λ _. Option (Inner p sn)) [
      | none ↦ some (granted.0)
      | some idx ↦ start_session (granted.0) source idx
    ]

  -- A complete transfer that is not older than the last one changes places with it.
  unfoldable pub replace :
      Inner p sn
      → NodeId
      → Priority
      → Bool
      → Session Instant
      → List ℕ
      → Transfer Instant
      → Inner p sn × Session Instant
  replace s source priority loop_back session buffer transfer =
      if le s.transfer_min_timestamp transfer.timestamp
      then (
        record s {
          transfer_min_timestamp = transfer.timestamp;
          transfer = some (record {
            meta = record {
              priority = transfer.priority;
              address = some source;
              transfer_id = transfer.id;
              timestamp = transfer.timestamp;
              loop_back = loop_back;
            };
            buffer_length = min transfer.len (length buffer);
          });
          transfer_buffer_idx = session.buffer_idx;
          priority_trigger = PriorityTrigger.wake wakers s.priority_trigger (new_eq priority);
        },
        record session { buffer_idx = s.transfer_buffer_idx },
      )
      else (s, session)

  -- A frame of a session.
  unfoldable pub push_session_frame :
      Inner p sn
      → NodeId
      → Session Instant
      → Priority
      → List ℕ
      → Instant
      → Bool
      → Mtu
      → Option (Inner p sn)
  unfolding replace
  push_session_frame s source session priority bytes timestamp loop_back mtu = do
    buffer ← get_elem? s.buffers session.buffer_idx
    (gather, buffer, transfer) ←
        Gather.push_frame clock s.timeout buffer session.gather priority bytes timestamp mtu
    let s' = record s { buffers = set s.buffers session.buffer_idx buffer }
    let session' = record session { gather = gather }
    let left : Inner p sn × Session Instant = elim transfer [
      | none ↦ (s', session')
      | some t ↦ replace s' source priority loop_back session' buffer t
    ]
    sessions ← IndexQueue.assign (left.0).sessions source (left.1)
    last ← last_transfer_timestamp gather
    if elim last [ none ↦ false | some ts ↦ eq ts timestamp ]
        then (do
          queued ← IndexQueue.enqueue_back sessions source
          sessions ← queued
          some (record (left.0) { sessions = sessions }))
        else some (record (left.0) { sessions = sessions })

  unfoldable pub push_regular_frame :
      Inner p sn → NodeId → Priority → List ℕ → Instant → Bool → Mtu → Option (Inner p sn)
  unfolding try_start_new_session push_session_frame
  push_regular_frame s source priority bytes timestamp loop_back mtu = do
    let sot : Bool = elim (split_last bytes) [
      | none ↦ false
      | some (byte, rest) ↦ TailByte.sot byte
    ]
    session ← IndexQueue.get s.sessions source
    s' ← if is_none session && sot then try_start_new_session s source timestamp else some s
    session' ← IndexQueue.get s'.sessions source
    elim session' as (λ _. Option (Inner p sn)) [
      | none ↦ some s'
      | some here ↦ push_session_frame s' source here priority bytes timestamp loop_back mtu
    ]

  -- `self.transfer_min_timestamp > timestamp`
  abbrev pub is_outdated : Inner p sn → Instant → Bool
  is_outdated s timestamp =
      le timestamp s.transfer_min_timestamp && not (eq timestamp s.transfer_min_timestamp)

  unfoldable pub push_anonymous_frame :
      Inner p sn → Priority → List ℕ → Instant → Bool → Option (Inner p sn)
  push_anonymous_frame s priority bytes timestamp loop_back = elim (split_last bytes) [
    | none ↦ some s
    | some (tail, payload) ↦
        if not (
          TailByte.sot tail && (TailByte.eot tail && bool_eq (TailByte.toggle tail) sot_toggle_bit))
        then some s
        else if is_outdated s timestamp
        then some s
        else do
          buffer ← get_elem? s.buffers s.transfer_buffer_idx
          let stored = min (length payload) (length buffer)
          some (record s {
            transfer_min_timestamp = timestamp;
            buffers = set s.buffers s.transfer_buffer_idx (write_at buffer 0 (take stored payload));
            transfer = some (record {
              meta = record {
                priority = priority;
                address = none;
                transfer_id = TailByte.transfer_id tail;
                timestamp = timestamp;
                loop_back = loop_back;
              };
              buffer_length = stored;
            });
            priority_trigger = PriorityTrigger.wake wakers s.priority_trigger (new_eq priority);
          })
  ]

  unfoldable pub push_frame : Inner p sn → Frame Instant → Mtu → Option (Inner p sn)
  unfolding push_regular_frame push_anonymous_frame
  push_frame s frame mtu =
      if not (eq_spec frame.header.data_spec s.data_specifier)
      then some s
      else elim frame.header.source as (λ _. Option (Inner p sn)) [
        | some node ↦
            push_regular_frame s node frame.header.priority (deref frame.content) frame.timestamp
              frame.loop_back mtu
        | none ↦
            push_anonymous_frame s frame.header.priority (deref frame.content) frame.timestamp
              frame.loop_back
      ]

  abbrev pub pop_readiness : Inner p sn → PrioritySet
  pop_readiness s = elim s.transfer [
    | none ↦ PrioritySet.none_set
    | some transfer ↦ new_eq transfer.meta.priority
  ]

  unfoldable pub poll_pop_readiness :
      Inner p sn → wakers.Waker → PrioritySet → Inner p sn × Poll PrioritySet
  poll_pop_readiness s waker mask =
      let priorities = intersection (pop_readiness s) mask in
      if not (PrioritySet.is_empty priorities) then (s, ready priorities) else (
        record s {
          priority_trigger = PriorityTrigger.register wakers s.priority_trigger waker mask;
        },
        pending,
      )

  -- The slice that the reader gets is the first `buffer_length` bytes; a longer one panics.
  unfoldable pub try_pop :
      Inner p sn → PrioritySet → Option (Inner p sn × Option (TransferMeta Instant × List ℕ))
  try_pop s mask = elim s.transfer [
    | none ↦ some (s, none)
    | some transfer ↦
        if not (PrioritySet.contains mask transfer.meta.priority) then some (s, none) else do
          buffer ← get_elem? s.buffers s.transfer_buffer_idx
          valid_buffer ←
              if leb transfer.buffer_length (length buffer)
              then some (take transfer.buffer_length buffer)
              else none
          some (
            record s {
              transfer = none;
              transfer_buffer_idx = s.readout_buffer_idx;
              readout_buffer_idx = s.transfer_buffer_idx;
            },
            some (transfer.meta, valid_buffer),
          )
  ]
