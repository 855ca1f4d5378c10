-- ===== src/Buffer/Watch/Newest.antt =====
-- emcyphal/src/buffer/rx_msg/watch.rs: what the reader gets of an anonymous message.
use emcyphal.Common.{
  ℕ, ◌≡◌, ◌≢◌, refl, ap, ◌∙◌, Bool, true, false, ◌&&◌, List, none, some, length, take, set, min,
  get_elem?, get_elem?-set_self, get_elem?-set_ne, get_elem?-lt, split_last, leb, le→leb, bool_eq,
  if◌then◌else◌, arith,
}
use emcyphal.Core.Priority.{Priority}
use emcyphal.Core.PrioritySet.{PrioritySet, contains, new_eq}
use emcyphal.External.{Platform}
use emcyphal.Format.{sot_toggle_bit}
use emcyphal.Format.TailByte
use emcyphal.Gather.{write_at}
use emcyphal.Gather.Store.{store, write-start}
use emcyphal.Utils.MultiClassQueue.Writes.{bind_lem}
use emcyphal.Utils.PriorityTrigger
use emcyphal.Buffer.Types.{TransferMeta}
use emcyphal.Buffer.RxPriorityFifo.Accept.{length-store, take-store}
use emcyphal.Buffer.Watch.{Inner, is_outdated, push_anonymous_frame, try_pop}

module _ (p : Platform) (sn : ℕ) where
  open p use {clock.{Instant}}

  abbrev meta_of : Priority → ℕ → Instant → Bool → TransferMeta Instant
  meta_of priority tail timestamp loop_back = record {
    priority = priority;
    address = none;
    transfer_id = TailByte.transfer_id tail;
    timestamp = timestamp;
    loop_back = loop_back;
  }

  -- The states after the push and after the readout.
  abbrev pushed : Inner p sn → TransferMeta Instant → ℕ → List ℕ → Inner p sn
  pushed s meta n b = record s {
    transfer_min_timestamp = meta.timestamp;
    buffers = set s.buffers s.transfer_buffer_idx b;
    transfer = some (record { meta = meta; buffer_length = n });
    priority_trigger = PriorityTrigger.wake p.wakers s.priority_trigger (new_eq meta.priority);
  }

  abbrev popped : Inner p sn → Inner p sn
  popped s = record s {
    transfer = none;
    transfer_buffer_idx = s.readout_buffer_idx;
    readout_buffer_idx = s.transfer_buffer_idx;
  }

  -- A frame without a source that is a whole transfer, and not older than the last transfer taken,
  -- replaces what waits for the reader: a `try_pop` with its priority gives its metadata and as much
  -- of its payload as the buffer holds. Nothing waits then, the buffers of the reader and of the next
  -- transfer have changed places, and no buffer but the transfer's was written to.
  pub try_pop-push_anonymous_frame :
      (s : Inner p sn) (priority : Priority) (bytes payload : List ℕ) (tail : ℕ)
      (timestamp : Instant) (loop_back : Bool) (mask : PrioritySet) (b : List ℕ)
      → split_last bytes ≡ some (tail, payload)
      → (TailByte.sot tail && (TailByte.eot tail && bool_eq (TailByte.toggle tail) sot_toggle_bit))
        ≡ true
      → is_outdated p sn s timestamp ≡ false
      → get_elem? s.buffers s.transfer_buffer_idx ≡ some b
      → contains mask priority ≡ true
      → (s' : Inner p sn) × (s'' : Inner p sn) × (push_anonymous_frame p sn s priority bytes
            timestamp loop_back
          ≡ some s')
        × (try_pop p sn s' mask
            ≡ some (s'', some (meta_of priority tail timestamp loop_back, take (length b) payload)))
        × (s''.transfer ≡ none)
        × (s''.readout_buffer_idx ≡ s.transfer_buffer_idx)
        × (s''.transfer_buffer_idx ≡ s.readout_buffer_idx)
        × ((k : ℕ) → s.transfer_buffer_idx ≢ k → get_elem? s''.buffers k ≡ get_elem? s.buffers k)
  unfolding push_anonymous_frame try_pop
  try_pop-push_anonymous_frame s priority bytes payload tail timestamp loop_back mask b split single
        fresh at wanted =
      let idx = s.transfer_buffer_idx in
      let n = min (length payload) (length b) in
      let b' = write_at b 0 (take n payload) in
      let whole : b' ≡ store b payload = write-start b payload in
      let size : length b' ≡ length b = ap length whole ∙ length-store b payload in
      let read : take n b' ≡ take (length b) payload = ap (take n) whole ∙ take-store b payload in
      let kept : get_elem? (set s.buffers idx b') idx ≡ some b' =
        get_elem?-set_self s.buffers idx b' (get_elem?-lt s.buffers idx b at) in
      let fits : leb n (length b') ≡ true = le→leb n (length b') (omega (arith, size)) in
      let s' = pushed s (meta_of priority tail timestamp loop_back) n b' in
      (
        s',
        popped s',
        rw (push_anonymous_frame, split, single, fresh) (bind_lem _ at),
        rw (try_pop, wanted)
            (bind_lem _ kept
              ∙ bind_lem _ (ap (λ c. if c then some (take n b') else none) fits ∙ ap some read)),
        refl,
        refl,
        refl,
        λ k other. get_elem?-set_ne s.buffers idx k b' other,
      )
