-- ===== src/Buffer/RxPriorityFifo/Accept.antt =====
-- emcyphal/src/buffer/rx_priority_fifo.rs, `push_anonymous_frame`: what becomes of a frame.
use emcyphal.Common.{
  drop, length-take, length-drop, take-append, split_last, bool_eq, ◌&&◌, ℕ, ◌≤◌, ◌≡◌, ◌≢◌, refl,
  sym, ap, ◌∙◌, Bool, true, false, List, ◌∷◌, Option, none, some, min, arith, length, length-append,
  take, get_elem?, get_elem?-set_ne,
}
use emcyphal.Core.Priority.{Priority, le}
use emcyphal.External.{Platform, IsStack}
use emcyphal.Utils.MultiClassQueue.Writes.{bind_lem}
use emcyphal.Utils.PriorityQueue.Spec.{Spec, occupied}
use emcyphal.Buffer.RxPriorityFifo.{Inner, push_anonymous_frame}
use emcyphal.Buffer.RxPriorityFifo.Transfers
use emcyphal.Buffer.RxPriorityFifo.Transfers.{TransferEntry, TransferQueue}
use emcyphal.Buffer.RxPriorityFifo.Stock.{taken, added}
use emcyphal.Buffer.RxPriorityFifo.Grant.{
  Granted, spare, displaced, refused, allocate_buffer-Granted,
}
use emcyphal.Gather.{write_at}
use emcyphal.Gather.Store.{store, write-start}
use emcyphal.Format.{sot_toggle_bit}
use emcyphal.Format.TailByte
use emcyphal.Buffer.RxPriorityFifo.Ledger.{Kept}
use emcyphal.Buffer.RxPriorityFifo.Lent.{
  Lent, spare-Lent, displaced-Lent, not_read, in_memory, filled_at, queue_transfer-Kept,
}

pub length-store : (b ys : List ℕ) → length (store b ys) ≡ length b
length-store b ys = omega (
  arith,
  length-append (take (length b) ys) (drop (length ys) b),
  length-take (length b) ys,
  length-drop (length ys) b,
)

-- What is read back of a slice that starts at the front of a buffer.
pub take-store :
    (b ys : List ℕ) → take (min (length ys) (length b)) (store b ys) ≡ take (length b) ys
take-store b ys =
    let size : min (length ys) (length b) ≡ length (take (length b) ys) =
      omega (arith, length-take (length b) ys) in
    ap (λ n. take n (store b ys)) size ∙ take-append (take (length b) ys) (drop (length ys) b)

module _ {I : Type 0} where
  -- The lists that a transfer joins: those that wait, where there is room for another, or, with no
  -- room left, those without the oldest transfer of the least urgent priority that has one, where
  -- that is no more urgent than the new one.
  pub data Room (m : Spec (TransferEntry I)) (priority : Priority)
      : Spec (TransferEntry I) → Type 0 where
    as_is : 1 ≤ m.room → Room m priority m
    displacing :
        (worst : Priority) (old : TransferEntry I) (rest : List (TransferEntry I))
        → m.room ≡ 0
        → m.lists worst ≡ old ∷ rest
        → ((q : Priority) → occupied (m.lists q) ≡ true → le q worst ≡ true)
        → le priority worst ≡ true
        → Room m priority (taken m worst rest)

  abbrev pub anonymous : ℕ → I → Bool → ℕ → ℕ → TransferEntry I
  anonymous tail timestamp loop_back n idx = record {
    source = none;
    transfer_id = TailByte.transfer_id tail;
    timestamp = timestamp;
    loop_back = loop_back;
    buffer_length = n;
    buffer_idx = idx;
  }

module _ {p : Platform} {sn tn : ℕ} where
  open p use {clock.{Instant}, vecs}

  -- A transfer of one frame joins the list of its priority with as much of the payload as the buffer
  -- holds, in a buffer that no other transfer and not the reader has; or no room is left, all that
  -- wait are more urgent, and nothing changes.
  pub data Accepted (s : Inner p sn tn) (m : Spec (TransferEntry Instant)) (priority : Priority)
      (tail : ℕ) (payload : List ℕ) (timestamp : Instant) (loop_back : Bool) (s' : Inner p sn tn)
      : Type 0 where
    queued :
        (m' : Spec (TransferEntry Instant)) (n idx : ℕ) (b : List ℕ)
        → Room m priority m'
        → get_elem? s'.buffers idx ≡ some b
        → take n b ≡ take (length b) payload
        → idx ≢ s.readout_buffer_idx
        → ((k : ℕ) → idx ≢ k → get_elem? s'.buffers k ≡ get_elem? s.buffers k)
        → Kept s' (added m' priority (anonymous tail timestamp loop_back n idx))
        → Accepted s m priority tail payload timestamp loop_back s'
    dropped :
        m.room ≡ 0
        → ((q : Priority) → occupied (m.lists q) ≡ true → le priority q ≡ false)
        → s' ≡ s
        → Accepted s m priority tail payload timestamp loop_back s'

  module _ (law : IsStack vecs) (s : Inner p sn tn) (m : Spec (TransferEntry Instant))
      (priority : Priority) (bytes payload : List ℕ) (tail : ℕ) (timestamp : Instant)
      (loop_back : Bool) (h : Kept s m) (split : split_last bytes ≡ some (tail, payload))
      (single : (TailByte.sot tail
          && (TailByte.eot tail && bool_eq (TailByte.toggle tail) sot_toggle_bit))
        ≡ true) where
    abbrev Accepts : Type 0
    Accepts =
        (s' : Inner p sn tn) × (push_anonymous_frame p sn tn s priority bytes timestamp loop_back
          ≡ some s')
        × Accepted s m priority tail payload timestamp loop_back s'

    queue_lent :
        (t : TransferQueue Instant vecs tn) (m' : Spec (TransferEntry Instant)) (idx : ℕ)
        → Transfers.allocate_buffer s.transfers priority ≡ some (t, some idx)
        → Room m priority m'
        → Lent s m t m' idx
        → Accepts
    unfolding push_anonymous_frame
    queue_lent t m' idx e room l =
        let (b, at) = in_memory law s m t m' (anonymous tail timestamp loop_back 0 idx) h l in
        let n = min (length payload) (length b) in
        let entry = anonymous tail timestamp loop_back n idx in
        let b' = write_at b 0 (take n payload) in
        let whole : b' ≡ store b payload = write-start b payload in
        let size : length b' ≡ length b = ap length whole ∙ length-store b payload in
        let (s', e', kept_buffers, kept) =
          queue_transfer-Kept law s m t m' entry h l priority b' (omega (arith, size)) in
        (
          s',
          rw (push_anonymous_frame, split, single) (bind_lem _ e ∙ bind_lem _ at ∙ e'),
          queued m' n idx b' room
              (ap (λ c. get_elem? c idx) kept_buffers
                ∙ filled_at law s m t m' entry h l priority b' (omega (arith, size)))
              (ap (take n) whole ∙ take-store b payload ∙ ap (λ k. take k payload) (sym size))
              (not_read law s m t m' entry h l)
              (λ k other.
                ap (λ c. get_elem? c k) kept_buffers ∙ get_elem?-set_ne s.buffers idx k b' other)
              kept,
        )

    accept :
        (t : TransferQueue Instant vecs tn) (r : Option ℕ)
        → Transfers.allocate_buffer s.transfers priority ≡ some (t, r)
        → Granted s.transfers m priority t r
        → Accepts
    unfolding push_anonymous_frame
    accept t _ e (spare idx rest have left stocked) =
        let b = h.stocked.balance in
        queue_lent t m idx e (as_is (omega (arith, b, ap length have)))
          (spare-Lent s m t idx rest h have left stocked)
    accept t _ e (displaced worst entry rest nil have within yields same stocked) =
        let b = h.stocked.balance in
        queue_lent t (taken m worst rest) entry.buffer_idx e
          (displacing worst entry rest (omega (arith, b, ap length nil)) have within yields)
          (displaced-Lent s m t worst entry rest h have same stocked)
    accept t _ e (refused nil urgent same) =
        let b = h.stocked.balance in
        (
          s,
          rw (push_anonymous_frame, split, single)
              (bind_lem _ e ∙ ap (λ t. some (record s { transfers = t })) same),
          dropped (omega (arith, b, ap length nil)) urgent refl,
        )

    -- Where the bounded vectors behave as stacks, of a receive buffer made for at least one
    -- transfer, whose buffers are held at most once by its reader, its free list and its waiting
    -- transfers, a frame without a source that is a whole transfer is taken in without a panic.
    -- While there is room for another transfer nothing is dropped: it joins the list of its
    -- priority with as much of the payload as the buffer holds, in a buffer that is not the
    -- reader's, and no other buffer changes. With no room left it does so in the place of the
    -- oldest transfer of the least urgent priority that has one, which is dropped, where that is
    -- no more urgent; or all that wait are more urgent, and nothing changes. The buffers are held
    -- at most once afterwards.
    pub push_anonymous_frame-Accepted : 1 ≤ tn → Accepts
    push_anonymous_frame-Accepted room =
        let (t, r, e, g) = allocate_buffer-Granted law s.transfers m priority room h.stocked in
        accept t r e g
