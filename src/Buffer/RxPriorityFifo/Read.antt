-- ===== src/Buffer/RxPriorityFifo/Read.antt =====
-- emcyphal/src/buffer/rx_priority_fifo.rs, `try_pop`: what the reader gets.
use emcyphal.Common.{
  ℕ, ◌≤◌, ◌≡◌, refl, sym, ap, ◌∙◌, true, false, List, ◌∷◌, Option, none, some, if◌then◌else◌, arith,
  take, get_elem?, le→leb,
}
use mathlib.Core.Path.{subst}
use emcyphal.Buffer.Owned.{count}
use emcyphal.Core.Priority.{Priority, le}
use emcyphal.Core.PrioritySet.{PrioritySet, contains}
use emcyphal.External.{Platform, IsStack}
use emcyphal.Utils.MultiClassQueue.Writes.{bind_lem}
use emcyphal.Utils.PriorityQueue.Spec.{Spec, occupied}
use emcyphal.Buffer.Types.{TransferMeta}
use emcyphal.Buffer.RxPriorityFifo.{Inner, try_pop}
use emcyphal.Buffer.RxPriorityFifo.Transfers
use emcyphal.Buffer.RxPriorityFifo.Transfers.{TransferEntry, TransferQueue}
use emcyphal.Buffer.RxPriorityFifo.Stock.{taken, sum_of-with_list, free_buffer-Stocked}
use emcyphal.Buffer.RxPriorityFifo.Grant.{Handed, handed, nothing, pop-Handed}
use emcyphal.Buffer.RxPriorityFifo.Ledger.{Kept, holders, uses, Legible, with_list-all}

abbrev meta_of : {I : Type 0} → Priority → TransferEntry I → TransferMeta I
meta_of q e = record {
  priority = q;
  address = e.source;
  transfer_id = e.transfer_id;
  timestamp = e.timestamp;
  loop_back = e.loop_back;
}

module _ {p : Platform} {sn tn : ℕ} where
  open p use {clock.{Instant}, vecs}

  -- The reader gets the bytes of the oldest transfer of the most urgent priority of the mask that has
  -- one, in the transfer's own buffer, and no buffer is written to.
  pub data Read (s : Inner p sn tn) (m : Spec (TransferEntry Instant)) (mask : PrioritySet)
      (s' : Inner p sn tn) : Option (TransferMeta Instant × List ℕ) → Type 0 where
    read :
        (q : Priority) (e : TransferEntry Instant) (rest : List (TransferEntry Instant))
        (b : List ℕ)
        → contains mask q ≡ true
        → m.lists q ≡ e ∷ rest
        → ((r : Priority) → contains mask r ≡ true → occupied (m.lists r) ≡ true → le q r ≡ true)
        → get_elem? s.buffers e.buffer_idx ≡ some b
        → s'.buffers ≡ s.buffers
        → s'.readout_buffer_idx ≡ e.buffer_idx
        → Kept s' (taken m q rest)
        → Read s m mask s' (some (meta_of q e, take e.buffer_length b))
    unread :
        ((r : Priority) → contains mask r ≡ true → occupied (m.lists r) ≡ false)
        → s' ≡ s
        → Read s m mask s' none

  module _ (law : IsStack vecs) (s : Inner p sn tn) (m : Spec (TransferEntry Instant))
      (mask : PrioritySet) where
    -- The buffers change hands and none is lost.
    swapped_holders :
        (t : TransferQueue Instant vecs tn) (q : Priority) (e : TransferEntry Instant)
        (rest : List (TransferEntry Instant))
        → m.lists q ≡ e ∷ rest
        → vecs.contents tn t.free_buffers
          ≡ s.readout_buffer_idx ∷ vecs.contents tn s.transfers.free_buffers
        → (k : ℕ)
        → holders (record s { transfers = t; readout_buffer_idx = e.buffer_idx }) (taken m q rest) k
          ≡ holders s m k
    swapped_holders t q e rest have freed k =
        omega
          (arith, ap (uses k) have, ap (count k) freed, sum_of-with_list (uses k) m.lists q rest)

    abbrev Reads : Type 0
    Reads =
        (s' : Inner p sn tn) × (r : Option (TransferMeta Instant × List ℕ)) × (try_pop p sn tn s
            mask
          ≡ some (s', r))
        × Read s m mask s' r

    read-Handed :
        (t : TransferQueue Instant vecs tn) (r : Option (Priority × TransferEntry Instant))
        → Transfers.pop s.transfers mask ≡ some (t, r)
        → Handed s.transfers m mask t r
        → Kept s m
        → Reads
    unfolding try_pop
    read-Handed t _ e (nothing out same) h = (
      s,
      none,
      bind_lem _ e ∙ ap (λ t. some (record s { transfers = t }, none)) same,
      unread out refl,
    )
    read-Handed t _ e (handed q entry rest member have urgent kept stocked) h =
        let (t', freed, contents, restocked) =
          free_buffer-Stocked law t (taken m q rest) s.readout_buffer_idx stocked in
        let (here, later) = subst (Legible s.buffers) have (h.legible q) in
        let (b, at, fits) = here in
        let balance =
          swapped_holders t' q entry rest have
            (contents ∙ ap (λ f. s.readout_buffer_idx ∷ vecs.contents tn f) kept) in
        (
          record s { transfers = t'; readout_buffer_idx = entry.buffer_idx },
          some (meta_of q entry, take entry.buffer_length b),
          bind_lem _ e
              ∙ bind_lem _ freed
              ∙ bind_lem _ at
              ∙ bind_lem _ (
                  ap (λ c. if c then some (take entry.buffer_length b) else none)
                    (le→leb _ _ fits)),
          read q entry rest b member have urgent at refl refl (record {
            stocked = restocked;
            once = λ k. subst (λ c. c ≤ 1) (sym (balance k)) (h.once k);
            inside = λ k held. h.inside k (subst (λ c. 1 ≤ c) (balance k) held);
            legible = with_list-all (Legible s.buffers) m.lists q rest later h.legible;
          }),
        )

    -- On a receive buffer whose buffers are held at most once by its reader, its free list and
    -- its waiting transfers, `try_pop` does not panic. It gives the metadata and the bytes of
    -- the oldest transfer of the most urgent priority of the mask that has one; that buffer
    -- becomes the reader's, no buffer is written to, the transfer leaves its list, and the
    -- buffers are held at most once afterwards. It gives nothing, and changes nothing, where no
    -- priority of the mask has one.
    pub try_pop-Read : Kept s m → Reads
    try_pop-Read h =
        let (t, r, e, result) = pop-Handed law s.transfers m mask h.stocked in
        read-Handed t r e result h
