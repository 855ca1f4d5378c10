-- ===== src/Buffer/RxPriorityFifo/Lent.antt =====
-- emcyphal/src/buffer/rx_priority_fifo.rs: a buffer between its allocation and the transfer that is
-- queued with it.
use emcyphal.Common.{
  ℕ, ◌+◌, ◌<◌, ◌≤◌, ◌≡◌, ◌≢◌, refl, sym, ap, ==_refl, List, [], ◌∷◌, ◌++◌, some, ◌==◌,
  if◌then◌else◌, arith, length, set, get_elem?, get_elem?_total, get_elem?-set_self, length-set,
}
use mathlib.Core.Path.{subst}
use emcyphal.Buffer.Owned.{count}
use emcyphal.Core.Priority.{Priority}
use emcyphal.External.{Platform, IsStack}
use emcyphal.Utils.MultiClassQueue.Writes.{bind_lem}
use emcyphal.Utils.PriorityQueue.Spec.{Spec}
use emcyphal.Buffer.RxPriorityFifo.{Inner, queue_transfer}
use emcyphal.Buffer.RxPriorityFifo.Transfers.{TransferEntry, TransferQueue}
use emcyphal.Buffer.RxPriorityFifo.Stock.{
  Stocked, push-Stocked, taken, added, sum_of-with_list, le-sum_of,
}
use emcyphal.Buffer.RxPriorityFifo.Ledger.{
  Kept, holders, uses, uses-append, Legible, Legible-append, Legible-set, with_list-all,
}

module _ {p : Platform} {sn tn : ℕ} where
  open p use {clock.{Instant}, vecs}

  -- A buffer is lent out of those that are held once.
  pub record Lent (s : Inner p sn tn) (m : Spec (TransferEntry Instant))
      (t : TransferQueue Instant vecs tn) (m' : Spec (TransferEntry Instant)) (idx : ℕ)
      : Type 0 where
    pub stocked : Stocked t m' 1
    pub ledger :
        (k : ℕ)
        → (if idx == k then 1 else 0) + holders (record s { transfers = t }) m' k ≡ holders s m k
    pub legible : (q : Priority) → Legible s.buffers (m'.lists q)

  pub spare-Lent :
      (s : Inner p sn tn) (m : Spec (TransferEntry Instant)) (t : TransferQueue Instant vecs tn)
      (idx : ℕ) (rest : List ℕ)
      → Kept s m
      → vecs.contents tn s.transfers.free_buffers ≡ idx ∷ rest
      → vecs.contents tn t.free_buffers ≡ rest
      → Stocked t m 1
      → Lent s m t m idx
  spare-Lent s m t idx rest h have left stocked = record {
    stocked = stocked;
    ledger = λ k. omega (arith, ap (count k) have, ap (count k) left);
    legible = h.legible;
  }

  pub displaced-Lent :
      (s : Inner p sn tn) (m : Spec (TransferEntry Instant)) (t : TransferQueue Instant vecs tn)
      (worst : Priority) (e : TransferEntry Instant) (rest : List (TransferEntry Instant))
      → Kept s m
      → m.lists worst ≡ e ∷ rest
      → t.free_buffers ≡ s.transfers.free_buffers
      → Stocked t (taken m worst rest) 1
      → Lent s m t (taken m worst rest) e.buffer_idx
  displaced-Lent s m t worst e rest h have same stocked = record {
    stocked = stocked;
    ledger = λ k. omega (
      arith,
      ap (uses k) have,
      ap (λ f. count k (vecs.contents tn f)) same,
      sum_of-with_list (uses k) m.lists worst rest,
    );
    legible =
        with_list-all (Legible s.buffers) m.lists worst rest
          (subst (Legible s.buffers) have (h.legible worst)).1 h.legible;
  }

  -- A lent buffer that is filled joins the lists with its transfer.
  module _ (law : IsStack vecs) (s : Inner p sn tn) (m : Spec (TransferEntry Instant))
      (t : TransferQueue Instant vecs tn) (m' : Spec (TransferEntry Instant))
      (entry : TransferEntry Instant) (h : Kept s m) (l : Lent s m t m' entry.buffer_idx) where
    held : 1 ≤ holders s m entry.buffer_idx
    held = ground (arith, l.ledger entry.buffer_idx, ==_refl entry.buffer_idx)

    unused : (q : Priority) → uses entry.buffer_idx (m'.lists q) ≡ 0
    unused q = ground (
      arith,
      l.ledger entry.buffer_idx,
      ==_refl entry.buffer_idx,
      h.once entry.buffer_idx,
      le-sum_of (uses entry.buffer_idx) m'.lists q,
    )

    pub not_read : entry.buffer_idx ≢ s.readout_buffer_idx
    not_read = λ same.
        ground (
          arith,
          l.ledger entry.buffer_idx,
          ==_refl entry.buffer_idx,
          h.once entry.buffer_idx,
          same,
        )

    pub in_memory : (b : List ℕ) × (get_elem? s.buffers entry.buffer_idx ≡ some b)
    in_memory = get_elem?_total s.buffers entry.buffer_idx (h.inside entry.buffer_idx held)

    module _ (priority : Priority) (b : List ℕ) (fits : entry.buffer_length ≤ length b) where
      abbrev filled : List (List ℕ)
      filled = set s.buffers entry.buffer_idx b

      pub filled_at : get_elem? filled entry.buffer_idx ≡ some b
      filled_at = get_elem?-set_self s.buffers entry.buffer_idx b (h.inside entry.buffer_idx held)

      pub queue_transfer-Kept :
          (s' : Inner p sn tn) × (queue_transfer p sn tn
              (record s { buffers = filled; transfers = t })
              priority
              entry
            ≡ some s')
          × (s'.buffers ≡ filled)
          × Kept s' (added m' priority entry)
      unfolding queue_transfer
      queue_transfer-Kept =
          let (t', e, same, stocked) = push-Stocked law t m' priority entry l.stocked in
          let balance : (k : ℕ)
              → holders (record s { transfers = t' }) (added m' priority entry) k ≡ holders s m k =
            λ k. omega (
              arith,
              l.ledger k,
              ap (λ f. count k (vecs.contents tn f)) same,
              uses-append k (m'.lists priority) (entry ∷ []),
              sum_of-with_list (uses k) m'.lists priority (m'.lists priority ++ (entry ∷ [])),
            ) in
          (
            _,
            bind_lem _ e,
            refl,
            record {
              stocked = stocked;
              once = λ k. subst (λ c. c ≤ 1) (sym (balance k)) (h.once k);
              inside = λ k used.
                  subst (λ c. k < c) (sym (length-set s.buffers entry.buffer_idx b))
                    (h.inside k (subst (λ c. 1 ≤ c) (balance k) used));
              legible =
                  let kept = λ (q : Priority).
                    Legible-set s.buffers entry.buffer_idx b (m'.lists q) (unused q)
                      (l.legible q) in
                  with_list-all (Legible filled) m'.lists priority _
                    (Legible-append filled (m'.lists priority) (entry ∷ []) (kept priority)
                      ((b, filled_at, fits), tt))
                    kept;
            },
          )
