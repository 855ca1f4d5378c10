-- ===== src/Buffer/RxPriorityFifo/Grant.antt =====
-- emcyphal/src/buffer/rx_priority_fifo.rs, `TransferQueue`: which transfer gives way to another, and
-- which the reader gets.
use emcyphal.Common.{
  ℕ, ◌≤◌, ◌≡◌, refl, sym, ap, ◌∙◌, inl, inr, true, false, Bool-cases, List, [], ◌∷◌, Option, none,
  some, arith, length, ◌&&◌, Option-cases,
}
use emcyphal.Core.Priority.{Priority, le}
use emcyphal.Core.PrioritySet.{PrioritySet, contains, first, last, intersection}
use emcyphal.Core.PrioritySet.Laws.{first-some, first-none, last-some, last-none}
use emcyphal.Core.PrioritySet.Algebra.{contains-intersection, contains-none, intersection-lt}
use emcyphal.External.{Vecs, IsStack}
use emcyphal.Utils.PriorityQueue.{max_priority_of}
use emcyphal.Utils.PriorityQueue.Spec.{Spec, occupied}
use emcyphal.Utils.PriorityQueue.Holds.{list_cases}
use emcyphal.Buffer.RxPriorityFifo.Transfers.{TransferEntry, TransferQueue, allocate_buffer, pop}
use emcyphal.Buffer.RxPriorityFifo.Stock.{Stocked, taken, total-none, occupied-cons, take-Stocked}

module _ {I : Type 0} {v : Vecs} {n : ℕ} where
  -- A request for a buffer is met by a free one, else by that of the oldest transfer of the least
  -- urgent priority that has one, where that is no more urgent than the request. Else all that wait
  -- are more urgent, and nothing changes.
  pub data Granted (t : TransferQueue I v n) (m : Spec (TransferEntry I)) (p : Priority)
      (t' : TransferQueue I v n) : Option ℕ → Type 0 where
    spare :
        (idx : ℕ) (rest : List ℕ)
        → v.contents n t.free_buffers ≡ idx ∷ rest
        → v.contents n t'.free_buffers ≡ rest
        → Stocked t' m 1
        → Granted t m p t' (some idx)
    displaced :
        (worst : Priority) (entry : TransferEntry I) (rest : List (TransferEntry I))
        → v.contents n t.free_buffers ≡ []
        → m.lists worst ≡ entry ∷ rest
        → ((q : Priority) → occupied (m.lists q) ≡ true → le q worst ≡ true)
        → le p worst ≡ true
        → t'.free_buffers ≡ t.free_buffers
        → Stocked t' (taken m worst rest) 1
        → Granted t m p t' (some entry.buffer_idx)
    refused :
        v.contents n t.free_buffers ≡ []
        → ((q : Priority) → occupied (m.lists q) ≡ true → le p q ≡ false)
        → t' ≡ t
        → Granted t m p t' none

  module _ (law : IsStack v) (t : TransferQueue I v n) (m : Spec (TransferEntry I)) where
    abbrev set_of : PrioritySet
    set_of = t.queue.priority_set

    waits_lem : Stocked t m 0 → (q : Priority) → contains set_of q ≡ occupied (m.lists q)
    waits_lem h = h.holds.marks

    -- With no free buffer some transfer waits.
    worst_of :
        1 ≤ n
        → Stocked t m 0
        → v.contents n t.free_buffers ≡ []
        → (w : Priority) × (max_priority_of t.queue ≡ some w)
    worst_of hn h nil = elim (Option-cases (last set_of)) [
      | inr (w, found) ↦ (w, found)
      | inl missing ↦
          let void = last-none set_of h.holds.small missing in
          let b = h.balance in
          absurd (
            omega (
              arith,
              b,
              h.whole,
              hn,
              ap length nil,
              total-none m.lists
                  (λ q. sym (waits_lem h q) ∙ ap (λ s. contains s q) void ∙ contains-none q),
            ))
    ]

    -- Where the bounded vectors behave as stacks, on a transfer queue for at least one transfer
    -- that stands for lists of transfers and whose free buffers are as many as its free entries,
    -- `allocate_buffer` does not panic. It gives a free buffer if there is one; else that of the
    -- oldest transfer of the least urgent priority that has one, which it drops, where that is no
    -- more urgent than the request; else none, where all that wait are more urgent. A buffer that
    -- it gives is the only one that is then neither free nor waiting.
    pub allocate_buffer-Granted :
        (p : Priority)
        → 1 ≤ n
        → Stocked t m 0
        → (t' : TransferQueue I v n) × (r : Option ℕ) × (allocate_buffer t p ≡ some (t', r))
          × Granted t m p t' r
    unfolding allocate_buffer
    allocate_buffer-Granted p hn h = elim (list_cases (v.contents n t.free_buffers)) [
      | inr (idx, rest, have) ↦
          let b = h.balance in
          let (free, e, left) = law.pop_cons n t.free_buffers idx rest have in
          (
            record t { free_buffers = free },
            some idx,
            rw (allocate_buffer, e),
            spare idx rest have left (record {
              holds = h.holds;
              balance = omega (arith, b, ap length have, ap length left);
              whole = h.whole;
            }),
          )
      | inl nil ↦
          let e = law.pop_nil n t.free_buffers nil in
          let (w, found) = worst_of hn h nil in
          let within : (q : Priority) → occupied (m.lists q) ≡ true → le q w ≡ true =
            λ q o. (last-some set_of w q h.holds.small found).1 (waits_lem h q ∙ o) in
          let member = sym (waits_lem h w) ∙ (last-some set_of w w h.holds.small found).0 in
          let (entry, rest, have) = occupied-cons (m.lists w) member in
          elim (Bool-cases (le p w)) [
            | inl yields ↦
                let (q', e', stocked) = take-Stocked law t m w entry rest have h in
                (
                  record t { queue = q' },
                  some entry.buffer_idx,
                  rw (allocate_buffer, e, found, yields, e'),
                  displaced w entry rest nil have within yields refl stocked,
                )
            | inr stays ↦ (
              t,
              none,
              rw (allocate_buffer, e, found, stays),
              refused nil (λ q o. ground (arith, within q o, stays)) refl,
            )
          ]
    ]

  -- The reader is handed the oldest transfer of the most urgent priority of the mask that has one.
  pub data Handed (t : TransferQueue I v n) (m : Spec (TransferEntry I)) (mask : PrioritySet)
      (t' : TransferQueue I v n) : Option (Priority × TransferEntry I) → Type 0 where
    handed :
        (p : Priority) (entry : TransferEntry I) (rest : List (TransferEntry I))
        → contains mask p ≡ true
        → m.lists p ≡ entry ∷ rest
        → ((q : Priority) → contains mask q ≡ true → occupied (m.lists q) ≡ true → le p q ≡ true)
        → t'.free_buffers ≡ t.free_buffers
        → Stocked t' (taken m p rest) 1
        → Handed t m mask t' (some (p, entry))
    nothing :
        ((q : Priority) → contains mask q ≡ true → occupied (m.lists q) ≡ false)
        → t' ≡ t
        → Handed t m mask t' none

  module _ (law : IsStack v) (t : TransferQueue I v n) (m : Spec (TransferEntry I))
      (mask : PrioritySet) where
    abbrev eligible : PrioritySet
    eligible = intersection t.queue.priority_set mask

    eligible_lem :
        Stocked t m 0
        → (q : Priority) → contains eligible q ≡ (occupied (m.lists q) && contains mask q)
    eligible_lem h q =
        ground (arith, contains-intersection t.queue.priority_set mask q, h.holds.marks q)

    -- `pop` does not panic, and the outcome is the one that `Handed` names.
    pub pop-Handed :
        Stocked t m 0
        → (t' : TransferQueue I v n) × (r : Option (Priority × TransferEntry I)) × (pop t mask
            ≡ some (t', r))
          × Handed t m mask t' r
    unfolding pop
    pop-Handed h =
        let small = intersection-lt t.queue.priority_set mask h.holds.small in
        elim (Option-cases (first eligible)) [
          | inl missing ↦
              let void = first-none eligible small missing in
              (
                t,
                none,
                rw (pop, missing),
                nothing
                    (λ q member.
                      let out = ap (λ s. contains s q) void ∙ contains-none q in
                      ground (arith, eligible_lem h q, member, out))
                    refl,
              )
          | inr (p, found) ↦
              let member = (first-some eligible p p small found).0 in
              let waiting : occupied (m.lists p) ≡ true =
                ground (arith, eligible_lem h p, member) in
              let (entry, rest, have) = occupied-cons (m.lists p) waiting in
              let (q', e', stocked) = take-Stocked law t m p entry rest have h in
              (
                record t { queue = q' },
                some (p, entry),
                rw (pop, found, e'),
                handed p entry rest (ground (arith, eligible_lem h p, member)) have
                    (λ q inside o.
                      (first-some eligible p q small found).1
                        (ground (arith, eligible_lem h q, inside, o)))
                    refl stocked,
              )
        ]
