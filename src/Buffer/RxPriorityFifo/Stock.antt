-- ===== src/Buffer/RxPriorityFifo/Stock.antt =====
-- emcyphal/src/buffer/rx_priority_fifo.rs, `TransferQueue`: how many buffers it has, and which transfer
-- gives way to another.
use emcyphal.Common.{
  ℕ, zero, suc, ◌+◌, ◌-◌, ◌≤◌, ◌≡◌, refl, ap, true, false, List, [], ◌∷◌, ◌++◌, Option, none, some,
  ◌==◌, if◌then◌else◌, arith, length, length-append, ltb,
}
use mathlib.Core.Path.{subst}
use mathlib.Core.List.{reverse, reverse-cons}
use emcyphal.Core.Priority.{
  Priority, exceptional, immediate, fast, high, nominal, low, slow, optional,
}
use emcyphal.External.{Vecs, IsStack}
use emcyphal.Buffer.Types.{range}
use emcyphal.Utils.MultiClassQueue.Writes.{bind_lem}
use emcyphal.Utils.PriorityQueue
use emcyphal.Utils.PriorityQueue.{
  PriorityQueue, Pushed, accepted, rejected, class_count, max_priority_of,
}
use emcyphal.Utils.PriorityQueue.Spec.{Spec, Lists, with_list, occupied, spec_push, spec_pop}
use emcyphal.Utils.PriorityQueue.Holds.{Holds, new-Holds, empty_spec}
use emcyphal.Utils.PriorityQueue.Does.{Does}
use emcyphal.Utils.PriorityQueue.Push.{push-Does}
use emcyphal.Utils.PriorityQueue.Pop.{pop-Does}
use emcyphal.Buffer.RxPriorityFifo.Transfers.{TransferEntry, TransferQueue, new, free_buffer, push}

length-range : (base k : ℕ) → length (range base k) ≡ k
length-range base zero = refl
length-range base (suc k) = omega (arith, length-range (base + 1) k)

length-reverse : (xs : List ℕ) → length (reverse xs) ≡ length xs
length-reverse [] = refl
length-reverse (x ∷ xs) =
    omega
      (arith, ap length (reverse-cons x xs), length-append (reverse xs) (x ∷ []), length-reverse xs)

module _ {V : Type 0} where
  -- A measure of the lists of all priorities, and the number of their values.
  abbrev pub sum_of : (List V → ℕ) → Lists V → ℕ
  sum_of f l =
      f (l exceptional)
      + f (l immediate)
      + f (l fast)
      + f (l high)
      + f (l nominal)
      + f (l low)
      + f (l slow)
      + f (l optional)

  pub sum_of-with_list :
      (f : List V → ℕ) (l : Lists V) (p : Priority) (vs : List V)
      → sum_of f (with_list l p vs) + f (l p) ≡ sum_of f l + f vs
  sum_of-with_list f l exceptional vs = omega arith
  sum_of-with_list f l immediate vs = omega arith
  sum_of-with_list f l fast vs = omega arith
  sum_of-with_list f l high vs = omega arith
  sum_of-with_list f l nominal vs = omega arith
  sum_of-with_list f l low vs = omega arith
  sum_of-with_list f l slow vs = omega arith
  sum_of-with_list f l optional vs = omega arith

  pub le-sum_of : (f : List V → ℕ) (l : Lists V) (p : Priority) → f (l p) ≤ sum_of f l
  le-sum_of f l exceptional = omega arith
  le-sum_of f l immediate = omega arith
  le-sum_of f l fast = omega arith
  le-sum_of f l high = omega arith
  le-sum_of f l nominal = omega arith
  le-sum_of f l low = omega arith
  le-sum_of f l slow = omega arith
  le-sum_of f l optional = omega arith

  abbrev pub total : Lists V → ℕ
  total = sum_of length

  length-occupied : (vs : List V) → occupied vs ≡ false → length vs ≡ 0
  length-occupied [] h = refl
  length-occupied (v ∷ vs) h = cc

  pub total-none : (l : Lists V) → ((p : Priority) → occupied (l p) ≡ false) → total l ≡ 0
  total-none l h =
      let at = λ (p : Priority). length-occupied (l p) (h p) in
      omega (
        arith,
        at exceptional,
        at immediate,
        at fast,
        at high,
        at nominal,
        at low,
        at slow,
        at optional,
      )

  pub occupied-cons :
      (vs : List V) → occupied vs ≡ true → (v : V) × (rest : List V) × (vs ≡ v ∷ rest)
  occupied-cons [] h = cc
  occupied-cons (v ∷ vs) h = (v, vs, refl)

  -- What is left once the oldest value of a priority is taken, and once one is added.
  abbrev pub taken : Spec V → Priority → List V → Spec V
  taken m p vs = record { room = m.room + 1; lists = with_list m.lists p vs }

  abbrev pub added : Spec V → Priority → V → Spec V
  added m p v = record { room = m.room - 1; lists = with_list m.lists p (m.lists p ++ (v ∷ [])) }

  spec_push-room :
      (m : Spec V) (p : Priority) (v : V) → 1 ≤ m.room → spec_push m p v ≡ (added m p v, accepted)
  unfolding spec_push
  spec_push-room m p v h =
      let spare : (m.room == 0) ≡ false = ground arith in
      ap (λ b. if b then (m, rejected v) else (added m p v, accepted)) spare

  spec_pop-cons :
      (m : Spec V) (p : Priority) (v : V) (vs : List V)
      → m.lists p ≡ v ∷ vs
      → spec_pop m p ≡ (taken m p vs, some v)
  unfolding spec_pop
  spec_pop-cons m p v vs h =
      ap
        (λ l. elim l as (λ _. Spec V × Option V) [
          | [] ↦ (m, none)
          | v ∷ vs ↦ (taken m p vs, some v)
        ])
        h

module _ {I : Type 0} {v : Vecs} {n : ℕ} where
  -- The queue stands for lists of transfers, and `lent` of its buffers are neither free nor in them.
  pub record Stocked (t : TransferQueue I v n) (m : Spec (TransferEntry I)) (lent : ℕ)
      : Type 0 where
    pub holds : Holds t.queue m
    pub balance : length (v.contents n t.free_buffers) + lent ≡ m.room
    pub whole : m.room + total m.lists ≡ n

  module _ (law : IsStack v) (t : TransferQueue I v n) (m : Spec (TransferEntry I)) where
    pub push-Stocked :
        (p : Priority) (entry : TransferEntry I)
        → Stocked t m 1
        → (t' : TransferQueue I v n) × (push t p entry ≡ some (t', accepted))
          × (t'.free_buffers ≡ t.free_buffers)
          × Stocked t' (added m p entry) 0
    unfolding push
    push-Stocked p entry h =
        let b = h.balance in
        let (q', e, w) =
          subst (Does (PriorityQueue.push t.queue p entry))
            (spec_push-room m p entry (omega (arith, b)))
            (push-Does (TransferEntry I) n t.queue m h.holds p entry) in
        (
          record t { queue = q' },
          bind_lem _ e,
          refl,
          record {
            holds = w;
            balance = omega (arith, b);
            whole = omega (
              arith,
              b,
              h.whole,
              sum_of-with_list length m.lists p (m.lists p ++ (entry ∷ [])),
              length-append (m.lists p) (entry ∷ []),
            );
          },
        )

    -- The oldest transfer of a priority is taken.
    pub take-Stocked :
        (p : Priority) (entry : TransferEntry I) (rest : List (TransferEntry I))
        → m.lists p ≡ entry ∷ rest
        → Stocked t m 0
        → (q' : PriorityQueue (TransferEntry I) n) × (PriorityQueue.pop t.queue p
            ≡ some (q', some entry))
          × Stocked (record t { queue = q' }) (taken m p rest) 1
    take-Stocked p entry rest whole h =
        let b = h.balance in
        let (q', e, w) =
          subst (Does (PriorityQueue.pop t.queue p)) (spec_pop-cons m p entry rest whole)
            (pop-Does (TransferEntry I) n t.queue m h.holds p) in
        (
          q',
          e,
          record {
            holds = w;
            balance = omega (arith, b);
            whole =
                omega (arith, b, h.whole, sum_of-with_list length m.lists p rest, ap length whole);
          },
        )

    -- The buffer that is lent comes back.
    pub free_buffer-Stocked :
        (idx : ℕ)
        → Stocked t m 1
        → (t' : TransferQueue I v n) × (free_buffer t idx ≡ some t')
          × (v.contents n t'.free_buffers ≡ idx ∷ v.contents n t.free_buffers)
          × Stocked t' m 0
    unfolding free_buffer
    free_buffer-Stocked idx h =
        let b = h.balance in
        let (free, e, kept) = law.push_room n t.free_buffers idx (omega (arith, b, h.whole)) in
        (
          record t { free_buffers = free },
          bind_lem _ e,
          kept,
          record { holds = h.holds; balance = omega (arith, b, ap length kept); whole = h.whole },
        )

  pub new-Stocked :
      (base : ℕ)
      → IsStack v
      → base + n ≤ 256
      → class_count + n ≤ 256
      → (t : TransferQueue I v n) × (new base ≡ some (some t))
        × (v.contents n t.free_buffers ≡ reverse (range base n))
        × Stocked t (empty_spec n) 0
  unfolding new
  new-Stocked base law bytes fits =
      let size = length-range base n in
      let guard : ltb 256 (base + n) ≡ false = ground (arith, bytes) in
      let fewer : length (range base n) ≤ n = omega (arith, length-range base n) in
      let (q, e, h) = new-Holds n fits in
      let (free, e', order) = law.collect_lem n (range base n) fewer in
      (
        record { queue = q; free_buffers = free },
        rw (new, guard, e, e'),
        order,
        record {
          holds = h;
          balance = omega (arith, size, ap length order, length-reverse (range base n));
          whole = omega arith;
        },
      )
