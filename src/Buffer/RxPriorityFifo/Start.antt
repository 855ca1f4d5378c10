-- ===== src/Buffer/RxPriorityFifo/Start.antt =====
-- emcyphal/src/buffer/rx_priority_fifo.rs, `new`: the buffer of a receiver at its start.
use emcyphal.Common.{
  none, ℕ, zero, suc, ◌+◌, ◌≤◌, ◌≡◌, refl, ap, ◌∙◌, true, ◌&&◌, List, [], ◌∷◌, some, ◌==◌, ==_refl,
  ltb, lt→ltb, leb, if◌then◌else◌, arith, length,
}
use mathlib.Core.List.{reverse, reverse-cons}
use emcyphal.Buffer.Owned.{count, count-append}
use emcyphal.Buffer.Types.{range}
use emcyphal.External.{Platform, IsStack}
use emcyphal.Frame.{DataSpecifier}
use emcyphal.Utils.IndexQueue
use emcyphal.Utils.IndexQueue.{IndexQueue}
use emcyphal.Utils.MultiClassQueue.Fill.{fill-Shows}
use emcyphal.Utils.DuplexArray.{from_fn, repeat}
use emcyphal.Utils.IndexQueue.Insert.{get_index_lem}
use emcyphal.Utils.MultiClassQueue.Shows.{new-Shows, front_lem, head}
use emcyphal.Utils.MultiClassQueue.Writes.{bind_lem}
use emcyphal.Utils.PriorityTrigger
use emcyphal.Utils.PriorityQueue.Holds.{empty_spec}
use emcyphal.Buffer.RxPriorityFifo.{Inner, new}
use emcyphal.Buffer.RxPriorityFifo.Stock.{new-Stocked}
use emcyphal.Buffer.RxPriorityFifo.Ledger.{Kept}

count-range :
    (k base n : ℕ) → count k (range base n) ≡ (if leb base k && ltb k (base + n) then 1 else 0)
count-range k base zero = ground arith
count-range k base (suc n) = ground (arith, count-range k (base + 1) n)

count-reverse : (k : ℕ) (xs : List ℕ) → count k (reverse xs) ≡ count k xs
count-reverse k [] = refl
count-reverse k (x ∷ xs) = omega (
  arith,
  ap (count k) (reverse-cons x xs),
  count-append k (reverse xs) (x ∷ []),
  count-reverse k xs,
)

-- A map without a key, and with an empty queue.
pub record IsVacant {V : Type 0} {k_max n : ℕ} (s : IndexQueue V k_max n) : Type 0 where
  pub missing : (key : ℕ) → key ≤ k_max → IndexQueue.get_index s key ≡ some none
  pub no_front : IndexQueue.front s ≡ some none

new-IsVacant :
    {V : Type 0} (k_max n : ℕ)
    → IndexQueue.class_count + n ≤ 256
    → (s : IndexQueue V k_max n) × (IndexQueue.new ≡ some s) × IsVacant s
unfolding IndexQueue.new IndexQueue.front
new-IsVacant {V = V} k_max n fits =
    let (q, e, v) = new-Shows IndexQueue.class_count n (omega arith) fits in
    let (q', cs, e', v', f) =
      fill-Shows IndexQueue.class_count n IndexQueue.free_class q (omega arith) v in
    let made : IndexQueue V k_max n = record {
      keys = from_fn n 0 (λ i. none);
      values = from_fn n 0 (λ i. none);
      index = repeat 1 k_max IndexQueue.no_entry;
      queue = q';
    } in
    (
      made,
      bind_lem _ e ∙ bind_lem _ e',
      record {
        missing = λ key h.
            get_index_lem made key
              (record { keys = omega arith; values = omega arith; index = refl }) h;
        no_front = bind_lem _ (
            front_lem IndexQueue.class_count n q' cs v' IndexQueue.queue_class (omega arith)
            ∙ ap (λ l. some (head l)) (f.others IndexQueue.queue_class (λ g. omega (arith, g))));
      },
    )

module _ (p : Platform) (sn tn : ℕ) where
  -- With at most 128 sessions and at most 127 waiting transfers, and a buffer for each of them
  -- and one for the reader, `new` does not panic. In the state that it gives there is no
  -- session, no transfer waits and there is room for `tn`, the free buffers are as many, and no
  -- buffer is held twice among the free ones and the reader's.
  pub new-Kept :
      (law : IsStack p.vecs) (spec : DataSpecifier) (timeout : p.clock.Duration)
      (buffers : List (List ℕ))
      → sn ≤ 128
      → tn ≤ 127
      → length buffers ≡ sn + tn + 1
      → (s : Inner p sn tn) × (new p sn tn spec timeout buffers ≡ some s)
        × Kept s (empty_spec tn)
        × IsVacant s.sessions
  unfolding new
  new-Kept law spec timeout buffers few_sessions few size =
      let guard : (length buffers == sn + tn + 1 && (ltb sn 256 && ltb (sn + tn) 256)) ≡ true =
        ground (
          arith,
          size,
          few_sessions,
          few,
          lt→ltb sn 256,
          lt→ltb (sn + tn) 256,
          ==_refl (sn + tn + 1),
        ) in
      let bytes : sn + tn ≤ 256 = omega (arith, few_sessions, few) in
      let fits : 9 + tn ≤ 256 = omega (arith, few) in
      let (sessions, e, vacant) = new-IsVacant 127 sn (omega (arith, few_sessions)) in
      let (transfers, e', order, stocked) = new-Stocked sn law bytes fits in
      let held : (k : ℕ)
          → count k (p.vecs.contents tn transfers.free_buffers)
            ≡ (if leb sn k && ltb k (sn + tn) then 1 else 0) =
        λ k. ap (count k) order ∙ count-reverse k (range sn tn) ∙ count-range k sn tn in
      (
        record {
          data_specifier = spec;
          buffers = buffers;
          sessions = sessions;
          session_buffer_base = 0;
          transfers = transfers;
          readout_buffer_idx = sn + tn;
          timeout = timeout;
          priority_trigger = PriorityTrigger.new p.wakers;
        },
        rw (new, guard) (bind_lem _ e ∙ bind_lem _ e'),
        record {
          stocked = stocked;
          once = λ k. ground (arith, held k);
          inside = λ k used. ground (arith, held k, size, used);
          legible = λ q. tt;
        },
        vacant,
      )
