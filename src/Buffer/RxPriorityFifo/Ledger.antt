-- ===== src/Buffer/RxPriorityFifo/Ledger.antt =====
-- emcyphal/src/buffer/rx_priority_fifo.rs: who holds which buffer of a receiver, and what the waiting
-- transfers are read as.
use emcyphal.Common.{
  ℕ, ◌+◌, ◌<◌, ◌≤◌, ◌≡◌, sym, ◌∙◌, inl, inr, Bool-cases, List, [], ◌∷◌, ◌++◌, some, ◌==◌,
  if◌then◌else◌, arith, length, set, get_elem?, get_elem?-set_ne,
}
use mathlib.Core.Path.{subst}
use emcyphal.Buffer.Owned.{count}
use emcyphal.Core.Priority.{Priority, eq}
use emcyphal.External.{Platform}
use emcyphal.Utils.PriorityQueue.Spec.{Spec, Lists, with_list}
use emcyphal.Buffer.RxPriorityFifo.{Inner}
use emcyphal.Buffer.RxPriorityFifo.Transfers.{TransferEntry}
use emcyphal.Buffer.RxPriorityFifo.Stock.{Stocked, sum_of}

-- What holds of the lists of all priorities once the list of one is replaced.
pub with_list-all :
    {V : Type 0} (P : List V → Type 0) (l : Lists V) (p : Priority) (vs : List V)
    → P vs
    → ((q : Priority) → P (l q))
    → (q : Priority) → P (with_list l p vs q)
with_list-all P l p vs here all q = elim (Bool-cases (eq p q)) [
  | inl same ↦ subst (λ b. P (if b then vs else l q)) (sym same) here
  | inr other ↦ subst (λ b. P (if b then vs else l q)) (sym other) (all q)
]

module _ {I : Type 0} where
  abbrev pub idxs : List (TransferEntry I) → List ℕ
  idxs [] = []
  idxs (e ∷ es) = e.buffer_idx ∷ idxs es

  -- The occurrences of a buffer in a list of transfers, and in those of all priorities.
  abbrev pub uses : ℕ → List (TransferEntry I) → ℕ
  uses k es = count k (idxs es)

  abbrev pub all_uses : ℕ → Lists (TransferEntry I) → ℕ
  all_uses k l = sum_of (uses k) l

  pub uses-append :
      (k : ℕ) (es fs : List (TransferEntry I)) → uses k (es ++ fs) ≡ uses k es + uses k fs
  uses-append k [] fs = omega arith
  uses-append k (e ∷ es) fs = omega (arith, uses-append k es fs)

  -- Each transfer's bytes are in its buffer.
  abbrev pub Legible : List (List ℕ) → List (TransferEntry I) → Type 0
  Legible buffers [] = Unit {0}
  Legible buffers (e ∷ es) =
      ((b : List ℕ) × (get_elem? buffers e.buffer_idx ≡ some b) × (e.buffer_length ≤ length b))
      × Legible buffers es

  pub Legible-append :
      (buffers : List (List ℕ)) (es fs : List (TransferEntry I))
      → Legible buffers es
      → Legible buffers fs
      → Legible buffers (es ++ fs)
  Legible-append buffers [] fs h k = k
  Legible-append buffers (e ∷ es) fs h k = (h.0, Legible-append buffers es fs h.1 k)

  -- A write to a buffer that none of them has.
  pub Legible-set :
      (buffers : List (List ℕ)) (idx : ℕ) (b : List ℕ) (es : List (TransferEntry I))
      → uses idx es ≡ 0
      → Legible buffers es
      → Legible (set buffers idx b) es
  Legible-set buffers idx b [] z h = h
  Legible-set buffers idx b (e ∷ es) z ((c, at, fits), h) = (
    (c, get_elem?-set_ne buffers idx e.buffer_idx b (λ same. ground (arith, z, same)) ∙ at, fits),
    Legible-set buffers idx b es (omega (arith, z)) h,
  )

module _ {p : Platform} {sn tn : ℕ} where
  -- How often a buffer is held by the reader, as a free one, and by the waiting transfers.
  abbrev pub holders : Inner p sn tn → Spec (TransferEntry p.clock.Instant) → ℕ → ℕ
  holders s m k =
      (if s.readout_buffer_idx == k then 1 else 0)
      + (count k (p.vecs.contents tn s.transfers.free_buffers) + all_uses k m.lists)

  -- The buffer stands for lists of transfers, and nobody else holds what one of them, the reader or
  -- the free list does.
  pub record Kept (s : Inner p sn tn) (m : Spec (TransferEntry p.clock.Instant)) : Type 0 where
    pub stocked : Stocked s.transfers m 0
    pub once : (k : ℕ) → holders s m k ≤ 1
    pub inside : (k : ℕ) → 1 ≤ holders s m k → k < length s.buffers
    pub legible : (q : Priority) → Legible s.buffers (m.lists q)
