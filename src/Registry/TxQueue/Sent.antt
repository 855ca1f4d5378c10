-- ===== src/Registry/TxQueue/Sent.antt =====
-- emcyphal/src/registry/tx_queue.rs: an entry after a frame of its buffer is sent.
use emcyphal.Common.{
  ℕ, ◌≡◌, refl, sym, ap, ◌∙◌, Bool, true, false, none, some, ◌==◌, ==_refl, if◌then◌else◌, arith,
  ==_iff, inl, inr, Bool-cases,
}
use emcyphal.Core.Priority.{Priority}
use emcyphal.Core.PrioritySet
use emcyphal.Core.PrioritySet.{PrioritySet, contains, new_eq, first, union, intersection}
use emcyphal.External.{IsLinkedList}
use emcyphal.Registry.TxQueue.{
  Parts, Entry, Queues, Entries, TxQueue, marked, set_mark, assign, sent,
}
use emcyphal.Registry.TxQueue.Lists.{IsValid, dequeue-IsValid}

module _ (p : Parts) where
  -- Marks alone decide whether lists and entries agree.
  pub IsValid-marks :
      (q : Queues p) (a b : Entries p)
      → ((k : ℕ) → (b k).queue_mark ≡ (a k).queue_mark)
      → IsValid p q a
      → IsValid p q b
  IsValid-marks q a b same v = record {
    exact = λ id k. v.exact id k ∙ ap (λ t. if marked t id then 1 else 0) (sym (same k));
    flags = v.flags;
    bytes = v.bytes;
  }

  pub assign-mark :
      (entries : Entries p) (ptr k : ℕ) (entry : Entry p)
      → entry.queue_mark ≡ (entries ptr).queue_mark
      → (assign p entries ptr entry k).queue_mark ≡ (entries k).queue_mark
  assign-mark entries ptr k entry same = elim (Bool-cases (ptr == k)) [
    | inl at ↦ rw at (same ∙ ap (λ t. (entries t).queue_mark) ((==_iff ptr k).0 at))
    | inr off ↦ rw off refl
  ]

  pub assign-buffer :
      (entries : Entries p) (ptr k : ℕ) (entry : Entry p)
      → entry.buffer ≡ (entries ptr).buffer
      → (assign p entries ptr entry k).buffer ≡ (entries k).buffer
  assign-buffer entries ptr k entry same = elim (Bool-cases (ptr == k)) [
    | inl at ↦ rw at (same ∙ ap (λ t. (entries t).buffer) ((==_iff ptr k).0 at))
    | inr off ↦ rw off refl
  ]

  pub assign-other :
      (entries : Entries p) (ptr k : ℕ) (entry : Entry p)
      → (ptr == k) ≡ false
      → assign p entries ptr entry k ≡ entries k
  assign-other entries ptr k entry off = ap (λ t. if t then entry else entries k) off

  pub assign-same :
      (entries : Entries p) (ptr : ℕ) (entry : Entry p) → assign p entries ptr entry ptr ≡ entry
  assign-same entries ptr entry = ap (λ t. if t then entry else entries ptr) (==_refl ptr)

  module _ (linked : IsLinkedList p.lists) where
    pub sent-IsValid :
        (s : TxQueue p) (ptr : ℕ) (priority : Priority) (eot : Bool)
        → IsValid p s.queues s.entries
        → (s' : TxQueue p) × (sent p s ptr priority eot ≡ some s')
          × IsValid p s'.queues s'.entries
          × ((k : ℕ) → (ptr == k) ≡ false → s'.entries k ≡ s.entries k)
          × ((k : ℕ) → (s'.entries k).buffer ≡ (s.entries k).buffer)
          × ((s'.entries ptr).started_set ≡ (
              if eot
              then PrioritySet.remove (s.entries ptr).started_set priority
              else PrioritySet.insert (s.entries ptr).started_set priority))
          × (eot ≡ true → (s'.entries ptr).queue_mark ≡ none)
    unfolding sent
    sent-IsValid s ptr priority true v =
        let entry : Entry p = record (s.entries ptr) {
          started_set = PrioritySet.remove (s.entries ptr).started_set priority;
        } in
        let es : Entries p = assign p s.entries ptr entry in
        let w =
          IsValid-marks s.queues s.entries es (λ k. assign-mark s.entries ptr k entry refl) v in
        let (q, e, v', order) = dequeue-IsValid p linked s.queues es ptr w in
        (
          record s { queues = q; entries = set_mark p es ptr none },
          rw (sent, e),
          v',
          λ k off. assign-other es ptr k _ off ∙ assign-other s.entries ptr k entry off,
          λ k. assign-buffer es ptr k _ refl ∙ assign-buffer s.entries ptr k entry refl,
          ap (λ (t : Entry p). t.started_set)
                (assign-same es ptr (record (es ptr) { queue_mark = none }))
              ∙ ap (λ (t : Entry p). t.started_set) (assign-same s.entries ptr entry),
          λ e.
              ap (λ (t : Entry p). t.queue_mark)
                (assign-same es ptr (record (es ptr) { queue_mark = none })),
        )
    sent-IsValid s ptr priority false v =
        let entry : Entry p = record (s.entries ptr) {
          started_set = PrioritySet.insert (s.entries ptr).started_set priority;
        } in
        let es : Entries p = assign p s.entries ptr entry in
        let w =
          IsValid-marks s.queues s.entries es (λ k. assign-mark s.entries ptr k entry refl) v in
        (
          record s { entries = es },
          refl,
          w,
          λ k off. assign-other s.entries ptr k entry off,
          λ k. assign-buffer s.entries ptr k entry refl,
          ap (λ (t : Entry p). t.started_set) (assign-same s.entries ptr entry),
          λ e. absurd (ground arith),
        )
