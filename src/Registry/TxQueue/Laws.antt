-- ===== src/Registry/TxQueue/Laws.antt =====
-- emcyphal/src/registry/tx_queue.rs, `reg_update_queue_position`: an entry goes where it belongs.
use emcyphal.Common.{
  ℕ, ◌≡◌, refl, sym, ap, ◌∙◌, true, false, Option, none, some, [], ◌∷◌, ◌++◌, ◌==◌, if◌then◌else◌,
  arith, ==_iff, inl, inr, Bool-cases, Option-cases, some_unique,
}
use mathlib.Core.Path.{subst}
use emcyphal.Core.PrioritySet.{new_eq}
use emcyphal.Utils.PriorityTrigger
use emcyphal.Registry.TxQueue.Order.{without}
use emcyphal.Registry.TxQueue.Place.{Stands, target-Stands}
use emcyphal.External.{IsLinkedList}
use emcyphal.Registry.TxQueue.{
  Parts, QueueId, Entries, TxQueue, id_eq, marked, set_mark, target, reg_update_queue_position,
}
use emcyphal.Registry.TxQueue.Lists.{held_by, IsValid, listed, dequeue-IsValid}
use emcyphal.Registry.TxQueue.Back.{remarked, remarked-set, move_back-IsValid}

module _ (p : Parts) where
  -- What an update does to an entry whose mark is to be `mark`.
  pub record Updated (s : TxQueue p) (ptr : ℕ) (mark : Option QueueId) (s' : TxQueue p)
      : Type 0 where
    pub valid : IsValid p s'.queues s'.entries
    pub entries : (k : ℕ) → s'.entries k ≡ set_mark p s.entries ptr mark k
    pub stays :
        (id : QueueId) → mark ≡ some id → marked (s.entries ptr).queue_mark id ≡ true → s' ≡ s
    pub leaves :
        mark ≡ none → (b : QueueId) → listed p s'.queues b ≡ without ptr (listed p s.queues b)
    pub moves :
        (id : QueueId)
        → mark ≡ some id
        → marked (s.entries ptr).queue_mark id ≡ false
        → (b : QueueId)
        → listed p s'.queues b
          ≡ without ptr (listed p s.queues b) ++ (if id_eq id b then ptr ∷ [] else [])
    pub wakes :
        (id : QueueId)
        → mark ≡ some id
        → marked (s.entries ptr).queue_mark id ≡ false
        → s'.non_empty_trigger ≡ PriorityTrigger.wake p.wakers s.non_empty_trigger (new_eq (id.0))

  module _ (linked : IsLinkedList p.lists) where
    kept :
        (entries : Entries p) (ptr k : ℕ)
        → entries k ≡ set_mark p entries ptr (entries ptr).queue_mark k
    kept entries ptr k = elim (Bool-cases (ptr == k)) [
      | inl same ↦ rw same (ap entries (sym ((==_iff ptr k).0 same)))
      | inr other ↦ rw other refl
    ]

    update-target :
        (s : TxQueue p) (ptr : ℕ)
        → IsValid p s.queues s.entries
        → (s' : TxQueue p) × (reg_update_queue_position p s ptr ≡ some s')
          × Updated s ptr (target p (s.entries ptr)) s'
    unfolding reg_update_queue_position
    update-target s ptr v = elim (Option-cases (target p (s.entries ptr))) [
      | inl nothing ↦
          let (q, e, v', order) = dequeue-IsValid p linked s.queues s.entries ptr v in
          (
            record s { queues = q; entries = set_mark p s.entries ptr none },
            rw (reg_update_queue_position, nothing, e),
            record {
              valid = v';
              entries = λ k. ap (λ t. set_mark p s.entries ptr t k) (sym nothing);
              stays = λ id w held. absurd (ground (arith, nothing, w));
              leaves = λ w. order;
              moves = λ id w held. absurd (ground (arith, nothing, w));
              wakes = λ id w held. absurd (ground (arith, nothing, w));
            },
          )
      | inr (id, wanted) ↦
          let same : (b : QueueId) → target p (s.entries ptr) ≡ some b → id ≡ b =
            λ b w. some_unique refl (sym wanted ∙ w) in
          elim (Bool-cases (marked (s.entries ptr).queue_mark id)) [
            | inl there ↦ (
              s,
              rw (reg_update_queue_position, wanted, there),
              record {
                valid = v;
                entries = λ k.
                    kept s.entries ptr k
                    ∙ ap (λ t. set_mark p s.entries ptr t k) (held_by _ id there ∙ sym wanted);
                stays = λ b w held. refl;
                leaves = λ w. absurd (ground (arith, wanted, w));
                moves = λ b w off.
                    let c = ap (marked (s.entries ptr).queue_mark) (same b w) in
                    absurd (ground (arith, c, there, off));
                wakes = λ b w off.
                    let c = ap (marked (s.entries ptr).queue_mark) (same b w) in
                    absurd (ground (arith, c, there, off));
              },
            )
            | inr elsewhere ↦
                let (q, e, v', last) = move_back-IsValid p linked s.queues s.entries id ptr v in
                (
                  record {
                    queues = q;
                    entries = remarked p linked s.entries ptr id;
                    non_empty_trigger =
                        PriorityTrigger.wake p.wakers s.non_empty_trigger (new_eq (id.0));
                  },
                  rw (reg_update_queue_position, wanted, elsewhere, e),
                  record {
                    valid = v';
                    entries = λ k.
                        remarked-set p linked s.entries ptr k id
                        ∙ ap (λ t. set_mark p s.entries ptr t k) (sym wanted);
                    stays = λ b w held.
                        let c = ap (marked (s.entries ptr).queue_mark) (same b w) in
                        absurd (ground (arith, c, elsewhere, held));
                    leaves = λ w. absurd (ground (arith, wanted, w));
                    moves = λ c w off.
                        subst
                          (λ t.
                            (b : QueueId)
                            → listed p q b
                              ≡ without ptr (listed p s.queues b)
                                ++ (if id_eq t b then ptr ∷ [] else []))
                          (same c w) last;
                    wakes = λ c w off.
                        ap (λ t. PriorityTrigger.wake p.wakers s.non_empty_trigger (new_eq (t.0)))
                          (same c w);
                  },
                )
          ]
    ]

    -- Where the linked lists behave as lists, on a queue whose lists, marks and flags agree, an
    -- update of an entry does not fail and keeps that. Afterwards the entry has the mark of the
    -- list where it belongs: none when its buffer has nothing to send, else a list of the most
    -- urgent priority that is ready, that of the started transfers exactly if the started set has
    -- the priority. An entry that is in this list already leaves the queue unchanged; another
    -- leaves the list that it is in and becomes the last of this one, if any, and those that wait
    -- for a frame of its priority are woken. The other entries are unchanged, and keep their order
    -- in the lists.
    pub reg_update_queue_position-IsValid :
        (s : TxQueue p) (ptr : ℕ)
        → IsValid p s.queues s.entries
        → (s' : TxQueue p) × (mark : Option QueueId) × (reg_update_queue_position p s ptr ≡ some s')
          × Stands p (s.entries ptr) mark
          × Updated s ptr mark s'
    reg_update_queue_position-IsValid s ptr v =
        let (s', e, u) = update-target s ptr v in
        (s', target p (s.entries ptr), e, target-Stands p (s.entries ptr), u)
