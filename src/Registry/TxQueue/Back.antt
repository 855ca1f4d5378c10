-- ===== src/Registry/TxQueue/Back.antt =====
-- emcyphal/src/registry/tx_queue.rs, `move_back`: an entry goes to the end of a list.
use emcyphal.Common.{
  ==_refl, append-nil, length-append, ℕ, ◌+◌, ◌≡◌, refl, sym, ap, ◌∙◌, true, not, ◌||◌, none, some,
  [], ◌∷◌, ◌++◌, ◌==◌, if◌then◌else◌, arith, length, ==_iff, inl, inr, Bool-cases,
}
use emcyphal.Registry.TxQueue.Order.{without}
use emcyphal.External.{IsLinkedList}
use emcyphal.Buffer.Owned.{count, count-append}
use emcyphal.Registry.TxQueue.{
  Parts, QueueId, Entry, Queues, Entries, id_eq, marked, get_queue, set_queue, clear_empty_flag,
  set_mark, move_back,
}
use emcyphal.Registry.TxQueue.Marks.{
  flag, id_eq_sound, get-clear_empty_flag, flag-set_queue, flag-clear_empty_flag,
  set_queue-AreBytes, clear_empty_flag-AreBytes,
}
use emcyphal.Registry.TxQueue.Lists.{IsValid, listed, listed-set_queue, marked-set, dequeue-IsValid}

module _ (p : Parts) where
  module _ (linked : IsLinkedList p.lists) where
    -- The queues with an element added at the back of the list of `id`.
    abbrev added : Queues p → QueueId → ℕ → Queues p
    added q id ptr =
        clear_empty_flag p (set_queue p q id (p.lists.push_back (get_queue p q id) ptr)) id

    listed-added :
        (q : Queues p) (id b : QueueId) (ptr : ℕ)
        → listed p (added q id ptr) b
          ≡ (if id_eq id b then listed p q id ++ (ptr ∷ []) else listed p q b)
    listed-added q id b ptr =
        let l = p.lists.push_back (get_queue p q id) ptr in
        ap p.lists.contents (get-clear_empty_flag p (set_queue p q id l) id b)
        ∙ listed-set_queue p linked q id b l
        ∙ ap (λ t. if id_eq id b then t else listed p q b)
            (linked.push_back_lem (get_queue p q id) ptr)

    added-IsValid :
        (q : Queues p) (entries : Entries p) (id : QueueId) (ptr : ℕ)
        → IsValid p q entries
        → (entries ptr).queue_mark ≡ none
        → IsValid p (added q id ptr) (set_mark p entries ptr (some id))
    added-IsValid q entries id ptr v absent = record {
      exact = exact;
      flags = flags;
      bytes =
          let l = p.lists.push_back (get_queue p q id) ptr in
          clear_empty_flag-AreBytes p (set_queue p q id l) id (set_queue-AreBytes p q id l v.bytes);
    }
      where
        longer :
            (k : ℕ)
            → count k (listed p q id ++ (ptr ∷ []))
              ≡ count k (listed p q id) + (if ptr == k then 1 else 0)
        longer k = count-append k (listed p q id) (ptr ∷ []) ∙ omega arith

        nowhere : (b : QueueId) (k : ℕ) → (ptr == k) ≡ true → count k (listed p q b) ≡ 0
        nowhere b k same =
            v.exact b k
            ∙ ap (λ t. if marked (entries t).queue_mark b then 1 else 0)
                (sym ((==_iff ptr k).0 same))
            ∙ ap (λ t. if marked t b then 1 else 0) absent

        exact :
            (b : QueueId) (k : ℕ)
            → count k (listed p (added q id ptr) b)
              ≡ (if marked (set_mark p entries ptr (some id) k).queue_mark b then 1 else 0)
        exact b k =
            let m = marked-set p linked entries ptr k (some id) b in
            let g = listed-added q id b ptr in
            let old = v.exact b k in
            let goal : count k (if id_eq id b then listed p q id ++ (ptr ∷ []) else listed p q b)
                ≡ (if (if ptr == k then id_eq id b else marked (entries k).queue_mark b)
                    then 1
                    else 0) =
              elim (Bool-cases (id_eq id b)) [
                | inl here ↦
                    let c = ap (λ t. count k (listed p q t)) (id_eq_sound id b here) in
                    ap (λ t. count k (if t then listed p q id ++ (ptr ∷ []) else listed p q b)) here
                    ∙ elim (Bool-cases (ptr == k)) [
                      | inl at ↦
                          ground (arith, at, nowhere b k at, c, longer k)
                          ∙ sym (
                              ap
                                (λ t.
                                  if (if ptr == k then t else marked (entries k).queue_mark b)
                                  then 1
                                  else 0)
                                here)
                      | inr off ↦ ground (arith, off, c, old, longer k)
                    ]
                | inr there ↦
                    ap (λ t. count k (if t then listed p q id ++ (ptr ∷ []) else listed p q b))
                      there
                    ∙ elim (Bool-cases (ptr == k)) [
                      | inl at ↦
                          ground (arith, at, nowhere b k at)
                          ∙ sym (
                              ap
                                (λ t.
                                  if (if ptr == k then t else marked (entries k).queue_mark b)
                                  then 1
                                  else 0)
                                there)
                      | inr off ↦ ground (arith, off, old)
                    ]
              ] in
            ap (count k) g ∙ goal ∙ ap (λ t. if t then 1 else 0) (sym m)

        flags :
            (b : QueueId)
            → flag p (added q id ptr) b ≡ not (length (listed p (added q id ptr) b) == 0)
        flags b =
            let l = p.lists.push_back (get_queue p q id) ptr in
            let f =
              flag-clear_empty_flag p (set_queue p q id l) id b
                (set_queue-AreBytes p q id l v.bytes) in
            let h = flag-set_queue p q id b l in
            let g = listed-added q id b ptr in
            let grown = length-append (listed p q id) (ptr ∷ []) in
            let goal : (id_eq id b || flag p q b)
                ≡ not (
                    length (if id_eq id b then listed p q id ++ (ptr ∷ []) else listed p q b)
                    == 0) =
              elim (Bool-cases (id_eq id b)) [
                | inl here ↦
                    ap (λ t. t || flag p q b) here
                    ∙ ground (arith, grown)
                    ∙ sym (
                        ap
                          (λ t.
                            not (
                              length (if t then listed p q id ++ (ptr ∷ []) else listed p q b)
                              == 0))
                          here)
                | inr there ↦
                    ap (λ t. t || flag p q b) there
                    ∙ v.flags b
                    ∙ sym (
                        ap
                          (λ t.
                            not (
                              length (if t then listed p q id ++ (ptr ∷ []) else listed p q b)
                              == 0))
                          there)
              ] in
            f ∙ ap (λ t. id_eq id b || t) h ∙ goal ∙ ap (λ t. not (length t == 0)) (sym g)

    -- The store after `move_back`, which clears the mark before it sets it.
    abbrev pub remarked : Entries p → ℕ → QueueId → Entries p
    remarked entries ptr id = set_mark p (set_mark p entries ptr none) ptr (some id)

    -- An entry is moved to the back of a list: nothing fails, only its mark changes, it becomes the
    -- last element of that list, and the others keep their order.
    pub move_back-IsValid :
        (q : Queues p) (entries : Entries p) (id : QueueId) (ptr : ℕ)
        → IsValid p q entries
        → (q' : Queues p) × (move_back p q entries id ptr ≡ some (q', remarked entries ptr id))
          × IsValid p q' (remarked entries ptr id)
          × ((b : QueueId)
              → listed p q' b ≡ without ptr (listed p q b) ++ (if id_eq id b then ptr ∷ [] else []))
    unfolding move_back
    move_back-IsValid q entries id ptr v =
        let (q', e, v', order) = dequeue-IsValid p linked q entries ptr v in
        let unmarked : (set_mark p entries ptr none ptr).queue_mark ≡ none =
          ap
            (λ t.
              (if t then record (entries ptr) { queue_mark = none } else entries ptr).queue_mark)
            (==_refl ptr) in
        (
          added q' id ptr,
          rw (move_back, e),
          added-IsValid q' (set_mark p entries ptr none) id ptr v' unmarked,
          λ b. listed-added q' id b ptr ∙ elim (Bool-cases (id_eq id b)) [
            | inl here ↦
                ap (λ t. if t then listed p q' id ++ (ptr ∷ []) else listed p q' b) here
                ∙ ap (λ l. l ++ (ptr ∷ [])) (ap (listed p q') (id_eq_sound id b here) ∙ order b)
                ∙ sym (ap (λ t. without ptr (listed p q b) ++ (if t then ptr ∷ [] else [])) here)
            | inr there ↦
                ap (λ t. if t then listed p q' id ++ (ptr ∷ []) else listed p q' b) there
                ∙ order b
                ∙ sym (append-nil (without ptr (listed p q b)))
                ∙ sym (ap (λ t. without ptr (listed p q b) ++ (if t then ptr ∷ [] else [])) there)
          ],
        )

    pub remarked-set :
        (entries : Entries p) (ptr k : ℕ) (id : QueueId)
        → remarked entries ptr id k ≡ set_mark p entries ptr (some id) k
    remarked-set entries ptr k id =
        let again : set_mark p entries ptr none ptr ≡ record (entries ptr) { queue_mark = none } =
          ap (λ t. if t then record (entries ptr) { queue_mark = none } else entries ptr)
            (==_refl ptr) in
        elim (Bool-cases (ptr == k)) [
          | inl same ↦ rw same (ap (λ (t : Entry p). record t { queue_mark = some id }) again)
          | inr other ↦ rw other refl
        ]
