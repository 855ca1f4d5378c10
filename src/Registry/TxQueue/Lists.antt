-- ===== src/Registry/TxQueue/Lists.antt =====
-- emcyphal/src/registry/tx_queue.rs, `dequeue`: how marks, lists and flags go together when an entry
-- is taken out of its list.
use emcyphal.Common.{
  ==_refl, length-append, ℕ, ◌+◌, ◌≡◌, refl, sym, ap, ◌∙◌, Bool, true, false, not, ◌&&◌, Option,
  none, some, List, ◌∷◌, ◌++◌, ◌==◌, if◌then◌else◌, arith, length, ==_iff, inl, inr, Bool-cases,
  Option-cases,
}
use emcyphal.Registry.TxQueue.Order.{without, without-absent, without-once}
use emcyphal.External.{IsLinkedList}
use emcyphal.Buffer.Owned.{count, count-append, split_at}
use emcyphal.Registry.TxQueue.{
  Parts, QueueId, Queues, Entries, id_eq, marked, get_queue, set_queue, set_empty_flag, set_mark,
  dequeue,
}
use emcyphal.Registry.TxQueue.Marks.{
  flag, AreBytes, id_eq_sound, id_eq_refl, get-set_queue, get-set_empty_flag, flag-set_queue,
  flag-set_empty_flag, set_queue-AreBytes, set_empty_flag-AreBytes,
}

pub held_by : (mark : Option QueueId) (id : QueueId) → marked mark id ≡ true → mark ≡ some id
held_by none id h = ground arith
held_by (some m) id h = ap some (id_eq_sound m id h)

module _ (p : Parts) where
  abbrev pub listed : Queues p → QueueId → List ℕ
  listed q id = p.lists.contents (get_queue p q id)

  -- An entry stands in the list of its mark, once, and in no other; the flags show which lists have
  -- elements.
  pub record IsValid (q : Queues p) (entries : Entries p) : Type 0 where
    pub exact :
        (id : QueueId) (k : ℕ)
        → count k (listed q id) ≡ (if marked (entries k).queue_mark id then 1 else 0)
    pub flags : (id : QueueId) → flag p q id ≡ not (length (listed q id) == 0)
    pub bytes : AreBytes p q

  module _ (linked : IsLinkedList p.lists) where
    -- The queues with another list for `id`, with and without its flag taken back.
    abbrev taken : Bool → Queues p → QueueId → p.lists.Linked → Queues p
    taken empty q id l =
        let rest = set_queue p q id l in if empty then set_empty_flag p rest id else rest

    contents-if :
        (c : Bool) (l m : p.lists.Linked)
        → p.lists.contents (if c then l else m)
          ≡ (if c then p.lists.contents l else p.lists.contents m)
    contents-if true l m = refl
    contents-if false l m = refl

    pub listed-set_queue :
        (q : Queues p) (id b : QueueId) (l : p.lists.Linked)
        → listed (set_queue p q id l) b ≡ (if id_eq id b then p.lists.contents l else listed q b)
    listed-set_queue q id b l =
        ap p.lists.contents (get-set_queue p q id b l)
        ∙ contents-if (id_eq id b) l (get_queue p q b)

    listed-taken :
        (empty : Bool) (q : Queues p) (id b : QueueId) (l : p.lists.Linked)
        → listed (taken empty q id l) b ≡ (if id_eq id b then p.lists.contents l else listed q b)
    listed-taken true q id b l =
        ap p.lists.contents (get-set_empty_flag p (set_queue p q id l) id b)
        ∙ listed-set_queue q id b l
    listed-taken false q id b l = listed-set_queue q id b l

    flag-taken :
        (empty : Bool) (q : Queues p) (id b : QueueId) (l : p.lists.Linked)
        → AreBytes p q
        → flag p (taken empty q id l) b ≡ (if id_eq id b && empty then false else flag p q b)
    flag-taken true q id b l bytes =
        let f =
          flag-set_empty_flag p (set_queue p q id l) id b (set_queue-AreBytes p q id l bytes) in
        let h = flag-set_queue p q id b l in
        f ∙ ap (λ t. not (id_eq id b) && t) h ∙ masked (id_eq id b) (flag p q b)
      where
        masked : (c t : Bool) → (not c && t) ≡ (if c && true then false else t)
        masked true t = refl
        masked false t = refl
    flag-taken false q id b l bytes = flag-set_queue p q id b l ∙ plain (id_eq id b) (flag p q b)
      where
        plain : (c t : Bool) → t ≡ (if c && false then false else t)
        plain true t = refl
        plain false t = refl

    taken-AreBytes :
        (empty : Bool) (q : Queues p) (id : QueueId) (l : p.lists.Linked)
        → AreBytes p q
        → AreBytes p (taken empty q id l)
    taken-AreBytes true q id l bytes =
        set_empty_flag-AreBytes p (set_queue p q id l) id (set_queue-AreBytes p q id l bytes)
    taken-AreBytes false q id l bytes = set_queue-AreBytes p q id l bytes

    -- The mark of an entry after a change of one.
    pub marked-set :
        (entries : Entries p) (ptr k : ℕ) (mark : Option QueueId) (b : QueueId)
        → marked (set_mark p entries ptr mark k).queue_mark b
          ≡ (if ptr == k then marked mark b else marked (entries k).queue_mark b)
    marked-set entries ptr k mark b = elim (Bool-cases (ptr == k)) [
      | inl same ↦
          ap
            (λ c.
              marked
                (if c then record (entries ptr) { queue_mark = mark } else entries k).queue_mark b)
            same
          ∙ sym (ap (λ c. if c then marked mark b else marked (entries k).queue_mark b) same)
      | inr other ↦
          ap
            (λ c.
              marked
                (if c then record (entries ptr) { queue_mark = mark } else entries k).queue_mark b)
            other
          ∙ sym (ap (λ c. if c then marked mark b else marked (entries k).queue_mark b) other)
    ]

    exact-at :
        (q : Queues p) (entries : Entries p) (id : QueueId) (ptr k : ℕ)
        → IsValid q entries
        → (entries ptr).queue_mark ≡ some id
        → (ptr == k) ≡ true
        → (b : QueueId) → count k (listed q b) ≡ (if id_eq id b then 1 else 0)
    exact-at q entries id ptr k v held same b =
        v.exact b k
        ∙ ap (λ t. if marked (entries t).queue_mark b then 1 else 0) (sym ((==_iff ptr k).0 same))
        ∙ ap (λ t. if marked t b then 1 else 0) held

    emptied :
        (empty shown : Bool) (n : ℕ)
        → empty ≡ (n == 0)
        → shown ≡ true
        → (if empty then false else shown) ≡ not (n == 0)
    emptied empty shown n e h = ground (arith, e, h)

    taken-IsValid :
        (empty : Bool) (q : Queues p) (entries : Entries p) (id : QueueId) (ptr : ℕ)
        (l : p.lists.Linked) (xs ys : List ℕ)
        → IsValid q entries
        → (entries ptr).queue_mark ≡ some id
        → listed q id ≡ xs ++ (ptr ∷ ys)
        → p.lists.contents l ≡ xs ++ ys
        → empty ≡ (length (p.lists.contents l) == 0)
        → IsValid (taken empty q id l) (set_mark p entries ptr none)
    taken-IsValid empty q entries id ptr l xs ys v held whole rest vacant = record {
      exact = exact;
      flags = flags;
      bytes = taken-AreBytes empty q id l v.bytes;
    }
      where
        before :
            (k : ℕ) → count k (listed q id) ≡ count k xs + (if ptr == k then 1 else 0) + count k ys
        before k = ap (count k) whole ∙ count-append k xs (ptr ∷ ys) ∙ omega arith

        after : (k : ℕ) → count k (p.lists.contents l) ≡ count k xs + count k ys
        after k = ap (count k) rest ∙ count-append k xs ys

        exact :
            (b : QueueId) (k : ℕ)
            → count k (listed (taken empty q id l) b)
              ≡ (if marked (set_mark p entries ptr none k).queue_mark b then 1 else 0)
        exact b k =
            let m = marked-set entries ptr k none b in
            let g = listed-taken empty q id b l in
            let old = v.exact b k in
            let goal : count k (if id_eq id b then p.lists.contents l else listed q b)
                ≡ (if (if ptr == k then false else marked (entries k).queue_mark b) then 1 else 0) =
              elim (Bool-cases (id_eq id b)) [
                | inl here ↦
                    let same = ap (listed q) (id_eq_sound id b here) in
                    let c = ap (count k) same in
                    ap (λ t. count k (if t then p.lists.contents l else listed q b)) here
                    ∙ elim (Bool-cases (ptr == k)) [
                      | inl at ↦
                          let one : count k (listed q b) ≡ 1 =
                            exact-at q entries id ptr k v held at b
                            ∙ ap (λ t. if t then 1 else 0) here in
                          ground (arith, at, one, c, before k, after k)
                      | inr off ↦ ground (arith, off, c, old, before k, after k)
                    ]
                | inr there ↦ elim (Bool-cases (ptr == k)) [
                  | inl at ↦
                      let none_here : count k (listed q b) ≡ 0 =
                        exact-at q entries id ptr k v held at b
                        ∙ ap (λ t. if t then 1 else 0) there in
                      ap (λ t. count k (if t then p.lists.contents l else listed q b)) there
                      ∙ ground (arith, at, none_here)
                  | inr off ↦
                      ap (λ t. count k (if t then p.lists.contents l else listed q b)) there
                      ∙ ground (arith, off, old)
                ]
              ] in
            ap (count k) g ∙ goal ∙ ap (λ t. if t then 1 else 0) (sym m)

        flags :
            (b : QueueId)
            → flag p (taken empty q id l) b ≡ not (length (listed (taken empty q id l) b) == 0)
        flags b =
            let g = listed-taken empty q id b l in
            let f = flag-taken empty q id b l v.bytes in
            let goal : (if id_eq id b && empty then false else flag p q b)
                ≡ not (length (if id_eq id b then p.lists.contents l else listed q b) == 0) =
              elim (Bool-cases (id_eq id b)) [
                | inl here ↦
                    let same = ap (listed q) (id_eq_sound id b here) in
                    let some_left : length (listed q b) ≡ length xs + (1 + length ys) =
                      ap length (sym same ∙ whole) ∙ length-append xs (ptr ∷ ys) ∙ omega arith in
                    let shown : flag p q b ≡ true = ground (arith, v.flags b, some_left) in
                    ap (λ t. if t && empty then false else flag p q b) here
                    ∙ emptied empty (flag p q b) (length (p.lists.contents l)) vacant shown
                    ∙ sym (
                        ap (λ t. not (length (if t then p.lists.contents l else listed q b) == 0))
                          here)
                | inr there ↦
                    ap (λ t. if t && empty then false else flag p q b) there
                    ∙ v.flags b
                    ∙ sym (
                        ap (λ t. not (length (if t then p.lists.contents l else listed q b) == 0))
                          there)
              ] in
            f ∙ goal ∙ ap (λ t. not (length t == 0)) (sym g)

    -- The other elements keep their order.
    taken-order :
        (empty : Bool) (q : Queues p) (entries : Entries p) (id : QueueId) (ptr : ℕ)
        (l : p.lists.Linked) (xs ys : List ℕ)
        → IsValid q entries
        → (entries ptr).queue_mark ≡ some id
        → listed q id ≡ xs ++ (ptr ∷ ys)
        → p.lists.contents l ≡ xs ++ ys
        → (b : QueueId) → listed (taken empty q id l) b ≡ without ptr (listed q b)
    taken-order empty q entries id ptr l xs ys v held whole rest b =
        let one = exact-at q entries id ptr ptr v held (==_refl ptr) in
        listed-taken empty q id b l ∙ elim (Bool-cases (id_eq id b)) [
          | inl here ↦
              let once : count ptr (xs ++ (ptr ∷ ys)) ≡ 1 =
                sym (ap (count ptr) whole)
                ∙ one id
                ∙ ap (λ t. if t then 1 else 0) (id_eq_refl id) in
              ap (λ t. if t then p.lists.contents l else listed q b) here
              ∙ rest
              ∙ sym (without-once ptr xs ys once)
              ∙ ap (without ptr) (sym whole ∙ ap (listed q) (id_eq_sound id b here))
          | inr there ↦
              ap (λ t. if t then p.lists.contents l else listed q b) there
              ∙ sym (without-absent ptr (listed q b) (one b ∙ ap (λ t. if t then 1 else 0) there))
        ]

    -- An entry is taken out of the lists: nothing fails, only its mark changes, and the others keep
    -- their order.
    pub dequeue-IsValid :
        (q : Queues p) (entries : Entries p) (ptr : ℕ)
        → IsValid q entries
        → (q' : Queues p) × (dequeue p q entries ptr ≡ some (q', set_mark p entries ptr none))
          × IsValid q' (set_mark p entries ptr none)
          × ((b : QueueId) → listed q' b ≡ without ptr (listed q b))
    unfolding dequeue
    dequeue-IsValid q entries ptr v = elim (Option-cases (entries ptr).queue_mark) [
      | inl absent ↦ (
        q,
        rw (dequeue, absent),
        record {
          exact = λ id k. elim (Bool-cases (ptr == k)) [
            | inl same ↦
                let path = (==_iff ptr k).0 same in
                let old : count k (listed q id)
                    ≡ (if marked (entries ptr).queue_mark id then 1 else 0) =
                  v.exact id k
                  ∙ ap (λ t. if marked (entries t).queue_mark id then 1 else 0) (sym path) in
                let zero : count k (listed q id) ≡ 0 = old ∙ rw absent in ground (arith, same, zero)
            | inr other ↦ ground (arith, other, v.exact id k)
          ];
          flags = v.flags;
          bytes = v.bytes;
        },
        λ b. sym (
            without-absent ptr (listed q b)
              (v.exact b ptr ∙ ap (λ m. if marked m b then 1 else 0) absent)),
      )
      | inr (id, held) ↦
          let one : count ptr (listed q id) ≡ 1 = v.exact id ptr ∙ rw (held, id_eq_refl id) in
          let (xs, ys, e) = split_at ptr (listed q id) (omega arith) in
          let (l, removed, rest) = linked.remove_lem (get_queue p q id) xs ys ptr e one in
          (
            taken (p.lists.is_empty l) q id l,
            rw (dequeue, held, removed),
            taken-IsValid (p.lists.is_empty l) q entries id ptr l xs ys v held e rest
                (linked.is_empty_lem l),
            taken-order (p.lists.is_empty l) q entries id ptr l xs ys v held e rest,
          )
    ]
