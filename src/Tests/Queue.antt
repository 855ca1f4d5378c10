-- ===== src/Tests/Queue.antt =====
-- The transmit queue over lists, with a signal that has a message to send and empty buffers.
use emcyphal.Common.{
  not, ℕ, ◌+◌, Bool-cases, ◌≡◌, inl, inr, refl, ap, ◌∙◌, sym, List, [], ◌∷◌, ◌++◌, Option, none,
  some, ◌==◌, ==_refl, if◌then◌else◌, arith, length, replicate,
}
use emcyphal.Core.Priority.{
  Priority, exceptional, immediate, fast, high, nominal, low, slow, optional, eq,
}
use emcyphal.Core.PrioritySet.Algebra.{contains-none}
use emcyphal.Core.PrioritySet.{none_set, new_eq, contains, first}
use emcyphal.External.{LinkedLists, IsLinkedList}
use emcyphal.Frame.Mtu.{classic}
use emcyphal.Registry.TxQueue.{
  QueueId, marked, Parts, TxQueue, QueueType, started, finished, reg_update_queue_position,
}
use emcyphal.Registry.TxQueue.Marks.{flag}
use emcyphal.Registry.TxQueue.Buffers
use emcyphal.Registry.TxQueue.Place.{Stands}
use emcyphal.Buffer.Signal
use emcyphal.Buffer.Ready.{Gives}
use emcyphal.Buffer.Blocking
use emcyphal.Tests.Signals.{sending, sending-IsValid}
use emcyphal.Registry.TxQueue.Lists.{IsValid, listed}
use emcyphal.Registry.TxQueue.Laws.{Updated, reg_update_queue_position-IsValid}
use emcyphal.Utils.PriorityTrigger
use emcyphal.Buffer.Owned.{count, count-append}
use emcyphal.Tests.External.{wakers, platform, vecs-IsStack}

abbrev head : List ℕ → Option ℕ
head [] = none
head (x ∷ xs) = some x

abbrev cut : List ℕ → ℕ → Option (List ℕ)
cut [] k = none
cut (x ∷ xs) k =
    let rest = cut xs k in
    if x == k then some xs else elim rest [ none ↦ none | some ys ↦ some (x ∷ ys) ]

abbrev lists : LinkedLists
lists = record {
  Linked = List ℕ;
  contents = λ l. l;
  empty = [];
  front = head;
  push_back = λ l k. l ++ (k ∷ []);
  remove = cut;
  is_empty = λ l. length l == 0;
}

-- An element is cut out where it stands first; what stands before it is kept.
cut_lem :
    (xs ys : List ℕ) (k : ℕ)
    → count k (xs ++ (k ∷ ys)) ≡ 1
    → cut (xs ++ (k ∷ ys)) k ≡ some (xs ++ ys)
cut_lem [] ys k one =
    ap (λ t. if t then some ys else elim (cut ys k) [ none ↦ none | some zs ↦ some (k ∷ zs) ])
      (==_refl k)
cut_lem (x ∷ xs) ys k one = elim (Bool-cases (x == k)) [
  | inl same ↦
      let c : count k (xs ++ (k ∷ ys)) ≡ count k xs + (1 + count k ys) =
        count-append k xs (k ∷ ys) ∙ ground (arith, ==_refl k) in
      absurd (ground (arith, same, one, c))
  | inr other ↦
      let rest = cut_lem xs ys k (ground (arith, other, one)) in
      ap
        (λ t.
          if t
          then some (xs ++ (k ∷ ys))
          else elim (cut (xs ++ (k ∷ ys)) k) [ none ↦ none | some zs ↦ some (x ∷ zs) ])
        other
      ∙ ap (λ t. elim t [ none ↦ none | some zs ↦ some (x ∷ zs) ]) rest
]

lists-IsLinkedList : IsLinkedList lists
lists-IsLinkedList = record {
  empty_lem = refl;
  front_nil = λ l e. ap head e;
  front_cons = λ l x xs e. ap head e;
  push_back_lem = λ l x. refl;
  remove_lem = λ l xs ys x e one.
      (xs ++ ys, ap (λ t. cut t x) e ∙ cut_lem xs ys x (ap (count x) (sym e) ∙ one), refl);
  is_empty_lem = λ l. refl;
}

abbrev parts : Parts
parts = record {
  Instant = ℕ;
  wakers = wakers;
  lists = lists;
  buffers = Buffers.dyn_buffers platform;
}

-- A buffer of one message, which has none.
abbrev vacant : Blocking.Inner platform
vacant = Blocking.new platform 100 nominal (replicate 8 0)

-- Entry 3 has a transfer and waits; no other entry has one.
abbrev waiting : TxQueue parts
waiting = record {
  queues = record {
    started_lists = λ q. [];
    started_priorities = none_set;
    finished_lists = λ q. if eq nominal q then 3 ∷ [] else [];
    finished_priorities = new_eq nominal;
  };
  entries = λ k.
      if 3 == k
      then record {
        queue_mark = some (nominal, finished);
        started_set = none_set;
        buffer = Buffers.signal sending;
      }
      else record { queue_mark = none; started_set = none_set; buffer = Buffers.blocking vacant };
  non_empty_trigger = PriorityTrigger.new wakers;
}

waiting-IsValid : IsValid parts waiting.queues waiting.entries
unfolding contains
waiting-IsValid = record { exact = exact; flags = flags; bytes = (omega arith, omega arith) }
  where
    exact :
        (id : Priority × QueueType) (k : ℕ)
        → count k (listed parts waiting.queues id)
          ≡ (if marked (waiting.entries k).queue_mark id then 1 else 0)
    exact (q, started) k = elim (Bool-cases (3 == k)) [
      | inl at ↦ ground (arith, at)
      | inr off ↦ ground (arith, off)
    ]
    exact (q, finished) k = elim (Bool-cases (3 == k)) [
      | inl at ↦ ground (arith, at)
      | inr off ↦ ground (arith, off)
    ]

    flags :
        (id : Priority × QueueType)
        → flag parts waiting.queues id ≡ not (length (listed parts waiting.queues id) == 0)
    flags (q, started) = contains-none q
    flags (exceptional, finished) = refl
    flags (immediate, finished) = refl
    flags (fast, finished) = refl
    flags (high, finished) = refl
    flags (nominal, finished) = refl
    flags (low, finished) = refl
    flags (slow, finished) = refl
    flags (optional, finished) = refl

reg_update_queue_position-IsValid_example :
    (s' : TxQueue parts) × (mark : Option QueueId) × (reg_update_queue_position parts waiting 3
      ≡ some s')
    × Stands parts (waiting.entries 3) mark
    × Updated parts waiting 3 mark s'
reg_update_queue_position-IsValid_example =
    reg_update_queue_position-IsValid parts lists-IsLinkedList waiting 3 waiting-IsValid

dyn_try_pop-Gives_example :
    Gives
      (Buffers.IsValid platform)
      nominal
      classic
      (Buffers.dyn_try_pop platform (Buffers.signal sending) (new_eq nominal) classic)
unfolding first Signal.pop_readiness Buffers.dyn_pop_readiness
dyn_try_pop-Gives_example =
    Buffers.dyn_try_pop-Gives platform vecs-IsStack (Buffers.signal sending) nominal classic
      sending-IsValid refl
