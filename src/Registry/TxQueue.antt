-- ===== src/Registry/TxQueue.antt =====
-- emcyphal/src/registry/tx_queue.rs: the transmit queue, which picks the buffer that sends next.
-- Entries are named by their addresses and stand in a store. `none` around a result is a panic, or
-- a cursor into a list that does not hold the element.
pub mod Marks
pub mod Place
pub mod Order
pub mod Lists
pub mod Back
pub mod Laws
pub mod Choice
pub mod Sent
pub mod Serve
pub mod Buffers
use emcyphal.Common.{ℕ, Bool, true, false, not, ◌&&◌, Option, none, some, ◌==◌, leb, if◌then◌else◌}
use emcyphal.Core.Priority.{Priority, eq}
use emcyphal.Core.PrioritySet.{PrioritySet, none_set, new_eq, contains, first, intersection, union}
use emcyphal.Core.PrioritySet
use emcyphal.External.{Wakers, LinkedLists}
use emcyphal.Format.{is_eot_frame}
use emcyphal.Frame.{Frame}
use emcyphal.Frame.Mtu.{Mtu, to_usize}
use emcyphal.Utils.PriorityArray.{PriorityArray, put}
use emcyphal.Utils.PriorityTrigger.{PriorityTrigger}
use emcyphal.Utils.PriorityTrigger
use emcyphal.Buffer.Types.{Poll, ready, pending}

pub data QueueType : Type 0 where
  started finished : QueueType

abbrev pub QueueId : Type 0
QueueId = Priority × QueueType

-- What the queue calls of a buffer (`DynamicTxBuffer`): any buffer behind the trait object.
pub record TxBuffers (Instant : Type 0) : Type 1 where
  pub State : Type 0
  pub pop_readiness : State → PrioritySet
  pub try_pop : State → PrioritySet → Mtu → Option (State × Option (Frame Instant))

pub record Parts : Type 1 where
  pub Instant : Type 0
  pub wakers : Wakers
  pub lists : LinkedLists
  pub buffers : TxBuffers Instant

-- Equality of queues, derived in the source.
abbrev pub type_eq : QueueType → QueueType → Bool
type_eq started started = true
type_eq started finished = false
type_eq finished started = false
type_eq finished finished = true

abbrev pub id_eq : QueueId → QueueId → Bool
id_eq (p, t) (q, u) = eq p q && type_eq t u

abbrev pub marked : Option QueueId → QueueId → Bool
marked none id = false
marked (some mark) id = id_eq mark id

unfoldable pub first_queue_id : PrioritySet → PrioritySet → Option QueueId
first_queue_id some_started some_finished = elim (first (union some_started some_finished)) [
  | none ↦ none
  | some priority ↦ some (priority, if contains some_started priority then started else finished)
]

module _ (p : Parts) where
  open p use {lists.{Linked}}

  pub record Entry : Type 0 where
    pub queue_mark : Option QueueId
    pub started_set : PrioritySet
    pub buffer : p.buffers.State

  pub record Queues : Type 0 where
    pub started_lists : PriorityArray Linked
    pub started_priorities : PrioritySet
    pub finished_lists : PriorityArray Linked
    pub finished_priorities : PrioritySet

  abbrev pub Entries : Type 0
  Entries = ℕ → Entry

  pub record TxQueue : Type 0 where
    pub queues : Queues
    pub entries : Entries
    pub non_empty_trigger : PriorityTrigger p.wakers

module _ (p : Parts) where
  open p use {Instant, wakers.{Waker}, lists.{Linked, front, push_back, remove, is_empty}}

  abbrev pub assign : Entries p → ℕ → Entry p → Entries p
  assign entries ptr entry k = if ptr == k then entry else entries k

  abbrev pub set_mark : Entries p → ℕ → Option QueueId → Entries p
  set_mark entries ptr mark = assign entries ptr (record (entries ptr) { queue_mark = mark })

  abbrev pub new_queues : Queues p
  new_queues = record {
    started_lists = λ _. p.lists.empty;
    started_priorities = none_set;
    finished_lists = λ _. p.lists.empty;
    finished_priorities = none_set;
  }

  abbrev pub get_queue : Queues p → QueueId → Linked
  get_queue q (priority, started) = q.started_lists priority
  get_queue q (priority, finished) = q.finished_lists priority

  -- What is written through the reference that `get_queue` returns.
  abbrev pub set_queue : Queues p → QueueId → Linked → Queues p
  set_queue q (priority, started) l = record q { started_lists = put q.started_lists priority l }
  set_queue q (priority, finished) l = record q { finished_lists = put q.finished_lists priority l }

  abbrev pub set_empty_flag : Queues p → QueueId → Queues p
  set_empty_flag q (priority, started) = record q {
    started_priorities = PrioritySet.remove q.started_priorities priority;
  }
  set_empty_flag q (priority, finished) = record q {
    finished_priorities = PrioritySet.remove q.finished_priorities priority;
  }

  abbrev pub clear_empty_flag : Queues p → QueueId → Queues p
  clear_empty_flag q (priority, started) = record q {
    started_priorities = PrioritySet.insert q.started_priorities priority;
  }
  clear_empty_flag q (priority, finished) = record q {
    finished_priorities = PrioritySet.insert q.finished_priorities priority;
  }

  unfoldable pub dequeue : Queues p → Entries p → ℕ → Option (Queues p × Entries p)
  dequeue q entries ptr =
      let unmarked = set_mark entries ptr none in
      elim (entries ptr).queue_mark [
        | none ↦ some (q, unmarked)
        | some id ↦ elim (remove (get_queue q id) ptr) [
          | none ↦ none
          | some l ↦
              let rest = set_queue q id l in
              some (if is_empty l then set_empty_flag rest id else rest, unmarked)
        ]
      ]

  pub move_back : Queues p → Entries p → QueueId → ℕ → Option (Queues p × Entries p)
  unfolding dequeue
  move_back q entries id ptr = elim (dequeue q entries ptr) [
    | none ↦ none
    | some (rest, unmarked) ↦ some (
      clear_empty_flag (set_queue rest id (push_back (get_queue rest id) ptr)) id,
      set_mark unmarked ptr (some id),
    )
  ]

  abbrev pub target : Entry p → Option QueueId
  target entry = elim (first (p.buffers.pop_readiness entry.buffer)) [
    | none ↦ none
    | some priority ↦
        some (priority, if contains entry.started_set priority then started else finished)
  ]

  pub reg_update_queue_position : TxQueue p → ℕ → Option (TxQueue p)
  unfolding dequeue move_back
  reg_update_queue_position s ptr = elim (target (s.entries ptr)) [
    | none ↦ elim (dequeue s.queues s.entries ptr) [
      | none ↦ none
      | some (q, entries) ↦ some (record s { queues = q; entries = entries })
    ]
    | some id ↦
        if marked (s.entries ptr).queue_mark id
        then some s
        else elim (move_back s.queues s.entries id ptr) [
          | none ↦ none
          | some (q, entries) ↦ some (record {
            queues = q;
            entries = entries;
            non_empty_trigger = PriorityTrigger.wake p.wakers s.non_empty_trigger (new_eq (id.0));
          })
        ]
  ]

  abbrev pub reg_register : TxQueue p → ℕ → Option (TxQueue p)
  reg_register s ptr = reg_update_queue_position s ptr

  unfoldable pub reg_unregister : TxQueue p → ℕ → Option (TxQueue p)
  reg_unregister s ptr = elim (dequeue s.queues s.entries ptr) [
    | none ↦ none
    | some (q, entries) ↦ some (record s { queues = q; entries = entries })
  ]

  -- The buffer of an entry is changed by the given function, which may fail.
  unfoldable pub with_buffer_mut {ℓ} :
      {T : Type ℓ}
      → TxQueue p
      → ℕ
      → (p.buffers.State → Option (p.buffers.State × T))
      → Option (TxQueue p × T)
  with_buffer_mut s ptr f = elim (f (s.entries ptr).buffer) [
    | none ↦ none
    | some (buffer, result) ↦ some (
      record s { entries = assign s.entries ptr (record (s.entries ptr) { buffer = buffer }) },
      result,
    )
  ]

  -- The set of priorities with a transfer under way, and the queue after the last frame.
  unfoldable pub sent : TxQueue p → ℕ → Priority → Bool → Option (TxQueue p)
  sent s ptr priority eot =
      let entry = s.entries ptr in
      let set =
        if eot
        then PrioritySet.remove entry.started_set priority
        else PrioritySet.insert entry.started_set priority in
      let s' = record s { entries = assign s.entries ptr (record entry { started_set = set }) } in
      if eot
      then elim (dequeue s'.queues s'.entries ptr) [
        | none ↦ none
        | some (q, entries) ↦ some (record s' { queues = q; entries = entries })
      ]
      else some s'

  pub hub_try_pop : TxQueue p → PrioritySet → Mtu → Option (TxQueue p × Option (Frame Instant))
  unfolding with_buffer_mut sent first_queue_id reg_update_queue_position
  hub_try_pop s mask mtu =
      elim (first_queue_id (intersection s.queues.started_priorities mask)
        (intersection s.queues.finished_priorities mask)) [
          | none ↦ some (s, none)
          | some (priority, type) ↦ elim (front (get_queue s.queues (priority, type))) [
            | none ↦ none
            | some ptr ↦
                elim (with_buffer_mut s ptr (λ b. p.buffers.try_pop b (new_eq priority) mtu)) [
                  | none ↦ none
                  | some (s', none) ↦ elim (reg_update_queue_position s' ptr) [
                    | none ↦ none
                    | some s'' ↦ some (s'', none)
                  ]
                  | some (s', some frame) ↦
                      if eq frame.header.priority priority && leb frame.content.len (to_usize mtu)
                      then elim (is_eot_frame frame) [
                        | none ↦ none
                        | some eot ↦ elim (sent s' ptr priority eot) [
                          | none ↦ none
                          | some s'' ↦ elim (reg_update_queue_position s'' ptr) [
                            | none ↦ none
                            | some after ↦ some (after, some frame)
                          ]
                        ]
                      ]
                      else none
                ]
          ]
        ]

  unfoldable pub hub_poll_pop :
      TxQueue p → Waker → PrioritySet → Mtu → Option (TxQueue p × Poll (Frame Instant))
  hub_poll_pop s waker mask mtu = elim (hub_try_pop s mask mtu) [
    | none ↦ none
    | some (s', some frame) ↦ some (s', ready frame)
    | some (s', none) ↦ some (
      record s' {
        non_empty_trigger = PriorityTrigger.register p.wakers s'.non_empty_trigger waker mask;
      },
      pending,
    )
  ]
