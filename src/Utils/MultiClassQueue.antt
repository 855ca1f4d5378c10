-- ===== src/Utils/MultiClassQueue.antt =====
-- emcyphal/src/utils/multi_class_queue.rs: doubly linked cycles in an array of nodes, and a queue for
-- each class made of them. `none` around a result is a panic: a failed assertion, an index past the
-- array, or a number of nodes that no byte holds.
pub mod Chain
pub mod Relink
pub mod Rings
pub mod Moves
pub mod Puts
pub mod Writes
pub mod Shows
pub mod Fill
pub mod Refine
use emcyphal.Common.{
  false, true, ℕ, ◌+◌, ◌-◌, ◌%◌, Bool, not, Option, none, some, ltb, leb, ◌==◌, if◌then◌else◌,
}
use emcyphal.Utils.DuplexArray.{DuplexArray, from_fn, get, put}

pub record Node : Type 0 where
  pub next : ℕ
  pub prev : ℕ

-- The `nodes` of the only field.
abbrev pub MultiCycleList : Type 0
MultiCycleList = DuplexArray Node

-- `u8::MAX as usize + 1`.
abbrev pub max_capacity : ℕ
max_capacity = 256

-- The conversion of an index to `u8` fails on a node past the 256th.
unfoldable pub new_list : ℕ → ℕ → Option MultiCycleList
new_list n1 n2 =
    if leb (n1 + n2) max_capacity
    then some (from_fn n1 n2 (λ i. record { next = i; prev = i }))
    else none

-- An assignment to one field of a node.
unfoldable pub set_next : MultiCycleList → ℕ → ℕ → Option MultiCycleList
set_next l node v = elim (get l node) [ none ↦ none | some n ↦ put l node (record n { next = v }) ]

unfoldable pub set_prev : MultiCycleList → ℕ → ℕ → Option MultiCycleList
set_prev l node v = elim (get l node) [ none ↦ none | some n ↦ put l node (record n { prev = v }) ]

infixl 5 ◌>>=◌
abbrev pub ◌>>=◌ {ℓ κ} : {A : Type ℓ} {B : Type κ} → Option A → (A → Option B) → Option B
none >>= f = none
some a >>= f = f a

unfoldable pub next : MultiCycleList → ℕ → Option ℕ
next l node = do n ← get l node; some n.next

unfoldable pub prev : MultiCycleList → ℕ → Option ℕ
prev l node = do n ← get l node; some n.prev

unfoldable pub is_bound : MultiCycleList → ℕ → Option Bool
is_bound l node = do n ← get l node; some (not (n.next == node))

unfoldable pub unbind : MultiCycleList → ℕ → Option MultiCycleList
unfolding next prev set_next set_prev
unbind l node = do
  n ← next l node
  p ← prev l node
  l ← set_prev l node node
  l ← set_next l node node
  l ← set_prev l n p
  set_next l p n

unfoldable pub move_after : MultiCycleList → ℕ → ℕ → Option MultiCycleList
unfolding next set_next set_prev unbind
move_after l node p = do
  l ← unbind l node
  n ← next l p
  l ← set_next l node n
  l ← set_prev l node p
  l ← set_prev l n node
  set_next l p node

unfoldable pub move_before : MultiCycleList → ℕ → ℕ → Option MultiCycleList
unfolding prev set_next set_prev unbind
move_before l node n = do
  l ← unbind l node
  p ← prev l n
  l ← set_next l node n
  l ← set_prev l node p
  l ← set_prev l n node
  set_next l p node

-- The constants of the type, and its only field.
pub record MultiClassQueue (class_count entry_count : ℕ) : Type 0 where
  pub nodes : MultiCycleList

module _ (class_count entry_count : ℕ) where
  abbrev Queue : Type 0
  Queue = MultiClassQueue class_count entry_count

  -- `CLASS_COUNT as u8`.
  abbrev pub entry_offset : ℕ
  entry_offset = class_count % 256

  -- The node of an entry; the sum of two bytes.
  abbrev pub node_of : ℕ → ℕ
  node_of entry = (entry_offset + entry) % 256

  unfoldable pub new : Option Queue
  unfolding new_list
  new = do l ← new_list class_count entry_count; some (record { nodes = l })

  -- `checked_sub(ENTRY_OFFSET)`.
  abbrev pub entry_of : ℕ → Option ℕ
  entry_of node = if leb entry_offset node then some (node - entry_offset) else none

  unfoldable pub front : Queue → ℕ → Option (Option ℕ)
  unfolding next
  front q class =
      if ltb class class_count then (do n ← next q.nodes class; some (entry_of n)) else none

  unfoldable pub back : Queue → ℕ → Option (Option ℕ)
  unfolding prev
  back q class =
      if ltb class class_count then (do n ← prev q.nodes class; some (entry_of n)) else none

  unfoldable pub is_empty : Queue → ℕ → Option Bool
  unfolding front
  is_empty q class =
      if ltb class class_count
      then (do e ← front q class; some (elim e [ none ↦ true | some _ ↦ false ]))
      else none

  unfoldable pub is_front : Queue → ℕ → Option (Option ℕ)
  unfolding prev
  is_front q entry =
      if ltb entry entry_count
      then (do p ← prev q.nodes (node_of entry); some (if ltb p entry_offset then some p else none))
      else none

  unfoldable pub is_back : Queue → ℕ → Option (Option ℕ)
  unfolding next
  is_back q entry =
      if ltb entry entry_count
      then (do n ← next q.nodes (node_of entry); some (if ltb n entry_offset then some n else none))
      else none

  unfoldable pub remove : Queue → ℕ → Option Queue
  unfolding unbind
  remove q entry =
      if ltb entry entry_count
      then (do l ← unbind q.nodes (node_of entry); some (record q { nodes = l }))
      else none

  unfoldable pub move_front : Queue → ℕ → ℕ → Option Queue
  unfolding move_after
  move_front q class entry =
      if ltb class class_count
      then if ltb entry entry_count
        then (do l ← move_after q.nodes (node_of entry) class; some (record q { nodes = l }))
        else none
      else none

  unfoldable pub move_back : Queue → ℕ → ℕ → Option Queue
  unfolding move_before
  move_back q class entry =
      if ltb class class_count
      then if ltb entry entry_count
        then (do l ← move_before q.nodes (node_of entry) class; some (record q { nodes = l }))
        else none
      else none
