-- ===== src/Utils/PriorityQueue.antt =====
-- emcyphal/src/utils/priority_queue.rs: a queue for each priority over one array of entries. `none`
-- around a result is a panic.
pub mod Spec
pub mod Holds
pub mod Does
pub mod Push
pub mod Pop
pub mod Refine
use emcyphal.Common.{ℕ, suc, zero, ◌+◌, Bool, Option, none, some, ltb, if◌then◌else◌}
use emcyphal.Core.Priority.{Priority, into_u8, max_priority}
use emcyphal.Core.PrioritySet.{PrioritySet, none_set, insert, remove, last}
use emcyphal.Utils.DuplexArray.{DuplexArray, from_fn, get, put}
use emcyphal.Utils.MultiClassQueue
use emcyphal.Utils.MultiClassQueue.Fill.{fill}
use emcyphal.Utils.MultiClassQueue.{MultiClassQueue, ◌>>=◌, front, move_back, is_empty}

abbrev pub priority_class : ℕ
priority_class = 0

abbrev pub free_class : ℕ
free_class = priority_class + into_u8 max_priority + 1

abbrev pub class_count : ℕ
class_count = free_class + 1

-- The array `[Option<V>; N]` is one whose second part is empty.
pub record PriorityQueue (V : Type 0) (n : ℕ) : Type 0 where
  pub entry_queue : MultiClassQueue class_count n
  pub entry_values : DuplexArray (Option V)
  pub priority_set : PrioritySet

-- `push` gives a value back when there is no free entry.
pub data Pushed (V : Type 0) : Type 0 where
  accepted : Pushed V
  rejected : V → Pushed V

module _ {V : Type 0} {n : ℕ} where
  unfoldable pub new : Option (PriorityQueue V n)
  new = do
    q ← MultiClassQueue.new class_count n
    q' ← fill class_count n free_class n 0 q
    some (record {
      entry_queue = q';
      entry_values = from_fn n 0 (λ i. none);
      priority_set = none_set;
    })

  unfoldable pub get_value_mut : PriorityQueue V n → ℕ → Option (Option V)
  get_value_mut s entry = get s.entry_values entry

  unfoldable pub push : PriorityQueue V n → Priority → V → Option (PriorityQueue V n × Pushed V)
  push s priority value = do
    free ← front class_count n s.entry_queue free_class
    elim free as (λ _. Option (PriorityQueue V n × Pushed V)) [
      | none ↦ some (s, rejected value)
      | some entry ↦ do
        q ← move_back class_count n s.entry_queue (priority_class + into_u8 priority) entry
        values ← put s.entry_values entry (some value)
        some (
          record s {
            entry_queue = q;
            entry_values = values;
            priority_set = insert s.priority_set priority;
          },
          accepted,
        )
    ]

  unfoldable pub pop : PriorityQueue V n → Priority → Option (PriorityQueue V n × Option V)
  pop s priority = do
    first ← front class_count n s.entry_queue (priority_class + into_u8 priority)
    elim first as (λ _. Option (PriorityQueue V n × Option V)) [
      | none ↦ some (s, none)
      | some entry ↦ do
        q ← move_back class_count n s.entry_queue free_class entry
        vacant ← is_empty class_count n q (priority_class + into_u8 priority)
        value ← get s.entry_values entry
        values ← put s.entry_values entry none
        some (
          record s {
            entry_queue = q;
            entry_values = values;
            priority_set = if vacant then remove s.priority_set priority else s.priority_set;
          },
          value,
        )
    ]

  abbrev pub priorities : PriorityQueue V n → PrioritySet
  priorities s = s.priority_set

  abbrev pub max_priority_of : PriorityQueue V n → Option Priority
  max_priority_of s = last s.priority_set
