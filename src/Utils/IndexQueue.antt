-- ===== src/Utils/IndexQueue.antt =====
-- emcyphal/src/utils/index_queue.rs: a map with room for `n` keys and a queue of some of them. A key is
-- named by the index that it converts to. `none` around a result is a panic.
pub mod Insert
use emcyphal.Common.{
  ℕ, zero, suc, ◌+◌, Bool, true, false, Option, none, some, ltb, ◌==◌, if◌then◌else◌,
}
use emcyphal.Utils.DuplexArray
use emcyphal.Utils.DuplexArray.{DuplexArray, from_fn, put}
use emcyphal.Utils.MultiClassQueue
use emcyphal.Utils.MultiClassQueue.Fill.{fill}
use emcyphal.Utils.MultiClassQueue.{MultiClassQueue, ◌>>=◌, move_front, move_back}

abbrev pub queue_class : ℕ
queue_class = 0

abbrev pub free_class : ℕ
free_class = queue_class + 1

abbrev pub class_count : ℕ
class_count = free_class + 1

abbrev pub no_entry : ℕ
no_entry = 255

-- The index of a key from 0 to `k_max` is an array of `1 + k_max` elements.
pub record IndexQueue (V : Type 0) (k_max n : ℕ) : Type 0 where
  pub keys : DuplexArray (Option ℕ)
  pub values : DuplexArray (Option V)
  pub index : DuplexArray ℕ
  pub queue : MultiClassQueue class_count n

-- `Result<Option<V>, (K, V)>`
pub data Inserted (V : Type 0) : Type 0 where
  ok : Option V → Inserted V
  err : ℕ → V → Inserted V

module _ {V : Type 0} {k_max n : ℕ} where
  unfoldable pub new : Option (IndexQueue V k_max n)
  new = do
    q ← MultiClassQueue.new class_count n
    q' ← fill class_count n free_class n 0 q
    some (record {
      keys = from_fn n 0 (λ i. none);
      values = from_fn n 0 (λ i. none);
      index = DuplexArray.repeat 1 k_max no_entry;
      queue = q';
    })

  -- The inner `none` is the error `NoKey`, here and below.
  unfoldable pub get_index : IndexQueue V k_max n → ℕ → Option (Option ℕ)
  get_index s key =
      if ltb k_max key
      then some none
      else do idx ← DuplexArray.get s.index key; some (if idx == no_entry then none else some idx)

  unfoldable pub contains : IndexQueue V k_max n → ℕ → Option Bool
  contains s key = do found ← get_index s key; some (elim found [ none ↦ false | some _ ↦ true ])

  -- `get` and what `get_mut` reads.
  unfoldable pub get : IndexQueue V k_max n → ℕ → Option (Option V)
  get s key = do
    found ← get_index s key
    elim found as (λ _. Option (Option V)) [
      | none ↦ some none
      | some idx ↦ do slot ← DuplexArray.get s.values idx; value ← slot; some (some value)
    ]

  -- A write through the reference of `get_mut`.
  unfoldable pub assign : IndexQueue V k_max n → ℕ → V → Option (IndexQueue V k_max n)
  assign s key value = do
    found ← get_index s key
    idx ← found
    values ← put s.values idx (some value)
    some (record s { values = values })

  unfoldable pub insert : IndexQueue V k_max n → ℕ → V → Option (IndexQueue V k_max n × Inserted V)
  insert s key value = if ltb k_max key then some (s, err key value) else do
    found ← get_index s key
    elim found as (λ _. Option (IndexQueue V k_max n × Inserted V)) [
      | some idx ↦ do
        slot ← DuplexArray.get s.values idx
        old ← slot
        values ← put s.values idx none
        some (record s { values = values }, ok (some old))
      | none ↦ do
        first ← MultiClassQueue.front class_count n s.queue free_class
        elim first as (λ _. Option (IndexQueue V k_max n × Inserted V)) [
          | none ↦ some (s, err key value)
          | some idx ↦ do
            queue ← MultiClassQueue.remove class_count n s.queue idx
            keys ← put s.keys idx (some key)
            values ← put s.values idx (some value)
            index ← put s.index key idx
            some (record { keys = keys; values = values; index = index; queue = queue }, ok none)
        ]
    ]

  unfoldable pub remove : IndexQueue V k_max n → ℕ → Option (IndexQueue V k_max n × Option V)
  remove s key = do
    found ← get_index s key
    elim found as (λ _. Option (IndexQueue V k_max n × Option V)) [
      | none ↦ some (s, none)
      | some idx ↦ do
        index ← put s.index key no_entry
        queue ← move_back class_count n s.queue free_class idx
        keys ← put s.keys idx none
        slot ← DuplexArray.get s.values idx
        old ← slot
        values ← put s.values idx none
        some (record { keys = keys; values = values; index = index; queue = queue }, some old)
    ]

  unfoldable pub front : IndexQueue V k_max n → Option (Option ℕ)
  front s = do
    first ← MultiClassQueue.front class_count n s.queue queue_class
    elim first as (λ _. Option (Option ℕ)) [
      | none ↦ some none
      | some idx ↦ DuplexArray.get s.keys idx
    ]

  unfoldable pub back : IndexQueue V k_max n → Option (Option ℕ)
  back s = do
    end ← MultiClassQueue.back class_count n s.queue queue_class
    elim end as (λ _. Option (Option ℕ)) [
      | none ↦ some none
      | some idx ↦ DuplexArray.get s.keys idx
    ]

  unfoldable pub enqueue_front : IndexQueue V k_max n → ℕ → Option (Option (IndexQueue V k_max n))
  enqueue_front s key = do
    found ← get_index s key
    elim found as (λ _. Option (Option (IndexQueue V k_max n))) [
      | none ↦ some none
      | some idx ↦ do
        queue ← move_front class_count n s.queue queue_class idx
        some (some (record s { queue = queue }))
    ]

  unfoldable pub enqueue_back : IndexQueue V k_max n → ℕ → Option (Option (IndexQueue V k_max n))
  enqueue_back s key = do
    found ← get_index s key
    elim found as (λ _. Option (Option (IndexQueue V k_max n))) [
      | none ↦ some none
      | some idx ↦ do
        queue ← move_back class_count n s.queue queue_class idx
        some (some (record s { queue = queue }))
    ]

  unfoldable pub dequeue : IndexQueue V k_max n → ℕ → Option (Option (IndexQueue V k_max n))
  dequeue s key = do
    found ← get_index s key
    elim found as (λ _. Option (Option (IndexQueue V k_max n))) [
      | none ↦ some none
      | some idx ↦ do
        queue ← MultiClassQueue.remove class_count n s.queue idx
        some (some (record s { queue = queue }))
    ]
