-- ===== src/Registry/TxQueue/Marks.antt =====
-- emcyphal/src/registry/tx_queue.rs: lemmas on reading what was written to lists, flags and marks.
use emcyphal.Common.{◌<◌, ◌≡◌, refl, ap, Bool, true, not, ◌&&◌, ◌||◌, if◌then◌else◌, arith}
use emcyphal.Core.Priority.Laws.{eq_sound, eq_refl}
use emcyphal.Core.PrioritySet.{contains}
use emcyphal.Core.PrioritySet.Laws.{contains-insert, contains-remove, insert-lt, remove-lt}
use emcyphal.Registry.TxQueue.{
  Parts, QueueId, started, finished, Queues, id_eq, get_queue, set_queue, set_empty_flag,
  clear_empty_flag,
}

pub id_eq_sound : (a b : QueueId) → id_eq a b ≡ true → a ≡ b
id_eq_sound (p, started) (q, started) h = ap (λ x. (x, started)) (eq_sound p q (ground arith))
id_eq_sound (p, started) (q, finished) h = ground arith
id_eq_sound (p, finished) (q, started) h = ground arith
id_eq_sound (p, finished) (q, finished) h = ap (λ x. (x, finished)) (eq_sound p q (ground arith))

pub id_eq_refl : (a : QueueId) → id_eq a a ≡ true
id_eq_refl (p, started) = ground (arith, eq_refl p)
id_eq_refl (p, finished) = ground (arith, eq_refl p)

module _ (p : Parts) where
  -- Whether the flags show that a queue has an element.
  abbrev pub flag : Queues p → QueueId → Bool
  flag q (priority, started) = contains q.started_priorities priority
  flag q (priority, finished) = contains q.finished_priorities priority

  pub get-set_queue :
      (q : Queues p) (a b : QueueId) (l : p.lists.Linked)
      → get_queue p (set_queue p q a l) b ≡ (if id_eq a b then l else get_queue p q b)
  get-set_queue q (x, started) (y, started) l = ground arith
  get-set_queue q (x, started) (y, finished) l = ground arith
  get-set_queue q (x, finished) (y, started) l = ground arith
  get-set_queue q (x, finished) (y, finished) l = ground arith

  pub get-set_empty_flag :
      (q : Queues p) (a b : QueueId) → get_queue p (set_empty_flag p q a) b ≡ get_queue p q b
  get-set_empty_flag q (x, started) (y, started) = refl
  get-set_empty_flag q (x, started) (y, finished) = refl
  get-set_empty_flag q (x, finished) (y, started) = refl
  get-set_empty_flag q (x, finished) (y, finished) = refl

  pub get-clear_empty_flag :
      (q : Queues p) (a b : QueueId) → get_queue p (clear_empty_flag p q a) b ≡ get_queue p q b
  get-clear_empty_flag q (x, started) (y, started) = refl
  get-clear_empty_flag q (x, started) (y, finished) = refl
  get-clear_empty_flag q (x, finished) (y, started) = refl
  get-clear_empty_flag q (x, finished) (y, finished) = refl

  -- The flags are bytes.
  abbrev pub AreBytes : Queues p → Type 0
  AreBytes q = (q.started_priorities < 256) × (q.finished_priorities < 256)

  pub flag-set_queue :
      (q : Queues p) (a b : QueueId) (l : p.lists.Linked) → flag (set_queue p q a l) b ≡ flag q b
  flag-set_queue q (x, started) (y, started) l = refl
  flag-set_queue q (x, started) (y, finished) l = refl
  flag-set_queue q (x, finished) (y, started) l = refl
  flag-set_queue q (x, finished) (y, finished) l = refl

  pub flag-set_empty_flag :
      (q : Queues p) (a b : QueueId)
      → AreBytes q
      → flag (set_empty_flag p q a) b ≡ (not (id_eq a b) && flag q b)
  flag-set_empty_flag q (x, started) (y, started) (s, f) =
      ground (arith, contains-remove q.started_priorities x y s)
  flag-set_empty_flag q (x, started) (y, finished) h = ground arith
  flag-set_empty_flag q (x, finished) (y, started) h = ground arith
  flag-set_empty_flag q (x, finished) (y, finished) (s, f) =
      ground (arith, contains-remove q.finished_priorities x y f)

  pub flag-clear_empty_flag :
      (q : Queues p) (a b : QueueId)
      → AreBytes q
      → flag (clear_empty_flag p q a) b ≡ (id_eq a b || flag q b)
  flag-clear_empty_flag q (x, started) (y, started) (s, f) =
      ground (arith, contains-insert q.started_priorities x y s)
  flag-clear_empty_flag q (x, started) (y, finished) h = ground arith
  flag-clear_empty_flag q (x, finished) (y, started) h = ground arith
  flag-clear_empty_flag q (x, finished) (y, finished) (s, f) =
      ground (arith, contains-insert q.finished_priorities x y f)

  pub set_queue-AreBytes :
      (q : Queues p) (a : QueueId) (l : p.lists.Linked) → AreBytes q → AreBytes (set_queue p q a l)
  set_queue-AreBytes q (x, started) l h = h
  set_queue-AreBytes q (x, finished) l h = h

  pub set_empty_flag-AreBytes :
      (q : Queues p) (a : QueueId) → AreBytes q → AreBytes (set_empty_flag p q a)
  set_empty_flag-AreBytes q (x, started) (s, f) = (remove-lt q.started_priorities x s, f)
  set_empty_flag-AreBytes q (x, finished) (s, f) = (s, remove-lt q.finished_priorities x f)

  pub clear_empty_flag-AreBytes :
      (q : Queues p) (a : QueueId) → AreBytes q → AreBytes (clear_empty_flag p q a)
  clear_empty_flag-AreBytes q (x, started) (s, f) = (insert-lt q.started_priorities x s, f)
  clear_empty_flag-AreBytes q (x, finished) (s, f) = (s, insert-lt q.finished_priorities x f)
