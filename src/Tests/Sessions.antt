-- ===== src/Tests/Sessions.antt =====
-- Insertions into a map for keys up to 9 with room for one of them.
use emcyphal.Common.{ℕ, ◌≡◌, refl, [], none, some, arith, ◌==◌, if◌then◌else◌}
use emcyphal.Utils.DuplexArray.{from_fn, repeat}
use emcyphal.Utils.MultiClassQueue.Shows.{Shows, new-Shows, move_back-Shows, moved_back}
use emcyphal.Utils.MultiClassQueue.{MultiClassQueue}
use emcyphal.Utils.IndexQueue
use emcyphal.Utils.IndexQueue.{IndexQueue, ok, class_count, free_class, no_entry}
use emcyphal.Utils.IndexQueue.Insert.{insert-present, insert-absent}

-- Its only entry is free.
abbrev queue : MultiClassQueue class_count 1
queue =
    let (s, e, v) = new-Shows class_count 1 (omega arith) (omega arith) in
    (move_back-Shows class_count 1 s (λ c. []) v free_class 0 (omega arith) (omega arith)).0

queue-Shows : Shows class_count 1 queue (moved_back (λ c. []) free_class 0)
queue-Shows =
    let (s, e, v) = new-Shows class_count 1 (omega arith) (omega arith) in
    (move_back-Shows class_count 1 s (λ c. []) v free_class 0 (omega arith) (omega arith)).2

abbrev vacant : IndexQueue ℕ 9 1
vacant = record {
  keys = from_fn 1 0 (λ i. none);
  values = from_fn 1 0 (λ i. none);
  index = repeat 1 9 no_entry;
  queue = queue;
}

abbrev taken : IndexQueue ℕ 9 1
taken = record {
  keys = from_fn 1 0 (λ i. some 3);
  values = from_fn 1 0 (λ i. some 70);
  index = from_fn 1 9 (λ i. if i == 3 then 0 else no_entry);
  queue = queue;
}

insert-absent_example :
    (s : IndexQueue ℕ 9 1) × (IndexQueue.insert vacant 3 70 ≡ some (s, ok none))
    × (IndexQueue.get s 3 ≡ some (some 70))
insert-absent_example =
    insert-absent vacant 3 70 (record { keys = refl; values = refl; index = refl }) (omega arith)
      (moved_back (λ c. []) free_class 0) 0 [] queue-Shows refl refl

insert-present_example :
    (s : IndexQueue ℕ 9 1) × (IndexQueue.insert taken 3 71 ≡ some (s, ok (some 70)))
    × (IndexQueue.get s 3 ≡ none)
insert-present_example =
    insert-present taken 3 71 (record { keys = refl; values = refl; index = refl }) (omega arith) 0
      70 refl (omega arith) (λ f. omega (arith, f)) refl
