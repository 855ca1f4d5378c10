-- ===== src/Utils/MultiClassQueue/Refine.antt =====
-- emcyphal/src/utils/multi_class_queue.rs against its specification: a list of entries for each
-- class, of which a client sees the ends.
use emcyphal.Common.{
  ℕ, ◌+◌, ◌<◌, ◌≤◌, ◌≡◌, refl, ◌∙◌, Bool, true, false, List, [], ◌∷◌, Option, none, some,
}
use emcyphal.Utils.MultiClassQueue
use emcyphal.Utils.MultiClassQueue.{◌>>=◌}
use emcyphal.Utils.MultiClassQueue.Rings.{Classes}
use emcyphal.Utils.MultiClassQueue.Writes.{bind_lem}
use emcyphal.Utils.MultiClassQueue.Shows.{
  Shows, head, last, removed, moved_back, moved_front, new-Shows, remove-Shows, move_back-Shows,
  move_front-Shows, front_lem, back_lem, is_empty_lem,
}

pub data Op : Type 0 where
  front back is_empty : ℕ → Op
  remove : ℕ → Op
  move_front move_back : ℕ → ℕ → Op

pub data Reply : Type 0 where
  end : Option ℕ → Reply
  vacant : Bool → Reply
  done : Reply

-- The specification, over the queue of each class.
pub spec_step : Classes → Op → Classes × Reply
spec_step q (front c) = (q, end (head (q c)))
spec_step q (back c) = (q, end (last (q c)))
spec_step q (is_empty c) = (q, vacant (elim (head (q c)) [ none ↦ true | some _ ↦ false ]))
spec_step q (remove e) = (removed q e, done)
spec_step q (move_front c e) = (moved_front q c e, done)
spec_step q (move_back c e) = (moved_back q c e, done)

unfoldable pub spec_run : Classes → List Op → List Reply
unfolding spec_step
spec_run q [] = []
spec_run q (op ∷ ops) = let (q', reply) = spec_step q op in reply ∷ spec_run q' ops

module _ (class_count entry_count : ℕ) where
  abbrev Q : Type 0
  Q = MultiClassQueue.MultiClassQueue class_count entry_count

  -- The calls of the code.
  pub step : Q → Op → Option (Q × Reply)
  step s (front c) = do e ← MultiClassQueue.front class_count entry_count s c; some (s, end e)
  step s (back c) = do e ← MultiClassQueue.back class_count entry_count s c; some (s, end e)
  step s (is_empty c) = do
    b ← MultiClassQueue.is_empty class_count entry_count s c
    some (s, vacant b)
  step s (remove e) = do s' ← MultiClassQueue.remove class_count entry_count s e; some (s', done)
  step s (move_front c e) = do
    s' ← MultiClassQueue.move_front class_count entry_count s c e
    some (s', done)
  step s (move_back c e) = do
    s' ← MultiClassQueue.move_back class_count entry_count s c e
    some (s', done)

  unfoldable pub run : Q → List Op → Option (List Reply)
  unfolding step
  run s [] = some []
  run s (op ∷ ops) = do r ← step s op; replies ← run (r.0) ops; some (r.1 ∷ replies)

  -- The indices that the assertions of the code accept.
  abbrev pub InRange : Op → Type 0
  InRange (front c) = c < class_count
  InRange (back c) = c < class_count
  InRange (is_empty c) = c < class_count
  InRange (remove e) = e < entry_count
  InRange (move_front c e) = (c < class_count) × (e < entry_count)
  InRange (move_back c e) = (c < class_count) × (e < entry_count)

  abbrev pub AllInRange : List Op → Type 0
  AllInRange [] = Unit {0}
  AllInRange (op ∷ ops) = InRange op × AllInRange ops

  step-Shows :
      (s : Q) (q : Classes) (op : Op)
      → Shows class_count entry_count s q
      → InRange op
      → (s' : Q) × (step s op ≡ some (s', (spec_step q op).1))
        × Shows class_count entry_count s' (spec_step q op).0
  unfolding step spec_step
  step-Shows s q (front c) v h = (s, bind_lem _ (front_lem class_count entry_count s q v c h), v)
  step-Shows s q (back c) v h = (s, bind_lem _ (back_lem class_count entry_count s q v c h), v)
  step-Shows s q (is_empty c) v h =
      (s, bind_lem _ (is_empty_lem class_count entry_count s q v c h), v)
  step-Shows s q (remove e) v h =
      let (s', e', w) = remove-Shows class_count entry_count s q v e h in (s', bind_lem _ e', w)
  step-Shows s q (move_front c e) v (hc, he) =
      let (s', e', w) = move_front-Shows class_count entry_count s q v c e hc he in
      (s', bind_lem _ e', w)
  step-Shows s q (move_back c e) v (hc, he) =
      let (s', e', w) = move_back-Shows class_count entry_count s q v c e hc he in
      (s', bind_lem _ e', w)

  run-Shows :
      (s : Q) (q : Classes) (ops : List Op)
      → Shows class_count entry_count s q
      → AllInRange ops
      → run s ops ≡ some (spec_run q ops)
  unfolding run spec_run
  run-Shows s q [] v h = refl
  run-Shows s q (op ∷ ops) v (here, later) =
      let (s', e, w) = step-Shows s q op v here in
      bind_lem _ e ∙ bind_lem _ (run-Shows s' (spec_step q op).0 ops w later)

  -- With fewer than 256 classes and at most 256 nodes, any sequence of calls with indices in range
  -- on a new queue panics nowhere, and its replies are those of a list of entries for each class:
  -- an entry that is moved leaves the list it was in and stands at the named end of the other.
  pub run-new :
      class_count < 256
      → class_count + entry_count ≤ 256
      → (ops : List Op) → AllInRange ops
      → (MultiClassQueue.new class_count entry_count >>= λ s. run s ops)
        ≡ some (spec_run (λ c. []) ops)
  run-new narrow fits ops h =
      let (s, e, v) = new-Shows class_count entry_count narrow fits in
      bind_lem (λ t. run t ops) e ∙ run-Shows s (λ c. []) ops v h
