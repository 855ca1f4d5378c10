-- ===== src/Utils/PriorityQueue/Refine.antt =====
-- emcyphal/src/utils/priority_queue.rs against its specification, call after call.
use emcyphal.Common.{ℕ, ◌+◌, ◌≤◌, ◌≡◌, refl, ap, ◌∙◌, List, [], ◌∷◌, Option, some}
use emcyphal.Core.PrioritySet.{contains}
use emcyphal.Utils.MultiClassQueue.{◌>>=◌}
use emcyphal.Utils.MultiClassQueue.Writes.{bind_lem}
use emcyphal.Utils.PriorityQueue
use emcyphal.Utils.PriorityQueue.{
  PriorityQueue, Pushed, accepted, rejected, class_count, free_class, priorities,
}
use emcyphal.Utils.PriorityQueue.Spec.{
  Spec, Op, push, pop, waits, Reply, pushed, popped, waiting, spec_step, spec_run,
}
use emcyphal.Utils.PriorityQueue.Holds.{Holds, new-Holds, empty_spec}
use emcyphal.Utils.PriorityQueue.Does.{Does}
use emcyphal.Utils.PriorityQueue.Push.{push-Does}
use emcyphal.Utils.PriorityQueue.Pop.{pop-Does}

module _ (V : Type 0) (n : ℕ) where
  abbrev Q : Type 0
  Q = PriorityQueue V n

  -- The calls of the code.
  step : Q → Op V → Option (Q × Reply V)
  step s (push p v) = do (s', r) ← PriorityQueue.push s p v; some (s', pushed r)
  step s (pop p) = do (s', r) ← PriorityQueue.pop s p; some (s', popped r)
  step s (waits p) = some (s, waiting (contains (priorities s) p))

  unfoldable pub run : Q → List (Op V) → Option (List (Reply V))
  unfolding step
  run s [] = some []
  run s (op ∷ ops) = do r ← step s op; replies ← run (r.0) ops; some (r.1 ∷ replies)

  step-Does : (s : Q) (m : Spec V) (op : Op V) → Holds s m → Does (step s op) (spec_step m op)
  unfolding step spec_step
  step-Does s m (push p v) h = let (s', e, w) = push-Does V n s m h p v in (s', bind_lem _ e, w)
  step-Does s m (pop p) h = let (s', e, w) = pop-Does V n s m h p in (s', bind_lem _ e, w)
  step-Does s m (waits p) h = (s, ap (λ b. some (s, waiting b)) (h.marks p), h)

  run-Does :
      (s : Q) (m : Spec V) (ops : List (Op V)) → Holds s m → run s ops ≡ some (spec_run m ops)
  unfolding run spec_run
  run-Does s m [] h = refl
  run-Does s m (op ∷ ops) h =
      let (s', e, w) = step-Does s m op h in
      bind_lem _ e ∙ bind_lem _ (run-Does s' (spec_step m op).0 ops w)

  -- With at most 247 entries, any sequence of `push`, `pop` and questions whether `priorities` has a
  -- priority, on a new queue, panics nowhere, and its replies are those of a first-in-first-out list
  -- for each priority with room for `n` values between them: a push is refused, and gives its value
  -- back, exactly when no room is left.
  pub run-spec_run :
      class_count + n ≤ 256
      → (ops : List (Op V))
      → (PriorityQueue.new {V = V} {n = n} >>= λ s. run s ops) ≡ some (spec_run (empty_spec n) ops)
  run-spec_run fits ops =
      let (s, e, h) = new-Holds n fits in
      bind_lem (λ t. run t ops) e ∙ run-Does s (empty_spec n) ops h
