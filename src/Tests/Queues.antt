-- ===== src/Tests/Queues.antt =====
-- The class and priority queues at fixed inputs.
use emcyphal.Common.{◌≡◌, false, refl, List, [], ◌∷◌, some, ℕ, arith}
use emcyphal.Core.Priority.{high, low}
use emcyphal.Utils.MultiClassQueue
use emcyphal.Utils.MultiClassQueue.{◌>>=◌}
use emcyphal.Utils.MultiClassQueue.Refine.{
  Op, move_back, move_front, front, back, remove, is_empty, run-new, spec_run,
}
use emcyphal.Utils.PriorityQueue
use emcyphal.Utils.PriorityQueue.{accepted, rejected}
use emcyphal.Utils.PriorityQueue.Spec
use emcyphal.Utils.PriorityQueue.Spec.{pushed, popped, waiting}
use emcyphal.Utils.PriorityQueue.Holds.{empty_spec}
use emcyphal.Utils.PriorityQueue.Refine.{run-spec_run}

abbrev class_ops : List Op
class_ops =
    move_back 0 1 ∷ move_back 0 2 ∷ move_front 1 1 ∷ front 0 ∷ back 1 ∷ remove 2 ∷ is_empty 0 ∷ []

run-new_example :
    (MultiClassQueue.new 2 3 >>= λ s. MultiClassQueue.Refine.run 2 3 s class_ops)
    ≡ some (spec_run (λ c. []) class_ops)
run-new_example = run-new 2 3 (omega arith) (omega arith) class_ops (
  (omega arith, omega arith),
  (
    (omega arith, omega arith),
    ((omega arith, omega arith), (omega arith, (omega arith, (omega arith, (omega arith, tt))))),
  ),
)

abbrev value_ops : List (Spec.Op ℕ)
value_ops =
    Spec.push low 5
    ∷ Spec.push high 6
    ∷ Spec.push low 7
    ∷ Spec.pop low
    ∷ Spec.waits low
    ∷ Spec.push low 8
    ∷ Spec.pop low
    ∷ []

value_replies :
    Spec.spec_run (empty_spec 2) value_ops
    ≡ pushed accepted
      ∷ pushed accepted
      ∷ pushed (rejected 7)
      ∷ popped (some 5)
      ∷ waiting false
      ∷ pushed accepted
      ∷ popped (some 8)
      ∷ []
unfolding Spec.spec_run Spec.spec_step Spec.spec_push Spec.spec_pop
value_replies = refl

run-spec_run_example :
    (PriorityQueue.new {V = ℕ} {n = 2} >>= λ s. PriorityQueue.Refine.run ℕ 2 s value_ops)
    ≡ some (Spec.spec_run (empty_spec 2) value_ops)
run-spec_run_example = run-spec_run ℕ 2 (omega arith) value_ops
