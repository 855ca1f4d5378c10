-- ===== src/Utils/PriorityQueue/Spec.antt =====
-- emcyphal/src/utils/priority_queue.rs: the specification, a list of values for each priority, the
-- oldest first, and room for so many more.
use emcyphal.Common.{
  ℕ, ◌+◌, ◌-◌, Bool, true, false, Option, none, some, List, [], ◌∷◌, ◌++◌, ◌==◌, if◌then◌else◌,
}
use emcyphal.Core.Priority.{Priority, eq}
use emcyphal.Utils.PriorityQueue.{Pushed, accepted, rejected}

abbrev pub Lists : Type 0 → Type 0
Lists V = Priority → List V

pub record Spec (V : Type 0) : Type 0 where
  pub room : ℕ
  pub lists : Lists V

-- What a client calls; `waits` is a member of `priorities`.
pub data Op (V : Type 0) : Type 0 where
  push : Priority → V → Op V
  pop waits : Priority → Op V

pub data Reply (V : Type 0) : Type 0 where
  pushed : Pushed V → Reply V
  popped : Option V → Reply V
  waiting : Bool → Reply V

module _ {V : Type 0} where
  abbrev pub with_list : Lists V → Priority → List V → Lists V
  with_list lists p l r = if eq p r then l else lists r

  abbrev pub occupied : List V → Bool
  occupied [] = false
  occupied (v ∷ vs) = true

  unfoldable pub spec_push : Spec V → Priority → V → Spec V × Pushed V
  spec_push m p v = if m.room == 0 then (m, rejected v) else (
    record { room = m.room - 1; lists = with_list m.lists p (m.lists p ++ (v ∷ [])) },
    accepted,
  )

  unfoldable pub spec_pop : Spec V → Priority → Spec V × Option V
  spec_pop m p = elim (m.lists p) [
    | [] ↦ (m, none)
    | v ∷ vs ↦ (record { room = m.room + 1; lists = with_list m.lists p vs }, some v)
  ]

  unfoldable pub spec_step : Spec V → Op V → Spec V × Reply V
  unfolding spec_push spec_pop
  spec_step m (push p v) = let (m', r) = spec_push m p v in (m', pushed r)
  spec_step m (pop p) = let (m', r) = spec_pop m p in (m', popped r)
  spec_step m (waits p) = (m, waiting (occupied (m.lists p)))

  unfoldable pub spec_run : Spec V → List (Op V) → List (Reply V)
  unfolding spec_step
  spec_run m [] = []
  spec_run m (op ∷ ops) = let (m', reply) = spec_step m op in reply ∷ spec_run m' ops
