-- ===== src/Utils/PriorityTrigger.antt =====
-- emcyphal/src/utils.rs, `PriorityTrigger`: a waker that waits for some priorities.
use emcyphal.Common.{not, if◌then◌else◌}
use emcyphal.Core.PrioritySet.{PrioritySet, none_set, intersection, is_empty}
use emcyphal.External.{Wakers}

pub record PriorityTrigger (w : Wakers) : Type 0 where
  pub waker : w.Registration
  pub filter : PrioritySet

module _ (w : Wakers) where
  abbrev pub new : PriorityTrigger w
  new = record { waker = w.new; filter = none_set }

  abbrev pub register : PriorityTrigger w → w.Waker → PrioritySet → PriorityTrigger w
  register t waker filter = record { waker = w.register t.waker waker; filter = filter }

  unfoldable pub wake : PriorityTrigger w → PrioritySet → PriorityTrigger w
  wake t priorities =
      if not (is_empty (intersection priorities t.filter))
      then record t { waker = w.wake t.waker }
      else t
