-- ===== src/Utils/PriorityMap.antt =====
-- emcyphal/src/utils.rs, `PriorityMap`: a map from priorities, with the set of its keys.
pub mod Laws
use emcyphal.Common.{Bool, Option, none, some}
use emcyphal.Core.Priority.{Priority}
use emcyphal.Core.PrioritySet
use emcyphal.Core.PrioritySet.{PrioritySet, none_set}
use emcyphal.Utils.PriorityArray.{PriorityArray, put}

pub record PriorityMap (V : Type 0) : Type 0 where
  pub key_set : PrioritySet
  pub values : PriorityArray (Option V)

module _ {V : Type 0} where
  abbrev pub new : PriorityMap V
  new = record { key_set = none_set; values = λ p. none }

  abbrev pub keys : PriorityMap V → PrioritySet
  keys m = m.key_set

  abbrev pub is_empty : PriorityMap V → Bool
  is_empty m = PrioritySet.is_empty m.key_set

  -- The new map, and the value that was there before.
  unfoldable pub insert : PriorityMap V → Priority → V → PriorityMap V × Option V
  insert m p v = (
    record { key_set = PrioritySet.insert m.key_set p; values = put m.values p (some v) },
    m.values p,
  )

  unfoldable pub remove : PriorityMap V → Priority → PriorityMap V × Option V
  remove m p = (
    record { key_set = PrioritySet.remove m.key_set p; values = put m.values p none },
    m.values p,
  )

  -- `map[key]`, which panics on a missing key.
  abbrev pub index : PriorityMap V → Priority → Option V
  index m p = m.values p

  -- `map[key] = v` for a key that is there.
  abbrev pub assign : PriorityMap V → Priority → V → PriorityMap V
  assign m p v = record m { values = put m.values p (some v) }
