-- ===== src/Utils/PriorityMap/Laws.antt =====
-- emcyphal/src/utils.rs: the keys of a `PriorityMap` and the priorities that have a value.
use emcyphal.Common.{◌<◌, ◌≡◌, Bool, true, false, Option, none, some, arith, Bool-cases, inl, inr}
use emcyphal.Core.Priority.{Priority, eq}
use emcyphal.Core.Priority.Laws.{eq_sound}
use emcyphal.Core.PrioritySet.{contains}
use emcyphal.Core.PrioritySet.Laws.{contains-insert, contains-remove, insert-lt, remove-lt}
use emcyphal.Core.PrioritySet.Algebra.{contains-none}
use emcyphal.Utils.PriorityMap.{PriorityMap, new, insert, remove, assign}

abbrev pub is_some {ℓ} : {A : Type ℓ} → Option A → Bool
is_some none = false
is_some (some _) = true

module _ {V : Type 0} where
  pub record IsMap (m : PriorityMap V) : Type 0 where
    pub small : m.key_set < 256
    pub exact : (p : Priority) → contains m.key_set p ≡ is_some (m.values p)

  pub new-IsMap : IsMap new
  new-IsMap = record { small = omega arith; exact = contains-none }

  pub insert-IsMap : (m : PriorityMap V) (p : Priority) (v : V) → IsMap m → IsMap (insert m p v).0
  unfolding insert
  insert-IsMap m p v h = record {
    small = insert-lt m.key_set p h.small;
    exact = λ q. ground (arith, contains-insert m.key_set p q h.small, h.exact q);
  }

  pub remove-IsMap : (m : PriorityMap V) (p : Priority) → IsMap m → IsMap (remove m p).0
  unfolding remove
  remove-IsMap m p h = record {
    small = remove-lt m.key_set p h.small;
    exact = λ q. ground (arith, contains-remove m.key_set p q h.small, h.exact q);
  }

  pub assign-IsMap :
      (m : PriorityMap V) (p : Priority) (v w : V)
      → m.values p ≡ some w
      → IsMap m
      → IsMap (assign m p v)
  assign-IsMap m p v w e h = record {
    small = h.small;
    exact = λ q. elim (Bool-cases (eq p q)) [
      | inl same ↦ ground (arith, h.exact p, eq_sound p q same)
      | inr other ↦ ground (arith, h.exact q)
    ];
  }
