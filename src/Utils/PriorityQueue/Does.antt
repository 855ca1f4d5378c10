-- ===== src/Utils/PriorityQueue/Does.antt =====
-- emcyphal/src/utils/priority_queue.rs: what a call of a `PriorityQueue` does, set against its
-- specification.
use emcyphal.Common.{
  ℕ, ◌<◌, ◌≡◌, ◌≢◌, sym, inl, inr, false, Bool-cases, List, Option, some, if◌then◌else◌, arith,
}
use mathlib.Core.Path.{subst}
use emcyphal.Core.Priority.{Priority, eq}
use emcyphal.Core.Priority.Laws.{into_u8-lt, eq_sound, eq_refl}
use emcyphal.Utils.MultiClassQueue.{front}
use emcyphal.Utils.MultiClassQueue.Shows.{head, front_lem}
use emcyphal.Utils.PriorityQueue.{PriorityQueue, class_count, free_class}
use emcyphal.Utils.PriorityQueue.Spec.{Spec, Lists, with_list}
use emcyphal.Utils.PriorityQueue.Holds.{Values, class_of, Holds}

-- The values of all classes once those of one priority are replaced.
pub with_list-Values :
    {V : Type 0} (el : ℕ → Option V) (cls : Priority → List ℕ) (lists : Lists V) (p : Priority)
    (l : List V)
    → Values el (cls p) l
    → ((r : Priority) → eq p r ≡ false → Values el (cls r) (lists r))
    → (r : Priority) → Values el (cls r) (with_list lists p l r)
with_list-Values el cls lists p l v others r = elim (Bool-cases (eq p r)) [
  | inl same ↦
      subst (λ t. Values el (cls t) (with_list lists p l t)) (eq_sound p r same)
        (subst (λ b. Values el (cls p) (if b then l else lists p)) (sym (eq_refl p)) v)
  | inr other ↦
      subst (λ b. Values el (cls r) (if b then l else lists r)) (sym other) (others r other)
]

pub other_class : (p r : Priority) → eq p r ≡ false → class_of p ≢ class_of r
other_class p r h = λ f. ground (arith, f, h)

pub not_free : (p : Priority) → free_class ≢ class_of p
not_free p = λ f. omega (arith, f, into_u8-lt p)

pub in_count : (p : Priority) → class_of p < class_count
in_count p = omega (arith, into_u8-lt p)

module _ {V : Type 0} {n : ℕ} where
  -- A call panics nowhere, replies as the specification does, and keeps the relation.
  abbrev pub Does : {R : Type 0} → Option (PriorityQueue V n × R) → Spec V × R → Type 0
  Does o x = (s' : PriorityQueue V n) × (o ≡ some (s', x.1)) × Holds s' x.0

  pub front_of :
      (s : PriorityQueue V n) (m : Spec V) (h : Holds s m) (c : ℕ)
      → c < class_count
      → front class_count n s.entry_queue c ≡ some (head (h.classes c))
  front_of s m h c hc = front_lem class_count n s.entry_queue h.classes h.shows c hc
