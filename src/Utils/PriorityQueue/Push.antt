-- ===== src/Utils/PriorityQueue/Push.antt =====
-- emcyphal/src/utils/priority_queue.rs, `push`, against its specification.
use emcyphal.Common.{
  ℕ, ◌-◌, ◌<◌, ◌≤◌, ◌≡◌, sym, ap, ◌∙◌, inl, inr, Bool, true, false, List, [], ◌∷◌, ◌++◌, some, ◌==◌,
  ==_refl, if◌then◌else◌, arith, length,
}
use mathlib.Core.Path.{subst}
use emcyphal.Buffer.Owned.{count}
use emcyphal.Core.Priority.{Priority}
use emcyphal.Core.PrioritySet.Laws.{contains-insert, insert-lt}
use emcyphal.Utils.DuplexArray.{updated, put_lem}
use emcyphal.Utils.MultiClassQueue.Writes.{bind_lem}
use emcyphal.Utils.MultiClassQueue.Shows.{
  head, move_back-Shows, moved_back, moved_back-to, moved_back-other, moved_back-from,
}
use emcyphal.Utils.PriorityQueue
use emcyphal.Utils.PriorityQueue.{
  PriorityQueue, Pushed, accepted, rejected, class_count, free_class, priorities,
}
use emcyphal.Utils.PriorityQueue.Spec.{Spec, with_list, spec_push}
use emcyphal.Utils.PriorityQueue.Holds.{
  Values, Values-frame, Values-append, list_cases, class_of, occupied-append, Holds,
}
use emcyphal.Utils.PriorityQueue.Does.{
  with_list-Values, other_class, not_free, in_count, Does, front_of,
}

module _ (V : Type 0) (n : ℕ) where
  module _ (s : PriorityQueue V n) (m : Spec V) (h : Holds s m) (p : Priority) where
    module _ (value : V) (e : ℕ) (es : List ℕ) (have : h.classes free_class ≡ e ∷ es) where
      taken : 1 ≤ count e (h.classes free_class)
      taken = ground (arith, ap (count e) have, ==_refl e)

      elsewhere : (r : Priority) → count e (h.classes (class_of r)) ≡ 0
      elsewhere r =
          h.shows.rings.placed.apart free_class (class_of r) e (omega arith) (in_count r)
            (not_free r) taken

      in_range : e < n
      in_range = h.shows.rings.placed.inside free_class e (omega arith) taken

      push-Values :
          (r : Priority)
          → Values
              (updated s.entry_values e (some value)).elems
              (moved_back h.classes (class_of p) e (class_of r))
              (with_list m.lists p (m.lists p ++ (value ∷ [])) r)
      push-Values =
          let kept = λ (r : Priority).
            Values-frame s.entry_values e (some value) (h.classes (class_of r)) (m.lists r)
              (elsewhere r) (h.values r) in
          with_list-Values _ (λ r. moved_back h.classes (class_of p) e (class_of r)) m.lists p _
            (subst
              (λ t.
                Values (updated s.entry_values e (some value)).elems t (m.lists p ++ (value ∷ [])))
              (sym (moved_back-to h.classes (class_of p) e (elsewhere p)))
              (Values-append _ e value _ _
                (ap (λ t. if t then some value else s.entry_values.elems e) (==_refl e)) (kept p)))
            (λ r other.
              subst (λ t. Values (updated s.entry_values e (some value)).elems t (m.lists r))
                (sym (
                  moved_back-other h.classes (class_of p) (class_of r) e (other_class p r other)
                    (elsewhere r)))
                (kept r))

      push_accepted : Does (PriorityQueue.push s p value) (
        record { room = m.room - 1; lists = with_list m.lists p (m.lists p ++ (value ∷ [])) },
        accepted,
      )
      unfolding PriorityQueue.push
      push_accepted =
          let size = h.size in
          let (q', e', v) =
            move_back-Shows class_count n s.entry_queue h.classes h.shows (class_of p) e
              (in_count p) in_range in
          let left =
            moved_back-from h.classes (class_of p) free_class e es (λ f. not_free p (sym f)) have
              (h.shows.rings.placed.once free_class e (omega arith)) in
          (
            _,
            bind_lem _ (front_of s m h free_class (omega arith) ∙ ap (λ l. some (head l)) have)
                ∙ bind_lem _ e'
                ∙ bind_lem _
                    (put_lem s.entry_values e (some value) (omega (arith, size, in_range))),
            record {
              classes = moved_back h.classes (class_of p) e;
              shows = v;
              free = omega (arith, ap length left, ap length have, h.free);
              size = size;
              values = push-Values;
              small = insert-lt s.priority_set p h.small;
              marks = λ r. ground (
                arith,
                contains-insert s.priority_set p r h.small,
                h.marks r,
                occupied-append (m.lists p) value,
              );
            },
          )

    push_rejected :
        (value : V)
        → h.classes free_class ≡ []
        → Does (PriorityQueue.push s p value) (m, rejected value)
    unfolding PriorityQueue.push
    push_rejected value none_free = (
      s,
      bind_lem _ (front_of s m h free_class (omega arith) ∙ ap (λ l. some (head l)) none_free),
      h,
    )

    pub push-Does : (value : V) → Does (PriorityQueue.push s p value) (spec_push m p value)
    unfolding spec_push
    push-Does value =
        let Goal = λ (b : Bool). Does (PriorityQueue.push s p value) (
          if b then (m, rejected value) else (
            record { room = m.room - 1; lists = with_list m.lists p (m.lists p ++ (value ∷ [])) },
            accepted,
          )) in
        elim (list_cases (h.classes free_class)) [
          | inl none_free ↦
              let full : (m.room == 0) ≡ true = ground (arith, ap length none_free, h.free) in
              subst Goal (sym full) (push_rejected value none_free)
          | inr (e, es, have) ↦
              let spare : (m.room == 0) ≡ false = ground (arith, ap length have, h.free) in
              subst Goal (sym spare) (push_accepted value e es have)
        ]
