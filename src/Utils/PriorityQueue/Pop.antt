-- ===== src/Utils/PriorityQueue/Pop.antt =====
-- emcyphal/src/utils/priority_queue.rs, `pop`, against its specification.
use emcyphal.Common.{
  ℕ, ◌+◌, ◌<◌, ◌≤◌, ◌≡◌, ◌≢◌, refl, sym, ap, ◌∙◌, inl, inr, Bool, true, false, not, Bool-cases,
  List, [], ◌∷◌, Option, none, some, ==_refl, if◌then◌else◌, arith, length, length-append,
}
use mathlib.Core.Path.{subst}
use emcyphal.Buffer.Owned.{count}
use emcyphal.Core.Priority.{Priority, eq}
use emcyphal.Core.Priority.Laws.{eq_sound}
use emcyphal.Core.PrioritySet
use emcyphal.Core.PrioritySet.{contains}
use emcyphal.Core.PrioritySet.Laws.{contains-remove, remove-lt}
use emcyphal.Utils.DuplexArray.{updated, get_lem, put_lem}
use emcyphal.Utils.MultiClassQueue.Writes.{bind_lem}
use emcyphal.Utils.MultiClassQueue.Shows.{
  head, move_back-Shows, moved_back, moved_back-to, moved_back-other, moved_back-from, is_empty_lem,
}
use emcyphal.Utils.PriorityQueue
use emcyphal.Utils.PriorityQueue.{
  PriorityQueue, Pushed, accepted, rejected, class_count, free_class, priorities,
}
use emcyphal.Utils.PriorityQueue.Spec.{Spec, with_list, occupied, spec_pop}
use emcyphal.Utils.PriorityQueue.Holds.{Values, Values-cases, Values-frame, class_of, Holds}
use emcyphal.Utils.PriorityQueue.Does.{
  with_list-Values, other_class, not_free, in_count, Does, front_of,
}

module _ (V : Type 0) (n : ℕ) where
  module _ (s : PriorityQueue V n) (m : Spec V) (h : Holds s m) (p : Priority) where
    module _ (e : ℕ) (es : List ℕ) (v : V) (vs : List V) (have : h.classes (class_of p) ≡ e ∷ es)
        (holds : s.entry_values.elems e ≡ some v) (later : Values s.entry_values.elems es vs) where
      first_in : 1 ≤ count e (h.classes (class_of p))
      first_in = ground (arith, ap (count e) have, ==_refl e)

      away : (c : ℕ) → c < class_count → class_of p ≢ c → count e (h.classes c) ≡ 0
      away c hc ne = h.shows.rings.placed.apart (class_of p) c e (in_count p) hc ne first_in

      entry-lt : e < n
      entry-lt = h.shows.rings.placed.inside (class_of p) e (in_count p) first_in

      left : moved_back h.classes free_class e (class_of p) ≡ es
      left =
          moved_back-from h.classes free_class (class_of p) e es (not_free p) have
            (h.shows.rings.placed.once (class_of p) e (in_count p))

      pop-Values :
          (r : Priority)
          → Values
              (updated s.entry_values e none).elems
              (moved_back h.classes free_class e (class_of r))
              (with_list m.lists p vs r)
      pop-Values =
          with_list-Values _ (λ r. moved_back h.classes free_class e (class_of r)) m.lists p _
            (subst (λ t. Values (updated s.entry_values e none).elems t vs) (sym left)
              (Values-frame s.entry_values e none es vs
                (ground (
                  arith,
                  ap (count e) have,
                  ==_refl e,
                  h.shows.rings.placed.once (class_of p) e (in_count p),
                ))
                later))
            (λ r other.
              let out = away (class_of r) (in_count r) (other_class p r other) in
              subst (λ t. Values (updated s.entry_values e none).elems t (m.lists r))
                (sym (moved_back-other h.classes free_class (class_of r) e (not_free r) out))
                (Values-frame s.entry_values e none _ _ out (h.values r)))

      pop_set : PrioritySet.PrioritySet
      pop_set = if not (occupied vs) then PrioritySet.remove s.priority_set p else s.priority_set

      pop_set-lt : pop_set < 256
      unfolding pop_set
      pop_set-lt = ground (arith, remove-lt s.priority_set p h.small, h.small)

      pop_marks :
          m.lists p ≡ v ∷ vs
          → (r : Priority) → contains pop_set r ≡ occupied (with_list m.lists p vs r)
      unfolding pop_set
      pop_marks whole r = elim (Bool-cases (eq p r)) [
        | inl same ↦
            let path = eq_sound p r same in
            ground (
              arith,
              contains-remove s.priority_set p r h.small,
              h.marks r,
              ap (λ t. occupied (m.lists t)) path,
              ap occupied whole,
              same,
            )
        | inr other ↦ ground (arith, contains-remove s.priority_set p r h.small, h.marks r, other)
      ]

      vacant_lem :
          (es : List ℕ) (vs : List V)
          → Values s.entry_values.elems es vs
          → elim (head es) [ none ↦ true | some _ ↦ false ] ≡ not (occupied vs)
      vacant_lem [] [] h = refl
      vacant_lem (e ∷ es) (v ∷ vs) h = refl
      vacant_lem [] (v ∷ vs) h = absurd h
      vacant_lem (e ∷ es) [] h = absurd h

      pop_popped :
          m.lists p ≡ v ∷ vs
          → Does
              (PriorityQueue.pop s p)
              (record { room = m.room + 1; lists = with_list m.lists p vs }, some v)
      unfolding PriorityQueue.pop pop_set
      pop_popped whole =
          let size = h.size in
          let (q', e', w) =
            move_back-Shows class_count n s.entry_queue h.classes h.shows free_class e (omega arith)
              entry-lt in
          let gone = away free_class (omega arith) (λ f. not_free p (sym f)) in
          let grown = moved_back-to h.classes free_class e gone in
          (
            _,
            bind_lem _ (front_of s m h (class_of p) (in_count p) ∙ ap (λ l. some (head l)) have)
                ∙ bind_lem _ e'
                ∙ bind_lem _ (
                    is_empty_lem class_count n q' _ w (class_of p) (in_count p)
                    ∙ ap (λ l. some (elim (head l) as (λ _. Bool) [ none ↦ true | some _ ↦ false ]))
                        left
                    ∙ ap some (vacant_lem es vs later))
                ∙ bind_lem _
                    (get_lem s.entry_values e (omega (arith, size, entry-lt)) ∙ ap some holds)
                ∙ bind_lem _ (put_lem s.entry_values e none (omega (arith, size, entry-lt))),
            record {
              classes = moved_back h.classes free_class e;
              shows = w;
              free =
                  omega
                    (arith, ap length grown, length-append (h.classes free_class) (e ∷ []), h.free);
              size = size;
              values = pop-Values;
              small = pop_set-lt;
              marks = pop_marks whole;
            },
          )

    pub pop-Does : Does (PriorityQueue.pop s p) (spec_pop m p)
    unfolding spec_pop PriorityQueue.pop
    pop-Does =
        let Goal = λ (l : List V).
          Does (PriorityQueue.pop s p) (elim l as (λ _. Spec V × Option V) [
            | [] ↦ (m, none)
            | v ∷ vs ↦ (record { room = m.room + 1; lists = with_list m.lists p vs }, some v)
          ]) in
        elim (Values-cases s.entry_values.elems (h.classes (class_of p)) (m.lists p) (h.values p)) [
          | inl (nil, nothing) ↦ subst Goal (sym nothing) (
            s,
            bind_lem _ (front_of s m h (class_of p) (in_count p) ∙ ap (λ l. some (head l)) nil),
            h,
          )
          | inr (e, es, v, vs, have, whole, holds, later) ↦
              subst Goal (sym whole) (pop_popped e es v vs have holds later whole)
        ]
