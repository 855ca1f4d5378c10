-- ===== src/Core/PrioritySet/Laws.antt =====
-- emcyphal-core/src/lib.rs: what a `PrioritySet` holds, by evaluation over all 256 bytes.
use emcyphal.Common.{
  ◌<◌, ◌≡◌, refl, ap, ◌∙◌, sym, Bool, true, false, not, ◌&&◌, ◌||◌, Option, none, some, List, [],
  ◌∷◌, arith, ◌==◌, ltb, ltb→lt, bool_eq, bool_eq_sound, &&-left, &&-right, if◌then◌else◌,
  all_below, all_below_sound, ==_iff,
}
use emcyphal.Core.Priority.{Priority, max_priority, eq, le, levels}
use emcyphal.Core.Priority.Laws.{all_levels, all_levels_sound, eq_sound}
use emcyphal.Core.PrioritySet.{
  PrioritySet, contains, insert, remove, first, last, drain, new_eq, new_ge, new_le, new_gt, new_lt,
}

-- A test of a set and two priorities, over all of them.
everywhere : (PrioritySet → Priority → Priority → Bool) → Bool
everywhere t = all_below 256 (λ s. all_levels λ p. all_levels (t s p))

everywhere_sound :
    (t : PrioritySet → Priority → Priority → Bool) (s : PrioritySet) (p q : Priority)
    → everywhere t ≡ true
    → s < 256
    → t s p q ≡ true
unfolding everywhere
everywhere_sound t s p q e h = all_levels_sound (t s p) q (
    all_levels_sound (λ p'. all_levels (t s p')) p
      (all_below_sound 256 (λ s'. all_levels λ p'. all_levels (t s' p')) s e h))

abbrev insert_test : PrioritySet → Priority → Priority → Bool
insert_test s p q =
    ltb (insert s p) 256 && bool_eq (contains (insert s p) q) (eq p q || contains s q)

insert_table : everywhere insert_test ≡ true
unfolding everywhere all_below all_levels contains insert
insert_table = refl

-- After an insertion into any byte, a priority is contained if it is the inserted one or was
-- contained before, and otherwise is not.
pub contains-insert :
    (s : PrioritySet) (p q : Priority)
    → s < 256
    → contains (insert s p) q ≡ (eq p q || contains s q)
contains-insert s p q h =
    bool_eq_sound _ _ (&&-right _ _ (everywhere_sound insert_test s p q insert_table h))

pub insert-lt : (s : PrioritySet) (p : Priority) → s < 256 → insert s p < 256
insert-lt s p h = ltb→lt _ _ (&&-left _ _ (everywhere_sound insert_test s p p insert_table h))

abbrev remove_test : PrioritySet → Priority → Priority → Bool
remove_test s p q =
    ltb (remove s p) 256 && bool_eq (contains (remove s p) q) (not (eq p q) && contains s q)

remove_table : everywhere remove_test ≡ true
unfolding everywhere all_below all_levels contains remove
remove_table = refl

-- After a removal from any byte, a priority is contained if it is not the removed one and was
-- contained before, and otherwise is not.
pub contains-remove :
    (s : PrioritySet) (p q : Priority)
    → s < 256
    → contains (remove s p) q ≡ (not (eq p q) && contains s q)
contains-remove s p q h =
    bool_eq_sound _ _ (&&-right _ _ (everywhere_sound remove_test s p q remove_table h))

pub remove-lt : (s : PrioritySet) (p : Priority) → s < 256 → remove s p < 256
remove-lt s p h = ltb→lt _ _ (&&-left _ _ (everywhere_sound remove_test s p p remove_table h))

-- `found` is none of the empty set, else a member that no member precedes in the order `before`.
module _ (before : Priority → Priority → Bool) where
  bounds : PrioritySet → Option Priority → Priority → Bool
  bounds s none q = s == 0
  bounds s (some p) q = contains s p && (not (contains s q) || before p q)

  bounds-some :
      (s : PrioritySet) (p q : Priority)
      → bounds s (some p) q ≡ true
      → (contains s p ≡ true) × (contains s q ≡ true → before p q ≡ true)
  unfolding bounds
  bounds-some s p q h = ground arith

  bounds-none : (s : PrioritySet) (q : Priority) → bounds s none q ≡ true → s ≡ 0
  unfolding bounds
  bounds-none s q h = (==_iff s 0).0 h

abbrev first_test : PrioritySet → Priority → Priority → Bool
first_test s p q = bounds le s (first s) q

first_table : everywhere first_test ≡ true
unfolding everywhere all_below all_levels contains first bounds
first_table = refl

-- When `first` of a byte gives a priority, the set contains it, and it is numerically at most any
-- priority that the set contains.
pub first-some :
    (s : PrioritySet) (p q : Priority)
    → s < 256
    → first s ≡ some p
    → (contains s p ≡ true) × (contains s q ≡ true → le p q ≡ true)
first-some s p q h e =
    bounds-some le s p q
      (ap (λ f. bounds le s f q) (sym e) ∙ everywhere_sound first_test s p q first_table h)

pub first-none : (s : PrioritySet) → s < 256 → first s ≡ none → s ≡ 0
first-none s h e = bounds-none le s max_priority (
    ap (λ f. bounds le s f max_priority) (sym e)
    ∙ everywhere_sound first_test s max_priority max_priority first_table h)

abbrev ge : Priority → Priority → Bool
ge p q = le q p

abbrev last_test : PrioritySet → Priority → Priority → Bool
last_test s p q = bounds ge s (last s) q

last_table : everywhere last_test ≡ true
unfolding everywhere all_below all_levels contains last bounds
last_table = refl

-- When `last` of a byte gives a priority, the set contains it, and it is numerically at least any
-- priority that the set contains.
pub last-some :
    (s : PrioritySet) (p q : Priority)
    → s < 256
    → last s ≡ some p
    → (contains s p ≡ true) × (contains s q ≡ true → le q p ≡ true)
last-some s p q h e =
    bounds-some ge s p q
      (ap (λ f. bounds ge s f q) (sym e) ∙ everywhere_sound last_test s p q last_table h)

pub last-none : (s : PrioritySet) → s < 256 → last s ≡ none → s ≡ 0
last-none s h e = bounds-none ge s max_priority (
    ap (λ f. bounds ge s f max_priority) (sym e)
    ∙ everywhere_sound last_test s max_priority max_priority last_table h)

-- The members of a set in ascending order.
abbrev pub keep : PrioritySet → List Priority → List Priority
keep s [] = []
keep s (p ∷ ps) = if contains s p then p ∷ keep s ps else keep s ps

pub members : PrioritySet → List Priority
members s = keep s levels

abbrev same : List Priority → List Priority → Bool
same [] [] = true
same (p ∷ ps) (q ∷ qs) = eq p q && same ps qs
same _ _ = false

same_sound : (ps qs : List Priority) → same ps qs ≡ true → ps ≡ qs
same_sound [] [] h = refl
same_sound [] (q ∷ qs) h = cc
same_sound (p ∷ ps) [] h = cc
same_sound (p ∷ ps) (q ∷ qs) h = cc (
  eq_sound p q (&&-left (eq p q) (same ps qs) h),
  same_sound ps qs (&&-right (eq p q) (same ps qs) h),
)

abbrev drain_test : PrioritySet → Bool
drain_test s = same (drain 9 s) (members s)

drain_table : all_below 256 drain_test ≡ true
unfolding all_below contains drain members
drain_table = refl

-- Iterating over a set of priorities yields its members, each once, the most urgent first, and
-- ends: nine calls of the iterator are enough for any of the 256 sets.
pub drain_lem : (s : PrioritySet) → s < 256 → drain 9 s ≡ members s
drain_lem s h = same_sound _ _ (all_below_sound 256 drain_test s drain_table h)

abbrev range_test : PrioritySet → Priority → Priority → Bool
range_test s p q =
    bool_eq (contains (new_eq p) q) (eq p q)
    && (bool_eq (contains (new_ge p) q) (le p q)
        && (bool_eq (contains (new_le p) q) (le q p)
            && (bool_eq (contains (new_gt p) q) (not (le q p))
                && bool_eq (contains (new_lt p) q) (not (le p q)))))

range_table : all_levels (λ p. all_levels (range_test 0 p)) ≡ true
unfolding contains all_levels
range_table = refl

range_parts :
    (s : PrioritySet) (p q : Priority)
    → range_test s p q ≡ true
    → (contains (new_eq p) q ≡ eq p q)
      × (contains (new_ge p) q ≡ le p q)
      × (contains (new_le p) q ≡ le q p)
      × (contains (new_gt p) q ≡ not (le q p))
      × (contains (new_lt p) q ≡ not (le p q))
range_parts s p q t = ground (
  arith,
  bool_eq_sound (contains (new_eq p) q) (eq p q),
  bool_eq_sound (contains (new_ge p) q) (le p q),
)

-- The sets `new_eq`, `new_ge`, `new_le`, `new_gt` and `new_lt` of a priority contain exactly the
-- priorities that are equal to it, at least, at most, above and below it, by numerical value.
pub range_sets :
    (p q : Priority)
    → (contains (new_eq p) q ≡ eq p q)
      × (contains (new_ge p) q ≡ le p q)
      × (contains (new_le p) q ≡ le q p)
      × (contains (new_gt p) q ≡ not (le q p))
      × (contains (new_lt p) q ≡ not (le p q))
range_sets p q = range_parts 0 p q (
    all_levels_sound (range_test 0 p) q
      (all_levels_sound (λ p'. all_levels (range_test 0 p')) p range_table))
