-- ===== src/Core/PrioritySet/Algebra.antt =====
-- Intersection and union of sets of priorities, by their members.
use emcyphal.Common.{
  or-lt, ◌∙◌, ◌/◌, ◌^◌, ◌<◌, bit_and, bit_or, ◌≡◌, refl, Bool, true, false, not, ◌&&◌, ◌||◌, some,
  ◌==◌, arith, digit, digit-and, digit-or, digit-lt, and-one, and-le_left, Option-cases, Bool-cases,
  inl, inr, all_below, all_below_sound, bool_eq, bool_eq_sound,
}
use emcyphal.Core.Priority.{
  Priority, into_u8, exceptional, immediate, fast, high, nominal, low, slow, optional,
}
use emcyphal.Core.PrioritySet.{
  new_eq, PrioritySet, none_set, complement, contains, intersection, union, is_empty, first,
}
use emcyphal.Core.PrioritySet.Laws.{range_sets, first-some, first-none}
use emcyphal.Core.Priority.Laws.{all_levels, all_levels_sound, eq_sound}

-- Membership is a binary digit.
contains-digit : (s : PrioritySet) (p : Priority) → contains s p ≡ (digit (into_u8 p) s == 1)
unfolding contains
contains-digit s exceptional = ground (arith, and-one (s / 2 ^ 0))
contains-digit s immediate = ground (arith, and-one (s / 2 ^ 1))
contains-digit s fast = ground (arith, and-one (s / 2 ^ 2))
contains-digit s high = ground (arith, and-one (s / 2 ^ 3))
contains-digit s nominal = ground (arith, and-one (s / 2 ^ 4))
contains-digit s low = ground (arith, and-one (s / 2 ^ 5))
contains-digit s slow = ground (arith, and-one (s / 2 ^ 6))
contains-digit s optional = ground (arith, and-one (s / 2 ^ 7))

-- A priority is in the intersection of two sets exactly if it is in both.
pub contains-intersection :
    (s t : PrioritySet) (p : Priority)
    → contains (intersection s t) p ≡ (contains s p && contains t p)
unfolding intersection
contains-intersection s t p = ground (
  arith,
  contains-digit (bit_and s t) p,
  contains-digit s p,
  contains-digit t p,
  digit-and (into_u8 p) s t,
  digit-lt (into_u8 p) s,
  digit-lt (into_u8 p) t,
)

-- A priority is in the union of two sets exactly if it is in one of them.
pub contains-union :
    (s t : PrioritySet) (p : Priority) → contains (union s t) p ≡ (contains s p || contains t p)
unfolding union
contains-union s t p = ground (
  arith,
  contains-digit (bit_or s t) p,
  contains-digit s p,
  contains-digit t p,
  digit-or (into_u8 p) s t,
  digit-lt (into_u8 p) s,
  digit-lt (into_u8 p) t,
)

pub intersection-lt : (s t : PrioritySet) → s < 256 → intersection s t < 256
unfolding intersection
intersection-lt s t h = omega (arith, and-le_left s t)

-- The empty set has no member.
pub contains-none : (p : Priority) → contains none_set p ≡ false
unfolding contains
contains-none exceptional = refl
contains-none immediate = refl
contains-none fast = refl
contains-none high = refl
contains-none nominal = refl
contains-none low = refl
contains-none slow = refl
contains-none optional = refl

pub nonempty_of_contains :
    (s : PrioritySet) (p : Priority) → contains s p ≡ true → is_empty s ≡ false
nonempty_of_contains s p h = ground (arith, contains-none p)

pub first-of_nonempty :
    (s : PrioritySet) → s < 256 → is_empty s ≡ false → (p : Priority) × (first s ≡ some p)
first-of_nonempty s small h = elim (Option-cases (first s)) [
  | inl failed ↦ absurd (ground (arith, first-none s small failed))
  | inr found ↦ found
]

abbrev complement_test : PrioritySet → Bool
complement_test s = all_levels (λ p. bool_eq (contains (complement s) p) (not (contains s p)))

complement_table : all_below 256 complement_test ≡ true
unfolding all_below all_levels contains
complement_table = refl

pub contains-complement :
    (s : PrioritySet) (p : Priority) → s < 256 → contains (complement s) p ≡ not (contains s p)
contains-complement s p small = bool_eq_sound _ _ (
    all_levels_sound (λ q. bool_eq (contains (complement s) q) (not (contains s q))) p
      (all_below_sound 256 complement_test s complement_table small))

-- The set of one priority contains it, and meets a mask exactly if the mask contains it.
pub contains-new_eq : (p : Priority) → contains (new_eq p) p ≡ true
unfolding contains
contains-new_eq exceptional = refl
contains-new_eq immediate = refl
contains-new_eq fast = refl
contains-new_eq high = refl
contains-new_eq nominal = refl
contains-new_eq low = refl
contains-new_eq slow = refl
contains-new_eq optional = refl

pub empty_intersection : (mask : PrioritySet) → is_empty (intersection none_set mask) ≡ true
unfolding intersection
empty_intersection mask = ground (arith, and-le_left 0 mask)

pub new_eq-lt : (p : Priority) → new_eq p < 256
new_eq-lt p = omega arith

-- A member of a set is the only one where the set was made of one priority.
pub new_eq-intersection :
    (p : Priority) (mask : PrioritySet)
    → is_empty (intersection (new_eq p) mask) ≡ not (contains mask p)
new_eq-intersection p mask = elim (Bool-cases (contains mask p)) [
  | inl member ↦ rw member (
      nonempty_of_contains _ p
        (contains-intersection (new_eq p) mask p ∙ rw (contains-new_eq p, member)))
  | inr missing ↦ elim (Bool-cases (is_empty (intersection (new_eq p) mask))) [
    | inl empty ↦ rw (missing, empty)
    | inr nonempty ↦
        let (q, found) =
          first-of_nonempty (intersection (new_eq p) mask)
            (intersection-lt (new_eq p) mask (new_eq-lt p)) nonempty in
        let held =
          (first-some (intersection (new_eq p) mask) q q
            (intersection-lt (new_eq p) mask (new_eq-lt p)) found).0 in
        absurd (
          ground (
            arith,
            held,
            contains-intersection (new_eq p) mask q,
            (range_sets p q).0,
            eq_sound p q,
            missing,
          ))
  ]
]

pub union-lt : (s t : PrioritySet) → s < 256 → t < 256 → union s t < 256
unfolding union
union-lt s t h k = or-lt 8 s t h k
