-- ===== src/Utils/PriorityQueue/Holds.antt =====
-- emcyphal/src/utils/priority_queue.rs: the state of a `PriorityQueue` and the lists of values that it
-- stands for.
use emcyphal.Common.{
  ℕ, ◌+◌, ◌<◌, ◌≤◌, ◌≡◌, ◌⊎◌, refl, sym, ap, ◌∙◌, inl, inr, true, false, List, [], ◌∷◌, ◌++◌,
  Option, none, some, ◌==◌, if◌then◌else◌, arith, length,
}
use mathlib.Core.Path.{subst}
use emcyphal.Buffer.Owned.{count}
use emcyphal.Core.Priority.{Priority, into_u8}
use emcyphal.Core.Priority.Laws.{into_u8-lt}
use emcyphal.Core.PrioritySet.{contains}
use emcyphal.Core.PrioritySet.Algebra.{contains-none}
use emcyphal.Utils.DuplexArray.{DuplexArray, updated}
use emcyphal.Utils.MultiClassQueue.Rings.{Classes}
use emcyphal.Utils.MultiClassQueue.Writes.{bind_lem}
use emcyphal.Utils.MultiClassQueue.Shows.{Shows, new-Shows}
use emcyphal.Utils.MultiClassQueue.Fill.{fill-Shows}
use emcyphal.Utils.PriorityQueue.{PriorityQueue, priority_class, class_count, free_class, new}
use emcyphal.Utils.PriorityQueue.Spec.{Spec, occupied}

-- The entries of a class hold the values of a list, in order.
abbrev pub Values : {V : Type 0} → (ℕ → Option V) → List ℕ → List V → Type 0
Values el [] [] = Unit {0}
Values el (e ∷ es) (v ∷ vs) = (el e ≡ some v) × Values el es vs
Values el [] (v ∷ vs) = ⊥
Values el (e ∷ es) [] = ⊥

pub list_cases : (l : List ℕ) → (l ≡ []) ⊎ ((x : ℕ) × (xs : List ℕ) × (l ≡ x ∷ xs))
list_cases [] = inl refl
list_cases (x ∷ xs) = inr (x, xs, refl)

module _ {V : Type 0} where
  pub Values-cases :
      (el : ℕ → Option V) (es : List ℕ) (vs : List V)
      → Values el es vs
      → ((es ≡ []) × (vs ≡ []))
        ⊎ ((e : ℕ) × (es' : List ℕ) × (v : V) × (vs' : List V) × (es ≡ e ∷ es')
            × (vs ≡ v ∷ vs')
            × (el e ≡ some v)
            × Values el es' vs')
  Values-cases el [] [] h = inl (refl, refl)
  Values-cases el (e ∷ es) (v ∷ vs) h = inr (e, es, v, vs, refl, refl, h.0, h.1)
  Values-cases el [] (v ∷ vs) h = absurd h
  Values-cases el (e ∷ es) [] h = absurd h

  -- A write to an entry that is not in the class.
  pub Values-frame :
      (a : DuplexArray (Option V)) (k : ℕ) (o : Option V) (es : List ℕ) (vs : List V)
      → count k es ≡ 0
      → Values a.elems es vs
      → Values (updated a k o).elems es vs
  Values-frame a k o [] [] z h = h
  Values-frame a k o (e ∷ es) (v ∷ vs) z h = (
    let other : (k == e) ≡ false = ground (arith, z) in
        ap (λ t. if t then o else a.elems e) other ∙ h.0,
    Values-frame a k o es vs (omega (arith, z)) h.1,
  )
  Values-frame a k o [] (v ∷ vs) z h = h
  Values-frame a k o (e ∷ es) [] z h = h

  pub Values-append :
      (el : ℕ → Option V) (k : ℕ) (w : V) (es : List ℕ) (vs : List V)
      → el k ≡ some w
      → Values el es vs
      → Values el (es ++ (k ∷ [])) (vs ++ (w ∷ []))
  Values-append el k w [] [] f h = (f, h)
  Values-append el k w (e ∷ es) (v ∷ vs) f h = (h.0, Values-append el k w es vs f h.1)
  Values-append el k w [] (v ∷ vs) f h = absurd h
  Values-append el k w (e ∷ es) [] f h = absurd h

  pub occupied-append : (vs : List V) (v : V) → occupied (vs ++ (v ∷ [])) ≡ true
  occupied-append [] v = refl
  occupied-append (x ∷ vs) v = refl

-- The class of a priority.
abbrev pub class_of : Priority → ℕ
class_of p = priority_class + into_u8 p

module _ {V : Type 0} {n : ℕ} where
  pub record Holds (s : PriorityQueue V n) (m : Spec V) : Type 0 where
    pub classes : Classes
    pub shows : Shows class_count n s.entry_queue classes
    pub free : length (classes free_class) ≡ m.room
    pub size : s.entry_values.size ≡ n
    pub values : (p : Priority) → Values s.entry_values.elems (classes (class_of p)) (m.lists p)
    pub small : s.priority_set < 256
    pub marks : (p : Priority) → contains s.priority_set p ≡ occupied (m.lists p)

abbrev pub empty_spec : {V : Type 0} → ℕ → Spec V
empty_spec n = record { room = n; lists = λ p. [] }

pub new-Holds :
    {V : Type 0} (n : ℕ)
    → class_count + n ≤ 256
    → (s : PriorityQueue V n) × (new ≡ some s) × Holds s (empty_spec n)
unfolding new
new-Holds {V = V} n fits =
    let (s, e, v) = new-Shows class_count n (omega arith) fits in
    let (s', q', e', v', f) = fill-Shows class_count n free_class s (omega arith) v in
    let none_in : (p : Priority) → q' (class_of p) ≡ [] =
      λ p. f.others (class_of p) (λ g. omega (arith, g, into_u8-lt p)) in
    (
      _,
      bind_lem _ e ∙ bind_lem _ e',
      record {
        classes = q';
        shows = v';
        free = f.free;
        size = omega arith;
        values = λ p. subst (λ t. Values {V = V} (λ i. none) t []) (sym (none_in p)) tt;
        small = omega arith;
        marks = contains-none;
      },
    )
