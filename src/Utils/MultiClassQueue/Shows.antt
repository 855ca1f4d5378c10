-- ===== src/Utils/MultiClassQueue/Shows.antt =====
-- emcyphal/src/utils/multi_class_queue.rs: the state of a `MultiClassQueue` and the queue of each
-- class that it stands for.
use emcyphal.Common.{
  ℕ, ◌+◌, ◌<◌, ◌≤◌, ◌≡◌, ◌≢◌, ◌⊎◌, refl, sym, ap, ◌∙◌, inl, inr, Bool, true, false, List, [], ◌∷◌,
  ◌++◌, Option, none, some, ◌==◌, ==_refl, if◌then◌else◌, arith, lt→ltb, le→leb,
}
use emcyphal.Buffer.Owned.{count}
use emcyphal.Utils.DuplexArray.{from_fn}
use emcyphal.Utils.MultiClassQueue.{
  ◌>>=◌, MultiCycleList, MultiClassQueue, new_list, new, front, back, is_empty, remove, move_front,
  move_back, node_of, entry_of,
}
use emcyphal.Utils.MultiClassQueue.Chain.{Chain}
use emcyphal.Utils.MultiClassQueue.Rings.{
  Classes, Placed, Rings, Beside, neighbours, class_of, erase, count-erase, erase-absent,
  erase-once,
}
use emcyphal.Utils.MultiClassQueue.Moves.{unlink-Rings}
use emcyphal.Utils.MultiClassQueue.Puts.{
  with_class, front-Beside, back-Beside, put_back-Rings, put_front-Rings,
}
use emcyphal.Utils.MultiClassQueue.Writes.{
  next_of, prev_of, unbound, bound, bind_lem, next_lem, prev_lem, next-unbound, prev-unbound,
  next-bound, prev-bound, size-unbound, size-bound, unbind_lem, move_after_lem, move_before_lem,
}

-- The first and the last element.
abbrev pub head : List ℕ → Option ℕ
head [] = none
head (x ∷ xs) = some x

abbrev pub last : List ℕ → Option ℕ
last [] = none
last (x ∷ xs) = elim (last xs) [ none ↦ some x | some y ↦ some y ]

-- The classes once an entry is taken out of its class.
abbrev pub removed : Classes → ℕ → Classes
removed q e c = erase e (q c)

abbrev pub moved_back : Classes → ℕ → ℕ → Classes
moved_back q c e = with_class (removed q e) c (erase e (q c) ++ (e ∷ []))

abbrev pub moved_front : Classes → ℕ → ℕ → Classes
moved_front q c e = with_class (removed q e) c (e ∷ erase e (q c))

-- What a move to the back of `c` leaves in a class: the class it goes to, one that it was at the
-- front of, and any other.
pub moved_back-to :
    (q : Classes) (c e : ℕ) → count e (q c) ≡ 0 → moved_back q c e c ≡ q c ++ (e ∷ [])
moved_back-to q c e h =
    ap (λ t. if t then erase e (q c) ++ (e ∷ []) else erase e (q c)) (==_refl c)
    ∙ ap (λ t. t ++ (e ∷ [])) (erase-absent e (q c) h)

pub moved_back-other :
    (q : Classes) (c d e : ℕ) → c ≢ d → count e (q d) ≡ 0 → moved_back q c e d ≡ q d
moved_back-other q c d e ne h =
    let other : (c == d) ≡ false = ground (arith, ne) in
    ap (λ t. if t then erase e (q c) ++ (e ∷ []) else erase e (q d)) other ∙ erase-absent e (q d) h

pub moved_back-from :
    (q : Classes) (c d e : ℕ) (rest : List ℕ)
    → c ≢ d
    → q d ≡ e ∷ rest
    → count e (q d) ≤ 1
    → moved_back q c e d ≡ rest
moved_back-from q c d e rest ne whole once =
    let other : (c == d) ≡ false = ground (arith, ne) in
    ap (λ t. if t then erase e (q c) ++ (e ∷ []) else erase e (q d)) other
    ∙ ap (erase e) whole
    ∙ erase-once e [] rest (omega (arith, ap (count e) whole, once))

module _ (class_count entry_count : ℕ) where
  -- What the assertion on the constants gives, with room for an entry, and the cycles.
  pub record Shows (s : MultiClassQueue class_count entry_count) (q : Classes) : Type 0 where
    pub size : s.nodes.size ≡ class_count + entry_count
    pub narrow : class_count < 256
    pub fits : class_count + entry_count ≤ 256
    pub rings : Rings class_count entry_count (next_of s.nodes) (prev_of s.nodes) q

  Beside-lt :
      (q : Classes) (c e v : ℕ)
      → Placed class_count entry_count q
      → c < class_count
      → Beside class_count entry_count q c e v
      → v < class_count + entry_count
  Beside-lt q c e v r hc (inl f) = omega (arith, f, hc)
  Beside-lt q c e v r hc (inr (k, h, o, f)) = omega (arith, f, r.inside c k hc h)

  pub new-Shows :
      class_count < 256
      → class_count + entry_count ≤ 256
      → (s : MultiClassQueue class_count entry_count) × (new class_count entry_count ≡ some s)
        × Shows s (λ c. [])
  unfolding new new_list
  new-Shows narrow fits = (
    record { nodes = from_fn class_count entry_count (λ i. record { next = i; prev = i }) },
    rw (new, new_list, le→leb (class_count + entry_count) 256 fits),
    record {
      size = refl;
      narrow = narrow;
      fits = fits;
      rings = record {
        placed = record {
          inside = λ c k hc h. absurd (omega (arith, h));
          once = λ c k hc. omega arith;
          apart = λ c d k hc hd ne h. refl;
        };
        chain = λ c hc. (refl, refl);
        loose = λ k hk out. (refl, refl);
      };
    },
  )

  module _ (s : MultiClassQueue class_count entry_count) (q : Classes) (v : Shows s q) where
    -- The links of an entry lead into the array.
    neighbours-lt :
        (e : ℕ)
        → e < entry_count
        → (next_of s.nodes (class_count + e) < class_count + entry_count)
          × (prev_of s.nodes (class_count + e) < class_count + entry_count)
    neighbours-lt e he = elim (class_of class_count entry_count q e class_count) [
      | inl (c, hc, held) ↦
          let (ys, zs, whole, a, b, bp, bn) =
            neighbours class_count entry_count (next_of s.nodes) (prev_of s.nodes) q v.rings c e hc
              held in
          (Beside-lt q c e _ v.rings.placed hc bn, Beside-lt q c e _ v.rings.placed hc bp)
      | inr absent ↦
          let (a, b) = v.rings.loose e he absent in (omega (arith, a, he), omega (arith, b, he))
    ]

    node_lem : (e : ℕ) → e < entry_count → node_of class_count entry_count e ≡ class_count + e
    node_lem e he = omega (arith, v.narrow, v.fits)

    -- The state once an entry is unbound.
    abbrev rest : ℕ → MultiClassQueue class_count entry_count
    rest e = record s { nodes = unbound s.nodes (class_count + e) }

    rest-Shows : (e : ℕ) → e < entry_count → Shows (rest e) (removed q e)
    rest-Shows e he = record {
      size = size-unbound s.nodes (class_count + e) ∙ v.size;
      narrow = v.narrow;
      fits = v.fits;
      rings =
          unlink-Rings class_count entry_count (next_of s.nodes) (prev_of s.nodes)
            (next_of (unbound s.nodes (class_count + e)))
            (prev_of (unbound s.nodes (class_count + e))) q v.rings e he
            (next-unbound s.nodes (class_count + e)) (prev-unbound s.nodes (class_count + e));
    }

    -- An entry that is in range is taken out of its class, if it is in one.
    pub remove-Shows :
        (e : ℕ)
        → e < entry_count
        → (s' : MultiClassQueue class_count entry_count) × (remove class_count entry_count s e
            ≡ some s')
          × Shows s' (removed q e)
    unfolding remove
    remove-Shows e he =
        let (hn, hp) = neighbours-lt e he in
        let size = v.size in
        (
          rest e,
          rw (remove, lt→ltb e entry_count he, node_lem e he)
              (bind_lem _ (
                unbind_lem s.nodes (class_count + e) (omega (arith, size, he))
                  (omega (arith, size, hn)) (omega (arith, size, hp)))),
          rest-Shows e he,
        )

    module _ (c e : ℕ) (hc : c < class_count) (he : e < entry_count) where
      absent : (d : ℕ) → d < class_count → count e (removed q e d) ≡ 0
      absent d hd = count-erase e e (q d) ∙ rw (==_refl e)

      abbrev links : MultiCycleList
      links = unbound s.nodes (class_count + e)

      -- An entry is moved to the back of a class, from wherever it was.
      pub move_back-Shows :
          (s' : MultiClassQueue class_count entry_count) × (move_back class_count entry_count s c e
            ≡ some s')
          × Shows s' (moved_back q c e)
      unfolding move_back
      move_back-Shows =
          let (hn, hp) = neighbours-lt e he in
          let size = v.size in
          let w = rest-Shows e he in
          let l = links in
          let near = Beside-lt (removed q e) c e _ w.rings.placed hc (
            back-Beside class_count entry_count (next_of l) (prev_of l) (next_of l) (prev_of l)
              (removed q e) w.rings c e hc he absent) in
          (
            record s { nodes = bound l (class_count + e) (prev_of l c) c },
            rw (move_back, lt→ltb c class_count hc, lt→ltb e entry_count he, node_lem e he)
                (bind_lem _ (
                  move_before_lem s.nodes (class_count + e) (omega (arith, size, he))
                    (omega (arith, size, hn)) (omega (arith, size, hp)) c (omega (arith, size, hc))
                    (omega (arith, size, near)))),
            record {
              size = size-bound l (class_count + e) (prev_of l c) c ∙ w.size;
              narrow = v.narrow;
              fits = v.fits;
              rings =
                  put_back-Rings class_count entry_count (next_of l) (prev_of l) _ _ (removed q e)
                    w.rings c e hc he absent (next-bound l (class_count + e) (prev_of l c) c)
                    (prev-bound l (class_count + e) (prev_of l c) c);
            },
          )

      pub move_front-Shows :
          (s' : MultiClassQueue class_count entry_count) × (move_front class_count entry_count s c e
            ≡ some s')
          × Shows s' (moved_front q c e)
      unfolding move_front
      move_front-Shows =
          let (hn, hp) = neighbours-lt e he in
          let size = v.size in
          let w = rest-Shows e he in
          let l = links in
          let near = Beside-lt (removed q e) c e _ w.rings.placed hc (
            front-Beside class_count entry_count (next_of l) (prev_of l) (next_of l) (prev_of l)
              (removed q e) w.rings c e hc he absent) in
          (
            record s { nodes = bound l (class_count + e) c (next_of l c) },
            rw (move_front, lt→ltb c class_count hc, lt→ltb e entry_count he, node_lem e he)
                (bind_lem _ (
                  move_after_lem s.nodes (class_count + e) (omega (arith, size, he))
                    (omega (arith, size, hn)) (omega (arith, size, hp)) c (omega (arith, size, hc))
                    (omega (arith, size, near)))),
            record {
              size = size-bound l (class_count + e) c (next_of l c) ∙ w.size;
              narrow = v.narrow;
              fits = v.fits;
              rings =
                  put_front-Rings class_count entry_count (next_of l) (prev_of l) _ _ (removed q e)
                    w.rings c e hc he absent (next-bound l (class_count + e) c (next_of l c))
                    (prev-bound l (class_count + e) c (next_of l c));
            },
          )

    module _ (c : ℕ) (hc : c < class_count) where
      in_array : c < s.nodes.size
      in_array = omega (arith, v.size, hc)

      entry_of_class : entry_of class_count entry_count c ≡ none
      entry_of_class = ground (arith, v.narrow, hc)

      entry_of_entry : (x : ℕ) → entry_of class_count entry_count (class_count + x) ≡ some x
      entry_of_entry x = ground (arith, v.narrow)

      next_head :
          (l : List ℕ)
          → Chain class_count (next_of s.nodes) (prev_of s.nodes) c l c
          → entry_of class_count entry_count (next_of s.nodes c) ≡ head l
      next_head [] r = ap (entry_of class_count entry_count) r.0 ∙ entry_of_class
      next_head (x ∷ xs) r = ap (entry_of class_count entry_count) r.0 ∙ entry_of_entry x

      prev_last :
          (a : ℕ) (l : List ℕ)
          → Chain class_count (next_of s.nodes) (prev_of s.nodes) a l c
          → ((l ≡ []) × (prev_of s.nodes c ≡ a))
            ⊎ ((x : ℕ) × (last l ≡ some x) × (prev_of s.nodes c ≡ class_count + x))
      prev_last a [] r = inl (refl, r.1)
      prev_last a (x ∷ xs) r = elim (prev_last (class_count + x) xs r.2) [
        | inl (nil, f) ↦ inr (x, rw nil refl, f)
        | inr (y, g, f) ↦ inr (y, ap (λ t. elim t [ none ↦ some x | some z ↦ some z ]) g, f)
      ]

      -- `front` and `back` of a class are the ends of its queue.
      pub front_lem : front class_count entry_count s c ≡ some (head (q c))
      unfolding front
      front_lem =
          rw (front, lt→ltb c class_count hc)
            (bind_lem _ (next_lem s.nodes c in_array)
              ∙ ap some (next_head (q c) (v.rings.chain c hc)))

      pub back_lem : back class_count entry_count s c ≡ some (last (q c))
      unfolding back
      back_lem =
          rw (back, lt→ltb c class_count hc)
            (bind_lem _ (prev_lem s.nodes c in_array)
              ∙ ap some (elim (prev_last c (q c) (v.rings.chain c hc)) [
                | inl (nil, f) ↦
                    ap (entry_of class_count entry_count) f ∙ entry_of_class ∙ sym (ap last nil)
                | inr (x, g, f) ↦ ap (entry_of class_count entry_count) f ∙ entry_of_entry x ∙ sym g
              ]))

      pub is_empty_lem :
          is_empty class_count entry_count s c
          ≡ some (elim (head (q c)) [ none ↦ true | some _ ↦ false ])
      unfolding is_empty
      is_empty_lem =
          let shown =
            λ (o : Option ℕ). some (elim o as (λ x. Bool) [ none ↦ true | some _ ↦ false ]) in
          ap (λ t. if t then (front class_count entry_count s c >>= shown) else none)
            (lt→ltb c class_count hc)
          ∙ bind_lem shown front_lem
