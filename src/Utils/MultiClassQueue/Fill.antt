-- ===== src/Utils/MultiClassQueue/Fill.antt =====
-- The loop with which the constructors of emcyphal/src/utils/priority_queue.rs and index_queue.rs put
-- every entry of a `MultiClassQueue` into the class of the free ones.
use emcyphal.Common.{
  ℕ, zero, suc, ◌+◌, ◌<◌, ◌≤◌, ◌≡◌, ◌≢◌, refl, ap, ◌∙◌, [], ◌∷◌, Option, none, some, ltb, lt→ltb,
  if◌then◌else◌, arith, length, length-append,
}
use mathlib.Core.Path.{subst}
use emcyphal.Buffer.Owned.{count, count-append}
use emcyphal.Utils.MultiClassQueue.{◌>>=◌, MultiClassQueue, move_back}
use emcyphal.Utils.MultiClassQueue.Rings.{Classes}
use emcyphal.Utils.MultiClassQueue.Writes.{bind_lem}
use emcyphal.Utils.MultiClassQueue.Shows.{
  Shows, move_back-Shows, moved_back, moved_back-to, moved_back-other,
}

module _ (class_count n free_class : ℕ) where
  -- The rounds that are left and the next index.
  unfoldable pub fill :
      ℕ → ℕ → MultiClassQueue class_count n → Option (MultiClassQueue class_count n)
  fill zero i q = some q
  fill (suc rounds) i q = do
    entry ← if ltb i 256 then some i else none
    q' ← move_back class_count n q free_class entry
    fill rounds (i + 1) q'

  -- The classes while it runs.
  pub record Filled (q : Classes) (i : ℕ) : Type 0 where
    pub others : (c : ℕ) → free_class ≢ c → q c ≡ []
    pub free : length (q free_class) ≡ i
    pub fresh : (k : ℕ) → i ≤ k → count k (q free_class) ≡ 0

  Filled-suc : (q : Classes) (i : ℕ) → Filled q i → Filled (moved_back q free_class i) (i + 1)
  Filled-suc q i f =
      let to = moved_back-to q free_class i (f.fresh i (omega arith)) in
      record {
        others = λ c ne.
            moved_back-other q free_class c i ne (ap (count i) (f.others c ne)) ∙ f.others c ne;
        free = omega (arith, ap length to, length-append (q free_class) (i ∷ []), f.free);
        fresh = λ k h.
            ground (arith, ap (count k) to, count-append k (q free_class) (i ∷ []), f.fresh k, h);
      }

  fill-Filled :
      (rounds i : ℕ) (s : MultiClassQueue class_count n) (q : Classes)
      → free_class < class_count
      → rounds + i ≡ n
      → Shows class_count n s q
      → Filled q i
      → (s' : MultiClassQueue class_count n) × (q' : Classes) × (fill rounds i s ≡ some s')
        × Shows class_count n s' q'
        × Filled q' n
  unfolding fill
  fill-Filled zero i s q hc h v f =
      let full : i ≡ n = omega (arith, h) in (s, q, refl, v, subst (Filled q) full f)
  fill-Filled (suc rounds) i s q hc h v f =
      let fits = v.fits in
      let narrow = v.narrow in
      let (s', e, w) = move_back-Shows class_count n s q v free_class i hc (omega (arith, h)) in
      let (s'', q'', e', w', f') =
        fill-Filled rounds (i + 1) s' (moved_back q free_class i) hc (omega (arith, h)) w
          (Filled-suc q i f) in
      (
        s'',
        q'',
        ap
              (λ t. (if t then some i else none) >>= λ k.
                move_back class_count n s free_class k >>= fill rounds (i + 1))
              (lt→ltb i 256 (omega (arith, fits, h)))
            ∙ bind_lem (fill rounds (i + 1)) e
            ∙ e',
        w',
        f',
      )

  -- From the empty classes on, every entry gets to the free ones.
  pub fill-Shows :
      (s : MultiClassQueue class_count n)
      → free_class < class_count
      → Shows class_count n s (λ c. [])
      → (s' : MultiClassQueue class_count n) × (q' : Classes) × (fill n 0 s ≡ some s')
        × Shows class_count n s' q'
        × Filled q' n
  fill-Shows s hc v =
      fill-Filled n 0 s (λ c. []) hc (omega arith) v
        (record { others = λ c ne. refl; free = refl; fresh = λ k h. refl })
