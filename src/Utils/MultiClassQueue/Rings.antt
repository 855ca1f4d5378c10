-- ===== src/Utils/MultiClassQueue/Rings.antt =====
-- The cycles of all classes in one array of links, and what taking an entry out and putting one in
-- at an end of a class does to them.
use emcyphal.Common.{
  ℕ, zero, suc, ◌+◌, ◌<◌, ◌≤◌, ◌≡◌, ◌≢◌, ◌⊎◌, refl, ap, ◌∙◌, inl, inr, Bool-cases, List, [], ◌∷◌,
  ◌++◌, ◌==◌, ==_iff, ==_refl, if◌then◌else◌, arith,
}
use mathlib.Core.Path.{subst}
use emcyphal.Buffer.Owned.{count, count-append, split_at}
use emcyphal.Utils.MultiClassQueue.Chain.{Chain, first-cases, last-cases, Chain-split}

-- A queue for each class, entries from the front.
abbrev pub Classes : Type 0
Classes = ℕ → List ℕ

abbrev pub erase : ℕ → List ℕ → List ℕ
erase e [] = []
erase e (x ∷ xs) = if x == e then erase e xs else x ∷ erase e xs

pub count-erase :
    (e k : ℕ) (xs : List ℕ) → count k (erase e xs) ≡ (if e == k then 0 else count k xs)
count-erase e k [] = ground arith
count-erase e k (x ∷ xs) = ground (arith, count-erase e k xs)

pub erase-absent : (e : ℕ) (xs : List ℕ) → count e xs ≡ 0 → erase e xs ≡ xs
erase-absent e [] h = refl
erase-absent e (x ∷ xs) h = ground (arith, erase-absent e xs)

pub erase-once :
    (e : ℕ) (ys zs : List ℕ) → count e (ys ++ (e ∷ zs)) ≤ 1 → erase e (ys ++ (e ∷ zs)) ≡ ys ++ zs
erase-once e [] zs h = ground (arith, ==_refl e, erase-absent e zs)
erase-once e (y ∷ ys) zs h =
    ground (arith, count-append e ys (e ∷ zs), ==_refl e, erase-once e ys zs)

module _ (class_count entry_count : ℕ) where
  -- No entry stands in two places.
  pub record Placed (q : Classes) : Type 0 where
    pub inside : (c k : ℕ) → c < class_count → 1 ≤ count k (q c) → k < entry_count
    pub once : (c k : ℕ) → c < class_count → count k (q c) ≤ 1
    pub apart :
        (c d k : ℕ)
        → c < class_count
        → d < class_count
        → c ≢ d
        → 1 ≤ count k (q c)
        → count k (q d) ≡ 0

  -- The links make a cycle of each class, through its entries in order, and an entry that stands in
  -- none is its own neighbour.
  pub record Rings (nx pv : ℕ → ℕ) (q : Classes) : Type 0 where
    pub placed : Placed q
    pub chain : (c : ℕ) → c < class_count → Chain class_count nx pv c (q c) c
    pub loose :
        (k : ℕ)
        → k < entry_count
        → ((c : ℕ) → c < class_count → count k (q c) ≡ 0)
        → (nx (class_count + k) ≡ class_count + k) × (pv (class_count + k) ≡ class_count + k)

  pub erase-Placed : (q : Classes) (e : ℕ) → Placed q → Placed (λ c. erase e (q c))
  erase-Placed q e r = record {
    inside = λ c k hc h. r.inside c k hc (ground (arith, h, count-erase e k (q c)));
    once = λ c k hc. ground (arith, r.once c k hc, count-erase e k (q c));
    apart = λ c d k hc hd ne h.
        ground (arith, r.apart c d k hc hd ne, h, count-erase e k (q c), count-erase e k (q d));
  }

  -- The class of an entry, if it has one.
  pub class_of :
      (q : Classes) (e n : ℕ)
      → ((c : ℕ) × (c < n) × (1 ≤ count e (q c))) ⊎ ((c : ℕ) → c < n → count e (q c) ≡ 0)
  class_of q e zero = inr (λ c h. absurd (omega (arith, h)))
  class_of q e (suc n) = elim (Bool-cases (count e (q n) == 0)) [
    | inr held ↦ inl (n, omega arith, ground (arith, held))
    | inl not_here ↦ elim (class_of q e n) [
      | inl (c, h, held) ↦ inl (c, omega (arith, h), held)
      | inr absent ↦ inr λ c h. elim (Bool-cases (c == n)) [
        | inl same ↦
            let path = (==_iff c n).0 same in ap (λ t. count e (q t)) path ∙ (==_iff _ _).0 not_here
        | inr other ↦ absent c (ground (arith, other, h))
      ]
    ]
  ]

  -- A node of the cycle of a class, other than that of an entry.
  abbrev pub Beside : Classes → ℕ → ℕ → ℕ → Type 0
  Beside q c e v = (v ≡ c) ⊎ ((k : ℕ) × (1 ≤ count k (q c)) × (k ≢ e) × (v ≡ class_count + k))

  module _ (nx pv : ℕ → ℕ) (q : Classes) (r : Rings nx pv q) where
    -- An entry's neighbours.
    pub neighbours :
        (c e : ℕ)
        → c < class_count
        → 1 ≤ count e (q c)
        → (ys zs : List ℕ) × (q c ≡ ys ++ (e ∷ zs))
          × Chain class_count nx pv c ys (class_count + e)
          × Chain class_count nx pv (class_count + e) zs c
          × Beside q c e (pv (class_count + e))
          × Beside q c e (nx (class_count + e))
    neighbours c e hc held =
        let (ys, zs, whole) = split_at e (q c) held in
        let (a, b) =
          Chain-split class_count nx pv c c e ys zs
            (subst (λ t. Chain class_count nx pv c t c) whole (r.chain c hc)) in
        let n : (k : ℕ) → count k (q c) ≡ count k ys + count k (e ∷ zs) =
          λ k. ap (count k) whole ∙ count-append k ys (e ∷ zs) in
        (
          ys,
          zs,
          whole,
          a,
          b,
          elim (last-cases class_count nx pv c (class_count + e) ys a) [
            | inl (nil, f) ↦ inl f
            | inr (k, h, f) ↦ inr (
              k,
              omega (arith, n k, h),
              λ same. ground (arith, r.placed.once c k hc, n k, h, same),
              f,
            )
          ],
          elim (first-cases class_count nx pv (class_count + e) c zs b) [
            | inl (nil, f) ↦ inl f
            | inr (k, h, f) ↦ inr (
              k,
              ground (arith, n k, h),
              λ same. ground (arith, r.placed.once c k hc, n k, h, same),
              f,
            )
          ],
        )
