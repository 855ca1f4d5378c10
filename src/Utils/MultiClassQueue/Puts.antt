-- ===== src/Utils/MultiClassQueue/Puts.antt =====
-- The cycles of all classes when an entry of no class is put at an end of one.
use emcyphal.Common.{
  ℕ, ◌+◌, ◌<◌, ◌≤◌, ◌≡◌, ◌≢◌, refl, sym, ap, ◌∙◌, inl, inr, true, false, Bool-cases, List, [], ◌∷◌,
  ◌++◌, ◌==◌, ==_iff, ==_refl, if◌then◌else◌, arith,
}
use mathlib.Core.Path.{subst}
use emcyphal.Buffer.Owned.{count, count-append}
use emcyphal.Utils.MultiClassQueue.Chain.{Chain, first-cases, last-cases, Chain-frame}
use emcyphal.Utils.MultiClassQueue.Relink.{Linked, link_front, link_back}
use emcyphal.Utils.MultiClassQueue.Rings.{Classes, Placed, Rings, Beside}
use emcyphal.Utils.MultiClassQueue.Moves.{Beside-ne_class, Beside-ne_entry}

-- The classes with another list for one of them.
abbrev pub with_class : Classes → ℕ → List ℕ → Classes
with_class q c0 l c = if c0 == c then l else q c

module _ (class_count entry_count : ℕ) (q : Classes) (c0 e : ℕ) (h0 : c0 < class_count)
    (he : e < entry_count) (absent : (c : ℕ) → c < class_count → count e (q c) ≡ 0) (new : List ℕ)
    (counted : (k : ℕ) → count k new ≡ count k (q c0) + (if e == k then 1 else 0)) where
  count-put :
      (c k : ℕ)
      → count k (with_class q c0 new c)
        ≡ count k (q c) + (if c0 == c then (if e == k then 1 else 0) else 0)
  count-put c k = elim (Bool-cases (c0 == c)) [
    | inl same ↦
        let path = (==_iff c0 c).0 same in
        ap (λ t. count k (if t then new else q c)) same
        ∙ counted k
        ∙ ap (λ t. count k (q t) + (if e == k then 1 else 0)) path
        ∙ sym (ap (λ t. count k (q c) + (if t then (if e == k then 1 else 0) else 0)) same)
    | inr other ↦ ap (λ t. count k (if t then new else q c)) other ∙ ground (arith, other)
  ]

  gone : (k c : ℕ) → c < class_count → (e == k) ≡ true → count k (q c) ≡ 0
  gone k c hc same = ap (λ t. count t (q c)) (sym ((==_iff e k).0 same)) ∙ absent c hc

  put-Placed :
      Placed class_count entry_count q → Placed class_count entry_count (with_class q c0 new)
  put-Placed r = record {
    inside = λ c k hc h. elim (Bool-cases (e == k)) [
      | inl same ↦ ground (arith, same)
      | inr other ↦ r.inside c k hc (ground (arith, h, count-put c k, other))
    ];
    once = λ c k hc. ground (arith, r.once c k hc, count-put c k, gone k c hc);
    apart = λ c d k hc hd ne h. elim (Bool-cases (e == k)) [
      | inl same ↦
          ground
            (arith, h, count-put c k, count-put d k, gone k c hc same, gone k d hd same, ne, same)
      | inr other ↦ ground (arith, r.apart c d k hc hd ne, h, count-put c k, count-put d k, other)
    ];
  }

  module _ (nx pv nx' pv' : ℕ → ℕ) (r : Rings class_count entry_count nx pv q) (p n : ℕ)
      (en : Linked class_count nx nx' e p n) (ep : Linked class_count pv pv' e n p)
      (bp : Beside class_count entry_count q c0 e p) (bn : Beside class_count entry_count q c0 e n)
      (ring : Chain class_count nx' pv' c0 new c0) where
    put_away : (k : ℕ) → p ≢ k → n ≢ k → class_count + e ≢ k → (nx' k ≡ nx k) × (pv' k ≡ pv k)
    put_away k hp hn o = (ground (arith, en k, hp, o), ground (arith, ep k, hn, o))

    put_away_entry :
        (k : ℕ)
        → (e == k) ≡ false
        → count k (q c0) ≡ 0
        → (nx' (class_count + k) ≡ nx (class_count + k))
          × (pv' (class_count + k) ≡ pv (class_count + k))
    put_away_entry k other out =
        put_away (class_count + k)
          (Beside-ne_entry class_count entry_count q c0 e k p h0 (inl out) bp)
          (Beside-ne_entry class_count entry_count q c0 e k n h0 (inl out) bn)
          (λ f. ground (arith, other, f))

    put-Rings : Rings class_count entry_count nx' pv' (with_class q c0 new)
    put-Rings = record {
      placed = put-Placed r.placed;
      chain = λ c hc. elim (Bool-cases (c0 == c)) [
        | inl same ↦
            subst (λ t. Chain class_count nx' pv' c (if t then new else q c) c) (sym same)
              (subst (λ t. Chain class_count nx' pv' t new t) ((==_iff c0 c).0 same) ring)
        | inr other ↦
            let ne : c0 ≢ c = λ f. ground (arith, other, f) in
            let here =
              put_away c (Beside-ne_class class_count entry_count q c0 c e p hc ne bp)
                (Beside-ne_class class_count entry_count q c0 c e n hc ne bn)
                (λ f. omega (arith, f, hc)) in
            subst (λ t. Chain class_count nx' pv' c (if t then new else q c) c) (sym other)
              (Chain-frame class_count nx pv nx' pv' c c (q c) (r.chain c hc) here.0 here.1 (λ k h.
                put_away_entry k
                  (elim (Bool-cases (e == k)) [
                    | inl at ↦ absurd (omega (arith, gone k c hc at, h))
                    | inr off ↦ off
                  ])
                  (r.placed.apart c c0 k hc h0 (λ f. ne (sym f)) h)))
      ];
      loose = λ k hk out.
          let off : (e == k) ≡ false = ground (arith, out c0 h0, count-put c0 k, ==_refl c0) in
          let none_of : (c : ℕ) → c < class_count → count k (q c) ≡ 0 =
            λ c hc. ground (arith, out c hc, count-put c k) in
          let (a, b) = r.loose k hk none_of in
          let w = put_away_entry k off (none_of c0 h0) in (w.0 ∙ a, w.1 ∙ b);
    }

module _ (class_count entry_count : ℕ) (nx pv nx' pv' : ℕ → ℕ) (q : Classes)
    (r : Rings class_count entry_count nx pv q) (c e : ℕ) (hc : c < class_count)
    (he : e < entry_count) (absent : (d : ℕ) → d < class_count → count e (q d) ≡ 0) where
  once_more : (k : ℕ) → count k (e ∷ q c) ≤ 1
  once_more k = elim (Bool-cases (e == k)) [
    | inl same ↦
        let z = ap (λ t. count t (q c)) (sym ((==_iff e k).0 same)) ∙ absent c hc in
        ground (arith, same, z)
    | inr other ↦ ground (arith, r.placed.once c k hc, other)
  ]

  -- The neighbours of the ends of a class.
  pub front-Beside : Beside class_count entry_count q c e (nx c)
  front-Beside = elim (first-cases class_count nx pv c c (q c) (r.chain c hc)) [
    | inl (nil, f) ↦ inl f
    | inr (k, h, f) ↦
        inr (k, h, (λ same. omega (arith, h, ap (λ t. count t (q c)) same, absent c hc)), f)
  ]

  pub back-Beside : Beside class_count entry_count q c e (pv c)
  back-Beside = elim (last-cases class_count nx pv c c (q c) (r.chain c hc)) [
    | inl (nil, f) ↦ inl f
    | inr (k, h, f) ↦
        inr (k, h, (λ same. omega (arith, h, ap (λ t. count t (q c)) same, absent c hc)), f)
  ]

  pub put_back-Rings :
      Linked class_count nx nx' e (pv c) c
      → Linked class_count pv pv' e c (pv c)
      → Rings class_count entry_count nx' pv' (with_class q c (q c ++ (e ∷ [])))
  put_back-Rings en ep =
      put-Rings class_count entry_count q c e hc he absent (q c ++ (e ∷ []))
        (λ k. count-append k (q c) (e ∷ []) ∙ omega arith) nx pv nx' pv' r (pv c) c en ep
        back-Beside (inl refl)
        (link_back class_count nx pv nx' pv' e c c (q c) en ep (r.chain c hc) once_more
          (λ k f. absurd (omega (arith, f, hc))) (λ k f. absurd (omega (arith, f, hc))))

  pub put_front-Rings :
      Linked class_count nx nx' e c (nx c)
      → Linked class_count pv pv' e (nx c) c
      → Rings class_count entry_count nx' pv' (with_class q c (e ∷ q c))
  put_front-Rings en ep =
      put-Rings class_count entry_count q c e hc he absent (e ∷ q c) (λ k. omega arith) nx pv nx'
        pv' r c (nx c) en ep (inl refl) front-Beside
        (link_front class_count nx pv nx' pv' e c c (q c) en ep (r.chain c hc) once_more
          (λ k f. absurd (omega (arith, f, hc))) (λ k f. absurd (omega (arith, f, hc))))
