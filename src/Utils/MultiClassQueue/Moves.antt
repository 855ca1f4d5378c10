-- ===== src/Utils/MultiClassQueue/Moves.antt =====
-- The cycles of all classes when an entry is taken out and when one is put in.
use emcyphal.Common.{
  ℕ, ◌+◌, ◌<◌, ◌≤◌, ◌≡◌, ◌≢◌, ◌⊎◌, refl, sym, ap, ◌∙◌, inl, inr, Bool-cases, ◌∷◌, ◌++◌, ◌==◌,
  ==_iff, ==_refl, arith,
}
use mathlib.Core.Path.{subst}
use emcyphal.Buffer.Owned.{count, count-append}
use emcyphal.Utils.MultiClassQueue.Chain.{Chain, Chain-frame}
use emcyphal.Utils.MultiClassQueue.Relink.{Unlinked, relink}
use emcyphal.Utils.MultiClassQueue.Rings.{
  Classes, Rings, erase-Placed, Beside, neighbours, class_of, erase, count-erase, erase-absent,
  erase-once,
}

module _ (class_count entry_count : ℕ) where
  pub Beside-ne_class :
      (q : Classes) (c d e v : ℕ)
      → d < class_count
      → c ≢ d
      → Beside class_count entry_count q c e v
      → v ≢ d
  Beside-ne_class q c d e v hd ne (inl f) = λ g. ne (sym f ∙ g)
  Beside-ne_class q c d e v hd ne (inr (k, h, o, f)) = λ g. omega (arith, f, g, hd)

  pub Beside-ne_entry :
      (q : Classes) (c e j v : ℕ)
      → c < class_count
      → (count j (q c) ≡ 0) ⊎ (e ≡ j)
      → Beside class_count entry_count q c e v
      → v ≢ class_count + j
  Beside-ne_entry q c e j v hc out (inl f) = λ g. omega (arith, f, g, hc)
  Beside-ne_entry q c e j v hc (inl z) (inr (k, h, o, f)) = λ g.
      let same : k ≡ j = omega (arith, f, g) in omega (arith, h, z, ap (λ t. count t (q c)) same)
  Beside-ne_entry q c e j v hc (inr z) (inr (k, h, o, f)) = λ g. o (omega (arith, f, g, z))

  module _ (nx pv nx' pv' : ℕ → ℕ) (q : Classes) (r : Rings class_count entry_count nx pv q) where
    -- Where no link of a class changes its cycle stays.
    same-Chain :
        (c : ℕ)
        → c < class_count
        → nx' c ≡ nx c
        → pv' c ≡ pv c
        → ((k : ℕ)
            → 1 ≤ count k (q c)
            → (nx' (class_count + k) ≡ nx (class_count + k))
              × (pv' (class_count + k) ≡ pv (class_count + k)))
        → Chain class_count nx' pv' c (q c) c
    same-Chain c hc en ep same =
        Chain-frame class_count nx pv nx' pv' c c (q c) (r.chain c hc) en ep same

    module _ (e : ℕ) (he : e < entry_count)
        (en : Unlinked class_count nx nx' e (pv (class_count + e)) (nx (class_count + e)))
        (ep : Unlinked class_count pv pv' e (nx (class_count + e)) (pv (class_count + e))) where
      -- An entry without a class changes nothing.
      module _ (absent : (c : ℕ) → c < class_count → count e (q c) ≡ 0) where
        unlink_loose : (k : ℕ) → (nx' k ≡ nx k) × (pv' k ≡ pv k)
        unlink_loose k =
            let (a, b) = r.loose e he absent in
            elim (Bool-cases (class_count + e == k)) [
              | inl same ↦
                  let path = (==_iff _ _).0 same in
                  let ak = ap nx path in
                  let bk = ap pv path in
                  (ground (arith, en k, a, b, ak), ground (arith, ep k, a, b, bk))
              | inr other ↦ (ground (arith, en k, a, b, other), ground (arith, ep k, a, b, other))
            ]

        unlink_loose-Rings : Rings class_count entry_count nx' pv' (λ c. erase e (q c))
        unlink_loose-Rings = record {
          chain = λ c hc.
              subst (λ t. Chain class_count nx' pv' c t c)
                (sym (erase-absent e (q c) (absent c hc)))
                (same-Chain c hc (unlink_loose c).0 (unlink_loose c).1
                  (λ k h. unlink_loose (class_count + k)));
          placed = erase-Placed class_count entry_count q e r.placed;
          loose = λ k hk out. elim (Bool-cases (e == k)) [
            | inl same ↦
                let path = (==_iff e k).0 same in
                let (a, b) = r.loose e he absent in
                subst
                  (λ t.
                    (nx' (class_count + t) ≡ class_count + t)
                    × (pv' (class_count + t) ≡ class_count + t))
                  path
                  ((unlink_loose (class_count + e)).0 ∙ a, (unlink_loose (class_count + e)).1 ∙ b)
            | inr other ↦
                let (a, b) =
                  r.loose k hk (λ c hc. ground (arith, out c hc, count-erase e k (q c), other)) in
                ((unlink_loose (class_count + k)).0 ∙ a, (unlink_loose (class_count + k)).1 ∙ b)
          ];
        }

      module _ (c0 : ℕ) (h0 : c0 < class_count) (held : 1 ≤ count e (q c0)) where
        away :
            (k : ℕ)
            → pv (class_count + e) ≢ k
            → nx (class_count + e) ≢ k
            → class_count + e ≢ k
            → (nx' k ≡ nx k) × (pv' k ≡ pv k)
        away k p n o = (ground (arith, en k, p, o), ground (arith, ep k, n, o))

        -- Nothing changes at an entry of no class, or of another one.
        away_entry :
            (k : ℕ)
            → e ≢ k
            → count k (q c0) ≡ 0
            → (nx' (class_count + k) ≡ nx (class_count + k))
              × (pv' (class_count + k) ≡ pv (class_count + k))
        away_entry k ne out =
            let (ys, zs, whole, a, b, bp, bn) =
              neighbours class_count entry_count nx pv q r c0 e h0 held in
            away (class_count + k) (Beside-ne_entry q c0 e k _ h0 (inl out) bp)
              (Beside-ne_entry q c0 e k _ h0 (inl out) bn) (λ f. ne (omega (arith, f)))

        unlinked-Chain : Chain class_count nx' pv' c0 (erase e (q c0)) c0
        unlinked-Chain =
            let (ys, zs, whole, a, b, bp, bn) =
              neighbours class_count entry_count nx pv q r c0 e h0 held in
            let n : (k : ℕ) → count k (q c0) ≡ count k (ys ++ (e ∷ zs)) = λ k. ap (count k) whole in
            let short : erase e (q c0) ≡ ys ++ zs =
              ap (erase e) whole ∙ erase-once e ys zs (omega (arith, n e, r.placed.once c0 e h0)) in
            subst (λ t. Chain class_count nx' pv' c0 t c0) (sym short)
              (relink class_count nx pv nx' pv' e c0 en ep c0 ys zs a b
                (λ k. omega (arith, n k, count-append k ys (e ∷ zs), r.placed.once c0 k h0))
                (λ k f. absurd (omega (arith, f, h0))) (λ k f. absurd (omega (arith, f, h0))))

        unlink_held-Rings : Rings class_count entry_count nx' pv' (λ c. erase e (q c))
        unlink_held-Rings =
            let (ys, zs, whole, a, b, bp, bn) =
              neighbours class_count entry_count nx pv q r c0 e h0 held in
            record {
              placed = erase-Placed class_count entry_count q e r.placed;
              chain = λ c hc. elim (Bool-cases (c0 == c)) [
                | inl same ↦
                    subst (λ t. Chain class_count nx' pv' t (erase e (q t)) t)
                      ((==_iff c0 c).0 same) unlinked-Chain
                | inr other ↦
                    let ne : c0 ≢ c = λ f. ground (arith, other, f) in
                    let gone = r.placed.apart c0 c e h0 hc ne held in
                    let here =
                      away c (Beside-ne_class q c0 c e _ hc ne bp)
                        (Beside-ne_class q c0 c e _ hc ne bn) (λ f. omega (arith, f, hc)) in
                    subst (λ t. Chain class_count nx' pv' c t c) (sym (erase-absent e (q c) gone))
                      (same-Chain c hc here.0 here.1 (λ k h.
                        away_entry k (λ f. ground (arith, h, ap (λ t. count t (q c)) f, gone))
                          (r.placed.apart c c0 k hc h0 (λ f. ne (sym f)) h)))
              ];
              loose = λ k hk out. elim (Bool-cases (e == k)) [
                | inl same ↦
                    let p = Beside-ne_entry q c0 e e _ h0 (inr refl) bp in
                    let n = Beside-ne_entry q c0 e e _ h0 (inr refl) bn in
                    subst
                      (λ t.
                        (nx' (class_count + t) ≡ class_count + t)
                        × (pv' (class_count + t) ≡ class_count + t))
                      ((==_iff e k).0 same)
                      (
                        ground (arith, en (class_count + e), p, ==_refl (class_count + e)),
                        ground (arith, ep (class_count + e), n, ==_refl (class_count + e)),
                      )
                | inr other ↦
                    let none_of : (c : ℕ) → c < class_count → count k (q c) ≡ 0 =
                      λ c hc. ground (arith, out c hc, count-erase e k (q c), other) in
                    let (a', b') = r.loose k hk none_of in
                    let w = away_entry k (λ f. ground (arith, other, f)) (none_of c0 h0) in
                    (w.0 ∙ a', w.1 ∙ b')
              ];
            }

      -- An entry that is taken out is in no class.
      pub unlink-Rings : Rings class_count entry_count nx' pv' (λ c. erase e (q c))
      unlink-Rings = elim (class_of class_count entry_count q e class_count) [
        | inl (c0, h0, held) ↦ unlink_held-Rings c0 h0 held
        | inr absent ↦ unlink_loose-Rings absent
      ]
