-- ===== src/Utils/MultiClassQueue/Relink.antt =====
-- Chains after an entry is taken out, or put in at an end.
use emcyphal.Common.{
  ℕ, ◌+◌, ◌≤◌, ◌≡◌, ◌≢◌, sym, ◌∙◌, inl, inr, List, [], ◌∷◌, ◌++◌, ◌==◌, ==_refl, if◌then◌else◌,
  arith,
}
use emcyphal.Buffer.Owned.{count, count-append}
use emcyphal.Utils.MultiClassQueue.Chain.{Chain, first-cases, last-cases, Chain-frame}

module _ (offset : ℕ) where
  -- A node that is none of the entries of a list.
  abbrev pub Apart : ℕ → List ℕ → Type 0
  Apart a xs = (k : ℕ) → a ≡ offset + k → count k xs ≡ 0

  -- The links after `x` is taken out from between `p` and `n`.
  abbrev pub Unlinked : (ℕ → ℕ) → (ℕ → ℕ) → ℕ → ℕ → ℕ → Type 0
  Unlinked f g x p n =
      (k : ℕ) → g k ≡ (if p == k then n else if offset + x == k then offset + x else f k)

  pub Apart-ne : (a k : ℕ) (xs : List ℕ) → Apart a xs → 1 ≤ count k xs → a ≢ offset + k
  Apart-ne a k xs apart h e = absurd (omega (arith, apart k e, h))

  module _ (nx pv nx' pv' : ℕ → ℕ) (x b : ℕ)
      (en : Unlinked nx nx' x (pv (offset + x)) (nx (offset + x)))
      (ep : Unlinked pv pv' x (nx (offset + x)) (pv (offset + x))) where
    -- Away from the neighbours nothing changes.
    nx_away : (k : ℕ) → pv (offset + x) ≢ k → offset + x ≢ k → nx' k ≡ nx k
    nx_away k p q = ground (arith, en k, p, q)

    pv_away : (k : ℕ) → nx (offset + x) ≢ k → offset + x ≢ k → pv' k ≡ pv k
    pv_away k p q = ground (arith, ep k, p, q)

    relink_first :
        (a : ℕ) (zs : List ℕ)
        → pv (offset + x) ≡ a
        → Chain offset nx pv (offset + x) zs b
        → ((k : ℕ) → count k (x ∷ zs) ≤ 1)
        → Apart a (x ∷ zs)
        → Apart b (x ∷ zs)
        → Chain offset nx' pv' a zs b
    relink_first a [] q (m, n) once ha hb = (ground (arith, en a, q, m), ground (arith, ep b, q, m))
    relink_first a (z ∷ zs) q (m, n, c) once ha hb = (
      ground (arith, en a, q, m),
      ground (arith, ep (offset + z), q, m),
      Chain-frame offset nx pv nx' pv' (offset + z) b zs c
          (nx_away (offset + z) (λ e. ground (arith, ha z, ==_refl z, q, e))
            (λ e. ground (arith, once z, ==_refl z, e)))
          (pv_away b (λ e. ground (arith, hb z, ==_refl z, m, e))
            (λ e. ground (arith, hb x, ==_refl x, e)))
          (λ k h. (
            nx_away (offset + k) (λ e. ground (arith, ha k, q, h, e))
                (λ e. ground (arith, once k, h, e)),
            pv_away (offset + k) (λ e. ground (arith, once k, m, h, e))
                (λ e. ground (arith, once k, h, e)),
          )),
    )

    -- The chain that leads to `x` and the chain behind it become one.
    pub relink :
        (a : ℕ) (ys zs : List ℕ)
        → Chain offset nx pv a ys (offset + x)
        → Chain offset nx pv (offset + x) zs b
        → ((k : ℕ) → count k ys + count k (x ∷ zs) ≤ 1)
        → Apart a (ys ++ (x ∷ zs))
        → Apart b (ys ++ (x ∷ zs))
        → Chain offset nx' pv' a (ys ++ zs) b
    relink a [] zs (p, q) c once ha hb = relink_first a zs q c (λ k. omega (arith, once k)) ha hb
    relink a (y ∷ ys) zs (p, q, c) d once ha hb = (
      nx_away a
            (λ e. elim (last-cases offset nx pv (offset + y) (offset + x) ys c) [
              | inl (nil, f) ↦ ground (arith, ha y, ==_refl y, e, f)
              | inr (k, h, f) ↦ omega (arith, ha k (sym e ∙ f), count-append k ys (x ∷ zs), h)
            ])
            (λ e. ground (arith, ha x, count-append x ys (x ∷ zs), ==_refl x, e))
          ∙ p,
      pv_away (offset + y)
            (λ e. elim (first-cases offset nx pv (offset + x) b zs d) [
              | inl (nil, f) ↦ ground (arith, hb y, ==_refl y, e, f)
              | inr (k, h, f) ↦ ground (arith, once k, h, e, f)
            ])
            (λ e. ground (arith, once x, ==_refl x, e))
          ∙ q,
      relink (offset + y) ys zs c d (λ k. omega (arith, once k))
          (λ k e. ground (arith, once k, count-append k ys (x ∷ zs), e))
          (λ k e. omega (arith, hb k e)),
    )

  -- The links after `x` is put between `p` and `n`.
  abbrev pub Linked : (ℕ → ℕ) → (ℕ → ℕ) → ℕ → ℕ → ℕ → Type 0
  Linked f g x at to =
      (k : ℕ) → g k ≡ (if at == k then offset + x else if offset + x == k then to else f k)

  module _ (nx pv nx' pv' : ℕ → ℕ) (x b : ℕ) where
    pub link_front :
        (a : ℕ) (xs : List ℕ)
        → Linked nx nx' x a (nx a)
        → Linked pv pv' x (nx a) a
        → Chain offset nx pv a xs b
        → ((k : ℕ) → count k (x ∷ xs) ≤ 1)
        → Apart a (x ∷ xs)
        → Apart b (x ∷ xs)
        → Chain offset nx' pv' a (x ∷ xs) b
    link_front a [] en ep (m, n) once ha hb =
        let a_ne = ha x in
        let b_ne = hb x in
        (
          ground (arith, en a),
          ground (arith, ep (offset + x), b_ne, ==_refl x, m),
          (ground (arith, en (offset + x), a_ne, ==_refl x, m), ground (arith, ep b, m)),
        )
    link_front a (z ∷ zs) en ep (m, n, c) once ha hb = (
      ground (arith, en a),
      ground (arith, ep (offset + x), once z, ==_refl z, m),
      (
        ground (arith, en (offset + x), ha x, ==_refl x, m),
        ground (arith, ep (offset + z), m),
        Chain-frame offset nx pv nx' pv' (offset + z) b zs c
            (ground (arith, en (offset + z), ha z, once z, ==_refl z))
            (ground (arith, ep b, hb z, hb x, ==_refl z, ==_refl x, m))
            (λ k h. (
              ground (arith, en (offset + k), ha k, once k, h),
              ground (arith, ep (offset + k), once k, h, m),
            )),
      ),
    )

    pub link_back :
        (a : ℕ) (xs : List ℕ)
        → Linked nx nx' x (pv b) b
        → Linked pv pv' x b (pv b)
        → Chain offset nx pv a xs b
        → ((k : ℕ) → count k (x ∷ xs) ≤ 1)
        → Apart a (x ∷ xs)
        → Apart b (x ∷ xs)
        → Chain offset nx' pv' a (xs ++ (x ∷ [])) b
    link_back a [] en ep (m, n) once ha hb = (
      ground (arith, en a, n),
      ground (arith, ep (offset + x), hb x, ==_refl x, n),
      (ground (arith, en (offset + x), ha x, ==_refl x, n), ground (arith, ep b)),
    )
    link_back a (z ∷ zs) en ep (m, n, c) once ha hb =
        let last : pv b ≢ a = λ e. elim (last-cases offset nx pv (offset + z) b zs c) [
          | inl (nil, f) ↦ ground (arith, ha z, ==_refl z, e, f)
          | inr (k, h, f) ↦ omega (arith, ha k (sym e ∙ f), h)
        ] in
        (
          ground (arith, en a, ha x, ==_refl x, last, m),
          ground (arith, ep (offset + z), hb z, once z, ==_refl z, n),
          link_back (offset + z) zs en ep c (λ k. omega (arith, once k))
              (λ k e. ground (arith, once k, e)) (λ k e. omega (arith, hb k e)),
        )
