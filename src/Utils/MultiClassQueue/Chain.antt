-- ===== src/Utils/MultiClassQueue/Chain.antt =====
-- Doubly linked chains: a node, entries that follow each other, and the node they lead to. The node
-- of entry `x` is `offset + x`.
use emcyphal.Common.{
  ◌⊎◌, ℕ, ◌+◌, ◌≤◌, ◌≡◌, refl, ◌∙◌, inl, inr, List, [], ◌∷◌, ◌++◌, ==_refl, arith,
}
use emcyphal.Buffer.Owned.{count}

module _ (offset : ℕ) where
  abbrev pub Chain : (ℕ → ℕ) → (ℕ → ℕ) → ℕ → List ℕ → ℕ → Type 0
  Chain nx pv a [] b = (nx a ≡ b) × (pv b ≡ a)
  Chain nx pv a (x ∷ xs) b =
      (nx a ≡ offset + x) × (pv (offset + x) ≡ a) × Chain nx pv (offset + x) xs b

  -- The first and the last node that stand beside the ends.
  abbrev pub first_node : List ℕ → ℕ → ℕ
  first_node [] b = b
  first_node (x ∷ xs) b = offset + x

  abbrev pub last_node : ℕ → List ℕ → ℕ
  last_node a [] = a
  last_node a (x ∷ xs) = last_node (offset + x) xs

  module _ (nx pv : ℕ → ℕ) where
    pub Chain-first : (a b : ℕ) (xs : List ℕ) → Chain nx pv a xs b → nx a ≡ first_node xs b
    Chain-first a b [] c = c.0
    Chain-first a b (x ∷ xs) c = c.0

    pub Chain-last : (a b : ℕ) (xs : List ℕ) → Chain nx pv a xs b → pv b ≡ last_node a xs
    Chain-last a b [] c = c.1
    Chain-last a b (x ∷ xs) c = Chain-last (offset + x) b xs c.2

    -- A chain through an entry is two chains.
    pub Chain-split :
        (a b x : ℕ) (xs ys : List ℕ)
        → Chain nx pv a (xs ++ (x ∷ ys)) b
        → Chain nx pv a xs (offset + x) × Chain nx pv (offset + x) ys b
    Chain-split a b x [] ys (p, q, c) = ((p, q), c)
    Chain-split a b x (z ∷ xs) ys (p, q, c) =
        let (d, e) = Chain-split (offset + z) b x xs ys c in ((p, q, d), e)

    pub Chain-join :
        (a b x : ℕ) (xs ys : List ℕ)
        → Chain nx pv a xs (offset + x)
        → Chain nx pv (offset + x) ys b
        → Chain nx pv a (xs ++ (x ∷ ys)) b
    Chain-join a b x [] ys (p, q) d = (p, q, d)
    Chain-join a b x (z ∷ xs) ys (p, q, c) d = (p, q, Chain-join (offset + z) b x xs ys c d)

    -- A chain depends on what its nodes hold.
    pub Chain-frame :
        (nx' pv' : ℕ → ℕ) (a b : ℕ) (xs : List ℕ)
        → Chain nx pv a xs b
        → nx' a ≡ nx a
        → pv' b ≡ pv b
        → ((k : ℕ)
            → 1 ≤ count k xs
            → (nx' (offset + k) ≡ nx (offset + k)) × (pv' (offset + k) ≡ pv (offset + k)))
        → Chain nx' pv' a xs b
    Chain-frame nx' pv' a b [] (p, q) ea eb same = (ea ∙ p, eb ∙ q)
    Chain-frame nx' pv' a b (x ∷ xs) (p, q, c) ea eb same =
        let (sn, sp) = same x (ground (arith, ==_refl x)) in
        (
          ea ∙ p,
          sp ∙ q,
          Chain-frame nx' pv' (offset + x) b xs c sn eb (λ k h. same k (omega (arith, h))),
        )

  module _ (nx pv : ℕ → ℕ) where
    -- What stands beside the ends of a chain.
    pub first-cases :
        (a b : ℕ) (xs : List ℕ)
        → Chain nx pv a xs b
        → ((xs ≡ []) × (nx a ≡ b)) ⊎ ((k : ℕ) × (1 ≤ count k xs) × (nx a ≡ offset + k))
    first-cases a b [] c = inl (refl, c.0)
    first-cases a b (x ∷ xs) c = inr (x, ground (arith, ==_refl x), c.0)

    pub last-cases :
        (a b : ℕ) (xs : List ℕ)
        → Chain nx pv a xs b
        → ((xs ≡ []) × (pv b ≡ a)) ⊎ ((k : ℕ) × (1 ≤ count k xs) × (pv b ≡ offset + k))
    last-cases a b [] c = inl (refl, c.1)
    last-cases a b (x ∷ xs) c = elim (last-cases (offset + x) b xs c.2) [
      | inl (e, f) ↦ inr (x, ground (arith, ==_refl x), f)
      | inr (k, h, f) ↦ inr (k, omega (arith, h), f)
    ]
