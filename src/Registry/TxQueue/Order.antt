-- ===== src/Registry/TxQueue/Order.antt =====
-- emcyphal/src/registry/tx_queue.rs: the order of a list that an entry leaves.
use emcyphal.Common.{
  ℕ, ◌+◌, ◌≡◌, refl, sym, ap, ◌∙◌, inl, inr, List, [], ◌∷◌, ◌++◌, ◌==◌, ==_refl, if◌then◌else◌,
  arith, Bool-cases,
}
use emcyphal.Buffer.Owned.{count, count-append}

-- The other elements, in their order.
abbrev pub without : ℕ → List ℕ → List ℕ
without k [] = []
without k (x ∷ xs) = let rest = without k xs in if x == k then rest else x ∷ rest

pub without-absent : (k : ℕ) (xs : List ℕ) → count k xs ≡ 0 → without k xs ≡ xs
without-absent k [] h = refl
without-absent k (x ∷ xs) h = elim (Bool-cases (x == k)) [
  | inl same ↦ absurd (ground (arith, same, h))
  | inr other ↦
      ap (λ c. if c then without k xs else x ∷ without k xs) other
      ∙ ap (λ l. x ∷ l) (without-absent k xs (ground (arith, other, h)))
]

without-append : (k : ℕ) (xs ys : List ℕ) → without k (xs ++ ys) ≡ without k xs ++ without k ys
without-append k [] ys = refl
without-append k (x ∷ xs) ys = elim (Bool-cases (x == k)) [
  | inl same ↦
      ap (λ c. if c then without k (xs ++ ys) else x ∷ without k (xs ++ ys)) same
      ∙ without-append k xs ys
      ∙ sym (ap (λ c. (if c then without k xs else x ∷ without k xs) ++ without k ys) same)
  | inr other ↦
      ap (λ c. if c then without k (xs ++ ys) else x ∷ without k (xs ++ ys)) other
      ∙ ap (λ l. x ∷ l) (without-append k xs ys)
      ∙ sym (ap (λ c. (if c then without k xs else x ∷ without k xs) ++ without k ys) other)
]

-- An element that stands once in a list leaves what is before it and what is after it.
pub without-once :
    (k : ℕ) (xs ys : List ℕ) → count k (xs ++ (k ∷ ys)) ≡ 1 → without k (xs ++ (k ∷ ys)) ≡ xs ++ ys
without-once k xs ys once =
    let c : count k (k ∷ ys) ≡ 1 + count k ys = ground (arith, ==_refl k) in
    let sum = count-append k xs (k ∷ ys) in
    without-append k xs (k ∷ ys)
    ∙ ap (λ t. without k xs ++ (if t then without k ys else k ∷ without k ys)) (==_refl k)
    ∙ ap (λ l. l ++ without k ys) (without-absent k xs (omega (arith, c, sum, once)))
    ∙ ap (λ l. xs ++ l) (without-absent k ys (omega (arith, c, sum, once)))
