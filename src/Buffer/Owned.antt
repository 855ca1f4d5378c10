-- ===== src/Buffer/Owned.antt =====
-- Who holds which buffer: lists of indexes in which each index below a bound occurs exactly once.
use emcyphal.Common.{
  inl, inr, ap, Bool-cases, ==_iff, ◌≤◌, Bool-cases, ◌≤◌, ℕ, zero, suc, ◌+◌, ◌<◌, ◌≡◌, refl, sym,
  ◌∙◌, List, [], ◌∷◌, ◌++◌, arith, ◌==◌, ltb, length, if◌then◌else◌,
}

abbrev pub count : ℕ → List ℕ → ℕ
count k [] = 0
count k (x ∷ xs) = (if x == k then 1 else 0) + count k xs

pub count-append : (k : ℕ) (xs ys : List ℕ) → count k (xs ++ ys) ≡ count k xs + count k ys
count-append k [] ys = omega arith
count-append k (x ∷ xs) ys = omega (arith, count-append k xs ys)

-- An element that occurs in a list splits it.
pub split_at : (k : ℕ) (l : List ℕ) → 1 ≤ count k l → (xs ys : List ℕ) × (l ≡ xs ++ (k ∷ ys))
split_at k [] h = absurd (omega arith)
split_at k (x ∷ l) h = elim (Bool-cases (x == k)) [
  | inl same ↦ ([], l, ap (λ t. t ∷ l) ((==_iff x k).0 same))
  | inr other ↦ let (xs, ys, e) = split_at k l (ground arith) in (x ∷ xs, ys, ap (λ t. x ∷ t) e)
]

-- Each index below `n` once, and no other.
abbrev pub Partition : ℕ → List ℕ → Type 0
Partition n xs = (k : ℕ) → count k xs ≡ (if ltb k n then 1 else 0)

-- The occurrences of the indexes below `n`.
total : ℕ → List ℕ → ℕ
total zero xs = 0
total (suc n) xs = count n xs + total n xs

total-nil : (n : ℕ) → total n [] ≡ 0
unfolding total
total-nil zero = refl
total-nil (suc n) = omega (arith, total-nil n)

total-cons : (n x : ℕ) (xs : List ℕ) → total n (x ∷ xs) ≡ (if ltb x n then 1 else 0) + total n xs
unfolding total
total-cons zero x xs = ground arith
total-cons (suc n) x xs = ground (arith, total-cons n x xs)

total-Partition : (m n : ℕ) (xs : List ℕ) → m < suc n → Partition n xs → total m xs ≡ m
unfolding total
total-Partition zero n xs h part = refl
total-Partition (suc m) n xs h part = ground (arith, total-Partition m n xs, part m)

-- No index is out of bounds.
Below : ℕ → List ℕ → Type 0
Below n [] = Unit {0}
Below n (x ∷ xs) = (x < n) × Below n xs

total-Below : (n : ℕ) (xs : List ℕ) → Below n xs → total n xs ≡ length xs
unfolding Below
total-Below n [] h = total-nil n
total-Below n (x ∷ xs) h = ground (arith, total-cons n x xs, total-Below n xs h.1)

-- A list that holds an index as often as it stands in the rest of a partition and once more.
Below-count : (n : ℕ) (xs : List ℕ) → ((k : ℕ) → n < suc k → count k xs ≡ 0) → Below n xs
unfolding Below
Below-count n [] h = tt
Below-count n (x ∷ xs) h = (ground (arith, h x), Below-count n xs (λ k le. ground (arith, h k le)))

-- Exactly `n` indexes are held.
pub length-Partition : (n : ℕ) (xs : List ℕ) → Partition n xs → length xs ≡ n
length-Partition n xs part =
    sym (total-Below n xs (Below-count n xs (λ k le. ground (arith, part k))))
    ∙ total-Partition n n xs (omega arith) part

-- An index that is held is below the bound.
pub Partition-lt : (n x : ℕ) (xs : List ℕ) → Partition n (x ∷ xs) → x < n
Partition-lt n x xs part = ground (arith, part x)
