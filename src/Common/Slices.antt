-- ===== src/Common/Slices.antt =====
-- How `take` and `drop` meet `++`, for code that copies between slices.
use Prim.Native.Nat.{ℕ, zero, suc, ◌+◌, ◌-◌, ◌≤◌, min, max}
use mathlib.Core.Path.{◌≡◌, refl, sym, ap, ◌∙◌}
use mathlib.Core.List.{List, [], ◌∷◌, ◌++◌}
use native.Mathlib.Omega.{arith}
use emcyphal.Common.Lists.{length, take, drop, drop-nil}

module _ {ℓ} {A : Type ℓ} where
  pub take-nil : (n : ℕ) → take {A = A} n [] ≡ []
  take-nil zero = refl
  take-nil (suc n) = refl

  pub drop-append_split :
      (o : ℕ) (xs ys : List A)
      → drop o (xs ++ ys) ≡ drop (min o (length xs)) xs ++ drop (max o (length xs) - length xs) ys
  drop-append_split o [] ys =
      let e : min o 0 ≡ 0 = omega arith in let f : max o 0 - 0 ≡ o = omega arith in rw (e, f)
  drop-append_split zero (x ∷ xs) ys =
      let e : min 0 (suc (length xs)) ≡ 0 = omega arith in
      let f : max 0 (suc (length xs)) - suc (length xs) ≡ 0 = omega arith in rw (e, f)
  drop-append_split (suc o) (x ∷ xs) ys =
      let e : min (suc o) (suc (length xs)) ≡ suc (min o (length xs)) = omega arith in
      let f : max (suc o) (suc (length xs)) - suc (length xs) ≡ max o (length xs) - length xs =
        omega arith in
      rw (e, f) (drop-append_split o xs ys)

  pub take-append_split :
      (r : ℕ) (xs ys : List A)
      → take r (xs ++ ys) ≡ take (min (length xs) r) xs ++ take (r - min (length xs) r) ys
  take-append_split r [] ys =
      let e : min 0 r ≡ 0 = omega arith in let f : r - 0 ≡ r = omega arith in rw (e, f)
  take-append_split zero (x ∷ xs) ys = let e : min (suc (length xs)) 0 ≡ 0 = omega arith in rw e
  take-append_split (suc r) (x ∷ xs) ys =
      let e : min (suc (length xs)) (suc r) ≡ suc (min (length xs) r) = omega arith in
      let f : suc r - suc (min (length xs) r) ≡ r - min (length xs) r = omega arith in
      rw (e, f) (ap (λ t. x ∷ t) (take-append_split r xs ys))

  pub take-add : (m n : ℕ) (xs : List A) → take m xs ++ take n (drop m xs) ≡ take (m + n) xs
  take-add zero n xs = let e : 0 + n ≡ n = omega arith in rw e
  take-add (suc m) n [] = let e : suc m + n ≡ suc (m + n) = omega arith in rw (e, take-nil n)
  take-add (suc m) n (x ∷ xs) =
      let e : suc m + n ≡ suc (m + n) = omega arith in rw e (ap (λ t. x ∷ t) (take-add m n xs))

  pub take-take_append :
      (k m : ℕ) (xs ys : List A) → k ≤ m → k ≤ length xs → take k (take m xs ++ ys) ≡ take k xs
  take-take_append zero m xs ys h l = refl
  take-take_append (suc k) m [] ys h l = absurd (omega arith)
  take-take_append (suc k) zero (x ∷ xs) ys h l = absurd (omega arith)
  take-take_append (suc k) (suc m) (x ∷ xs) ys h l =
      ap (λ t. x ∷ t) (take-take_append k m xs ys (omega arith) (omega arith))

  pub take-append_short : (k : ℕ) (xs ys : List A) → k ≤ length xs → take k (xs ++ ys) ≡ take k xs
  take-append_short zero xs ys h = refl
  take-append_short (suc k) [] ys h = absurd (omega arith)
  take-append_short (suc k) (x ∷ xs) ys h =
      ap (λ t. x ∷ t) (take-append_short k xs ys (omega arith))

  pub take-min-length : (n : ℕ) (xs : List A) → take (min (length xs) n) xs ≡ take n xs
  take-min-length n [] = take-nil (min 0 n) ∙ sym (take-nil n)
  take-min-length zero (x ∷ xs) = let e : min (suc (length xs)) 0 ≡ 0 = omega arith in rw e
  take-min-length (suc n) (x ∷ xs) =
      let e : min (suc (length xs)) (suc n) ≡ suc (min (length xs) n) = omega arith in
      rw e (ap (λ t. x ∷ t) (take-min-length n xs))

  pub drop-min-length : (n : ℕ) (xs : List A) → drop (min n (length xs)) xs ≡ drop n xs
  drop-min-length n [] = drop-nil (min n 0) ∙ sym (drop-nil n)
  drop-min-length zero (x ∷ xs) = let e : min 0 (suc (length xs)) ≡ 0 = omega arith in rw e
  drop-min-length (suc n) (x ∷ xs) =
      let e : min (suc n) (suc (length xs)) ≡ suc (min n (length xs)) = omega arith in
      rw e (drop-min-length n xs)
