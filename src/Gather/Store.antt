-- ===== src/Gather/Store.antt =====
-- What the receive buffer holds after the payloads of a transfer: the bytes received, as far as they
-- fit, over what was there before.
use emcyphal.Common.{
  ℕ, suc, ◌+◌, ◌-◌, ◌^◌, ◌≤◌, ◌<◌, min, ◌≡◌, ap, List, [], ◌∷◌, ◌++◌, some, arith, length, take,
  drop, length-append, length-take, length-drop, drop-nil, take-min-length, drop-min-length, lt→ltb,
  take-take_append,
}
use emcyphal.Format.Crc.{init_value, add_bytes}
use emcyphal.Format.Crc.Laws.{add_bytes-append}
use emcyphal.Gather.{PayloadAccumulator, append, write_at}

abbrev pub store : List ℕ → List ℕ → List ℕ
store buffer bytes = take (length buffer) bytes ++ drop (length bytes) buffer

-- The accumulator after the payload bytes `bytes`.
abbrev pub acc_of : List ℕ → PayloadAccumulator
acc_of bytes = record { len = length bytes; crc = add_bytes init_value bytes }

pub length-store : (b xs : List ℕ) → length (store b xs) ≡ length b
length-store b xs = omega (
  arith,
  length-append (take (length b) xs) (drop (length xs) b),
  length-take (length b) xs,
  length-drop (length xs) b,
)

-- A write at the start.
pub write-start : (b ys : List ℕ) → write_at b 0 (take (min (length ys) (length b)) ys) ≡ store b ys
write-start b ys =
    let e : length (take (min (length ys) (length b)) ys) ≡ min (length ys) (length b) =
      omega (arith, length-take (min (length ys) (length b)) ys) in
    let f : 0 + min (length ys) (length b) ≡ min (length ys) (length b) = omega arith in
    rw (e, f, drop-min-length (length ys) b, take-min-length (length b) ys)

pub write-store :
    (b xs ys : List ℕ)
    → write_at
        (store b xs)
        (min (length b) (length xs))
        (take (min (length ys) (length b - min (length b) (length xs))) ys)
      ≡ store b (xs ++ ys)
write-store [] xs ys =
    let e : min 0 (length xs) ≡ 0 = omega arith in
    let f : min (length ys) (0 - 0) ≡ 0 = omega arith in
    rw (drop-nil (length xs), e, f, drop-nil (length (xs ++ ys)))
write-store (y ∷ b) [] ys =
    let e : min (suc (length b)) 0 ≡ 0 = omega arith in
    let f : suc (length b) - 0 ≡ suc (length b) = omega arith in rw (e, f) (write-start (y ∷ b) ys)
write-store (y ∷ b) (x ∷ xs) ys =
    let e : min (suc (length b)) (suc (length xs)) ≡ suc (min (length b) (length xs)) =
      omega arith in
    let f : suc (length b) - suc (min (length b) (length xs))
        ≡ length b - min (length b) (length xs) =
      omega arith in
    let bytes = take (min (length ys) (length b - min (length b) (length xs))) ys in
    let g : suc (min (length b) (length xs)) + length bytes
        ≡ suc (min (length b) (length xs) + length bytes) =
      omega arith in
    rw (e, f, g) (ap (λ t. x ∷ t) (write-store b xs ys))

-- An `append` of the source is an append of the bytes.
pub append-store :
    (b xs ys : List ℕ)
    → length xs + length ys < 2 ^ 32
    → append (acc_of xs) (store b xs) ys ≡ some (acc_of (xs ++ ys), store b (xs ++ ys))
unfolding append
append-store b xs ys h =
    let p : length ys < 2 ^ 32 = omega arith in
    rw (
      lt→ltb (length ys) (2 ^ 32) p,
      lt→ltb (length xs + length ys) (2 ^ 32) h,
      length-store b xs,
      write-store b xs ys,
      length-append xs ys,
      add_bytes-append init_value xs ys,
    )

-- The first bytes of the buffer are those received, as far as it reaches.
pub take-store :
    (k : ℕ) (b xs : List ℕ) → k ≤ length b → k ≤ length xs → take k (store b xs) ≡ take k xs
take-store k b xs h l = take-take_append k (length b) xs (drop (length xs) b) h l
