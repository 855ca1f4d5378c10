-- ===== src/Common/Bits/Words.antt =====
-- Fields of a word: what clearing, setting and reading one does to the parts around it.
use Prim.Native.Nat.{zero, suc, ℕ, ◌+◌, ◌-◌, ◌*◌, ◌/◌, ◌%◌, ◌^◌, ◌<◌, bit_and, bit_or}
use mathlib.Core.Path.{◌≡◌, refl, ap, ap₂, ◌∙◌}
use native.Mathlib.Nat.{pow-suc}
use emcyphal.Common.Bits.Step.{or-low}
use native.Mathlib.Omega.{arith}
use emcyphal.Common.Bits.Fields.{and-zero, zero-or, or-zero, and-join, or-join, and-ones, and-mask}

-- The mask has ones above and below a field of `w` bits at `o`.
pub clear_field :
    (w o n h f l : ℕ)
    → h < 2 ^ n
    → f < 2 ^ w
    → l < 2 ^ o
    → bit_and ((h * 2 ^ w + f) * 2 ^ o + l) (((2 ^ n - 1) * 2 ^ w + 0) * 2 ^ o + (2 ^ o - 1))
      ≡ (h * 2 ^ w + 0) * 2 ^ o + l
clear_field w o n h f l hh hf hl =
    and-join o (h * 2 ^ w + f) ((2 ^ n - 1) * 2 ^ w + 0) l (2 ^ o - 1) hl (omega arith)
    ∙ ap₂ (λ x y. x * 2 ^ o + y)
        (and-join w h (2 ^ n - 1) f 0 hf (omega arith)
          ∙ ap₂ (λ x y. x * 2 ^ w + y) (and-ones n h hh) (and-zero f))
        (and-ones o l hl)

pub or_field :
    (w o h f v l : ℕ)
    → f < 2 ^ w
    → v < 2 ^ w
    → l < 2 ^ o
    → bit_or ((h * 2 ^ w + f) * 2 ^ o + l) ((0 * 2 ^ w + v) * 2 ^ o + 0)
      ≡ (h * 2 ^ w + bit_or f v) * 2 ^ o + l
or_field w o h f v l hf hv hl =
    or-join o (h * 2 ^ w + f) (0 * 2 ^ w + v) l 0 hl (omega arith)
    ∙ ap₂ (λ x y. x * 2 ^ o + y)
        (or-join w h 0 f v hf hv ∙ ap (λ x. x * 2 ^ w + bit_or f v) (or-zero h)) (or-zero l)

pub set_field :
    (w o n h f v l : ℕ)
    → h < 2 ^ n
    → f < 2 ^ w
    → v < 2 ^ w
    → l < 2 ^ o
    → bit_or
        (bit_and ((h * 2 ^ w + f) * 2 ^ o + l) (((2 ^ n - 1) * 2 ^ w + 0) * 2 ^ o + (2 ^ o - 1)))
        ((0 * 2 ^ w + v) * 2 ^ o + 0)
      ≡ (h * 2 ^ w + v) * 2 ^ o + l
set_field w o n h f v l hh hf hv hl =
    ap (λ t. bit_or t ((0 * 2 ^ w + v) * 2 ^ o + 0)) (clear_field w o n h f l hh hf hl)
    ∙ or_field w o h 0 v l (omega arith) hv hl
    ∙ ap (λ t. (h * 2 ^ w + t) * 2 ^ o + l) (zero-or v)

-- A mask of one bit at `o` over a narrower mask.
pub and_bit :
    (o h l m : ℕ)
    → l < 2 ^ o
    → m < 2 ^ o
    → bit_and (h * 2 ^ o + l) (1 * 2 ^ o + m) ≡ bit_and h 1 * 2 ^ o + bit_and l m
and_bit o h l m hl hm = and-join o h 1 l m hl hm

-- The same with the word, the mask and the shifted value as the code computes them.
pub set_word :
    (w o n h f v l : ℕ) {x m s : ℕ}
    → x ≡ (h * 2 ^ w + f) * 2 ^ o + l
    → m ≡ ((2 ^ n - 1) * 2 ^ w + 0) * 2 ^ o + (2 ^ o - 1)
    → s ≡ (0 * 2 ^ w + v) * 2 ^ o + 0
    → h < 2 ^ n
    → f < 2 ^ w
    → v < 2 ^ w
    → l < 2 ^ o
    → bit_or (bit_and x m) s ≡ (h * 2 ^ w + v) * 2 ^ o + l
set_word w o n h f v l ex em es hh hf hv hl =
    ap₂ bit_or (ap₂ bit_and ex em) es ∙ set_field w o n h f v l hh hf hv hl

pub clear_word :
    (w o n h f l : ℕ) {x m : ℕ}
    → x ≡ (h * 2 ^ w + f) * 2 ^ o + l
    → m ≡ ((2 ^ n - 1) * 2 ^ w + 0) * 2 ^ o + (2 ^ o - 1)
    → h < 2 ^ n
    → f < 2 ^ w
    → l < 2 ^ o
    → bit_and x m ≡ (h * 2 ^ w + 0) * 2 ^ o + l
clear_word w o n h f l ex em hh hf hl = ap₂ bit_and ex em ∙ clear_field w o n h f l hh hf hl

pub or_word :
    (w o h f v l : ℕ) {x s : ℕ}
    → x ≡ (h * 2 ^ w + f) * 2 ^ o + l
    → s ≡ (0 * 2 ^ w + v) * 2 ^ o + 0
    → f < 2 ^ w
    → v < 2 ^ w
    → l < 2 ^ o
    → bit_or x s ≡ (h * 2 ^ w + bit_or f v) * 2 ^ o + l
or_word w o h f v l ex es hf hv hl = ap₂ bit_or ex es ∙ or_field w o h f v l hf hv hl

pub mask_word :
    (k h l : ℕ) {x m : ℕ} → x ≡ h * 2 ^ k + l → m ≡ 2 ^ k - 1 → l < 2 ^ k → bit_and x m ≡ l
mask_word k h l ex em hl = ap₂ bit_and ex em ∙ and-mask k h l hl

pub bit_word :
    (o h l c : ℕ) {x m : ℕ}
    → x ≡ h * 2 ^ o + l
    → m ≡ 1 * 2 ^ o + c
    → l < 2 ^ o
    → c < 2 ^ o
    → bit_and x m ≡ h % 2 * 2 ^ o + bit_and l c
bit_word o h l c ex em hl hc =
    let odd : bit_and h 1 ≡ h % 2 = mask_word 1 (h / 2) (h % 2) (omega arith) refl (omega arith) in
    ap₂ bit_and ex em ∙ and_bit o h l c hl hc ∙ ap (λ t. t * 2 ^ o + bit_and l c) odd

-- A disjunction does not widen a word.
pub or-lt : (k a b : ℕ) → a < 2 ^ k → b < 2 ^ k → bit_or a b < 2 ^ k
or-lt zero a b p q =
    let e : a ≡ 0 = omega arith in let f : b ≡ 0 = omega arith in rw (e, f) (omega arith)
or-lt (suc k) a b p q = omega (
  arith,
  or-low a b,
  pow-suc 2 k,
  or-lt k (a / 2) (b / 2) (omega (arith, pow-suc 2 k)) (omega (arith, pow-suc 2 k)),
)
