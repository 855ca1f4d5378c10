-- ===== src/Frame/DataLength/Laws.antt =====
-- `DataLength` against the table of the sixteen lengths of CAN FD.
use emcyphal.Common.{
  ◌+◌, ℕ, ◌≤◌, ◌<◌, ◌≡◌, ◌↔◌, refl, sym, ap, ◌∙◌, Bool, true, false, not, ◌&&◌, ◌||◌, Option, none,
  some, List, [], ◌∷◌, arith, leb, ◌==◌, all_below, all_below_sound,
}
use native.Mathlib.Decide.{dec_le}
use emcyphal.Frame.DataLength.{DataLength, new_floor, new_ceil}

-- `VALID_CAN_LENGTH` of the tests of the source.
abbrev pub valid_lengths : List ℕ
valid_lengths = 0 ∷ 1 ∷ 2 ∷ 3 ∷ 4 ∷ 5 ∷ 6 ∷ 7 ∷ 8 ∷ 12 ∷ 16 ∷ 20 ∷ 24 ∷ 32 ∷ 48 ∷ 64 ∷ []

abbrev pub contains : List ℕ → ℕ → Bool
contains [] n = false
contains (x ∷ xs) n = n == x || contains xs n

pub is_valid_length : ℕ → Bool
is_valid_length n = contains valid_lengths n

-- A length that a frame can have.
abbrev pub IsValid : ℕ → Type 0
IsValid n = is_valid_length n ≡ true

pub IsValid-le : (n : ℕ) → IsValid n → n ≤ 64
unfolding is_valid_length
IsValid-le n h = ground arith

pub some-IsValid : IsValid 2 × IsValid 8 × IsValid 64
unfolding is_valid_length
some-IsValid = (refl, refl, refl)

-- The tests of a rounding `c` of `v` against another length `w`.
rounds_up : ℕ → ℕ → Option DataLength → Bool
rounds_up v w none = false
rounds_up v w (some c) =
    is_valid_length c && (leb v c && (not (is_valid_length w) || (not (leb v w) || leb c w)))

rounds_down : ℕ → ℕ → DataLength → Bool
rounds_down v w c =
    is_valid_length c && (leb c v && (not (is_valid_length w) || (not (leb w v) || leb w c)))

pairs : (ℕ → ℕ → Bool) → Bool
pairs t = all_below 65 (λ v. all_below 65 (t v))

pairs_sound : (t : ℕ → ℕ → Bool) (v w : ℕ) → pairs t ≡ true → v < 65 → w < 65 → t v w ≡ true
unfolding pairs
pairs_sound t v w e hv hw =
    all_below_sound 65 (t v) w (all_below_sound 65 (λ v'. all_below 65 (t v')) v e hv) hw

abbrev ceil_test : ℕ → ℕ → Bool
ceil_test v w = rounds_up v w (new_ceil v)

ceil_table : pairs ceil_test ≡ true
unfolding pairs all_below rounds_up is_valid_length new_ceil
ceil_table = refl

abbrev floor_test : ℕ → ℕ → Bool
floor_test v w = rounds_down v w (new_floor v)

floor_table : pairs floor_test ≡ true
unfolding pairs all_below rounds_down is_valid_length new_floor
floor_table = refl

up_parts :
    (v w c : ℕ) → rounds_up v w (some c) ≡ true → IsValid c × (v ≤ c) × (IsValid w → v ≤ w → c ≤ w)
unfolding rounds_up
up_parts v w c t = ground arith

down_parts :
    (v w c : ℕ) → rounds_down v w c ≡ true → IsValid c × (c ≤ v) × (IsValid w → w ≤ v → w ≤ c)
unfolding rounds_down
down_parts v w c t = ground arith

new_ceil-le : (v c : ℕ) → new_ceil v ≡ some c → v ≤ 64
unfolding new_ceil
new_ceil-le v c e = ground arith

-- Rounding up adds at most 15.
pub new_ceil-le_add : (v c : ℕ) → new_ceil v ≡ some c → c ≤ v + 15
unfolding new_ceil
new_ceil-le_add v c e = ground arith

-- When `new_ceil` succeeds, the result is a frame length that is at least the value, and no frame
-- length between the two is smaller.
pub new_ceil_nearest :
    (v w c : ℕ) → new_ceil v ≡ some c → IsValid c × (v ≤ c) × (IsValid w → v ≤ w → c ≤ w)
new_ceil_nearest v w c e = elim (dec_le w 64) [
  | yes small ↦ up_parts v w c (test w (omega arith))
  | no large ↦
      let p = up_parts v 0 c (test 0 (omega arith)) in
      (p.0, p.1, λ h le. absurd (large (IsValid-le w h)))
]
  where
    test : (u : ℕ) → u < 65 → rounds_up v u (some c) ≡ true
    test u h =
        ap (rounds_up v u) (sym e)
        ∙ pairs_sound ceil_test v u ceil_table (omega (arith, new_ceil-le v c e)) h

-- It fails exactly for values above the longest frame.
pub new_ceil-eq-none : (v : ℕ) → (new_ceil v ≡ none) ↔ (64 < v)
unfolding new_ceil
new_ceil-eq-none v = ground arith

new_floor_large : (v : ℕ) → 64 ≤ v → new_floor v ≡ 64
unfolding new_floor
new_floor_large v h = ground arith

-- `new_floor` gives the greatest frame length that is at most the value, for every value.
pub new_floor_nearest :
    (v w : ℕ) → IsValid (new_floor v) × (new_floor v ≤ v) × (IsValid w → w ≤ v → w ≤ new_floor v)
unfolding is_valid_length
new_floor_nearest v w = elim (dec_le 64 v) [
  | yes large ↦ rw (new_floor_large v large) (refl, large, λ h le. IsValid-le w h)
  | no small ↦ elim (dec_le w 64) [
    | yes within ↦ down_parts v w (new_floor v) (test w (omega arith) (omega arith))
    | no beyond ↦
        let p = down_parts v 0 (new_floor v) (test 0 (omega arith) (omega arith)) in
        (p.0, p.1, λ h le. absurd (beyond (IsValid-le w h)))
  ]
]
  where
    test : (u : ℕ) → u < 65 → v < 65 → rounds_down v u (new_floor v) ≡ true
    test u h k = pairs_sound floor_test v u floor_table k h
