-- ===== src/Core/Priority.antt =====
-- emcyphal-core/src/lib.rs, `Priority`: eight levels with their CAN encoding, 0 the most urgent.
pub mod Laws
use emcyphal.Common.{
  ℕ, suc, ◌+◌, ◌-◌, ◌<◌, bit_and, ◌≡◌, refl, Bool, true, false, ◌&&◌, Option, none, some, List, [],
  ◌∷◌, ltb, leb, ◌==◌, if◌then◌else◌,
}

pub data Priority : Type 0 where
  exceptional immediate fast high nominal low slow optional : Priority

abbrev pub min_priority : Priority
min_priority = exceptional

abbrev pub max_priority : Priority
max_priority = optional

abbrev pub into_u8 : Priority → ℕ
into_u8 exceptional = 0
into_u8 immediate = 1
into_u8 fast = 2
into_u8 high = 3
into_u8 nominal = 4
into_u8 low = 5
into_u8 slow = 6
into_u8 optional = 7

-- The `match` on the three low bits; the last branch is the source's 7, its `unreachable!` aside.
abbrev pub from_u8_truncating : ℕ → Priority
from_u8_truncating value =
    let code = bit_and value 0x7 in
    if code == 0
    then exceptional
    else if code == 1
    then immediate
    else if code == 2
    then fast
    else if code == 3
    then high
    else if code == 4
    then nominal
    else if code == 5
    then low
    else if code == 6
    then slow
    else optional

abbrev pub try_from_u8 : ℕ → Option Priority
try_from_u8 code = if leb code (into_u8 max_priority) then some (from_u8_truncating code) else none

abbrev pub next : Priority → Option Priority
next p = try_from_u8 (into_u8 p + 1)

-- `checked_sub(1)` fails at 0.
abbrev pub prev : Priority → Option Priority
prev p = if leb 1 (into_u8 p) then some (from_u8_truncating (into_u8 p - 1)) else none

-- The derived orders compare the encodings.
abbrev pub le : Priority → Priority → Bool
le p q = leb (into_u8 p) (into_u8 q)

abbrev pub eq : Priority → Priority → Bool
eq p q = into_u8 p == into_u8 q

abbrev pub levels : List Priority
levels = exceptional ∷ immediate ∷ fast ∷ high ∷ nominal ∷ low ∷ slow ∷ optional ∷ []
