-- ===== src/Core/Priority/Laws.antt =====
-- Laws of `Priority`, and checks over all eight levels by evaluation.
use emcyphal.Common.{◌<◌, ◌≡◌, refl, sym, ap, Bool, true, ◌&&◌, arith, ◌∙◌}
use emcyphal.Core.Priority.{
  Priority, exceptional, immediate, fast, high, nominal, low, slow, optional, into_u8,
  from_u8_truncating, eq,
}

pub into_u8-lt : (p : Priority) → into_u8 p < 8
into_u8-lt exceptional = omega arith
into_u8-lt immediate = omega arith
into_u8-lt fast = omega arith
into_u8-lt high = omega arith
into_u8-lt nominal = omega arith
into_u8-lt low = omega arith
into_u8-lt slow = omega arith
into_u8-lt optional = omega arith

pub from_u8_truncating-into_u8 : (p : Priority) → from_u8_truncating (into_u8 p) ≡ p
from_u8_truncating-into_u8 exceptional = refl
from_u8_truncating-into_u8 immediate = refl
from_u8_truncating-into_u8 fast = refl
from_u8_truncating-into_u8 high = refl
from_u8_truncating-into_u8 nominal = refl
from_u8_truncating-into_u8 low = refl
from_u8_truncating-into_u8 slow = refl
from_u8_truncating-into_u8 optional = refl

pub eq_sound : (p q : Priority) → eq p q ≡ true → p ≡ q
eq_sound p q h =
    let e : into_u8 p ≡ into_u8 q = ground arith in
    sym (from_u8_truncating-into_u8 p) ∙ ap from_u8_truncating e ∙ from_u8_truncating-into_u8 q

pub eq_refl : (p : Priority) → eq p p ≡ true
eq_refl p = ground arith

unfoldable pub all_levels : (Priority → Bool) → Bool
all_levels t =
    t exceptional
    && (t immediate && (t fast && (t high && (t nominal && (t low && (t slow && t optional))))))

pub all_levels_sound : (t : Priority → Bool) (p : Priority) → all_levels t ≡ true → t p ≡ true
unfolding all_levels
all_levels_sound t exceptional h = ground arith
all_levels_sound t immediate h = ground arith
all_levels_sound t fast h = ground arith
all_levels_sound t high h = ground arith
all_levels_sound t nominal h = ground arith
all_levels_sound t low h = ground arith
all_levels_sound t slow h = ground arith
all_levels_sound t optional h = ground arith
