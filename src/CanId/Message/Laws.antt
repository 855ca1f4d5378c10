-- ===== src/CanId/Message/Laws.antt =====
-- Laws of message identifiers: what each setter and each accessor does to the parts of a word.
use emcyphal.Common.{
  ℕ, zero, suc, ◌+◌, ◌*◌, ◌/◌, ◌%◌, ◌<◌, bit_and, bit_or, ◌≡◌, refl, ap, ◌∙◌, false, not, none,
  some, ◌==◌, if◌then◌else◌, arith, set_word, clear_word, or_word, bit_word, mask_word, and-zero,
}
use emcyphal.Core.Priority.{Priority, into_u8}
use emcyphal.Core.Priority
use emcyphal.Core.Priority.Laws.{into_u8-lt, from_u8_truncating-into_u8}
use emcyphal.CanId.Message.{
  set_priority, set_anonymous, set_subject, set_source, from_can_id, priority, anonymous, subject,
  source,
}

pub set_priority_lem :
    (id : ℕ) (p : Priority)
    → id < 4294967296
    → set_priority id p ≡ (id / 536870912 * 8 + into_u8 p) * 67108864 + id % 67108864
unfolding set_priority
set_priority_lem id p h =
    let b = into_u8-lt p in
    set_word 3 26 3 (id / 536870912) (id / 67108864 % 8) (into_u8 p) (id % 67108864) (omega arith)
      refl (omega arith) (omega arith) (omega arith) b (omega arith)

pub set_anonymous-false :
    (id : ℕ) → id < 4294967296 → set_anonymous id false ≡ id / 33554432 * 33554432 + id % 16777216
unfolding set_anonymous
set_anonymous-false id h =
    clear_word 1 24 7 (id / 33554432) (id / 16777216 % 2) (id % 16777216) (omega arith) refl
      (omega arith) (omega arith) (omega arith)
    ∙ omega arith

pub set_subject_lem :
    (id v : ℕ)
    → id < 4294967296
    → v < 8192
    → set_subject id v ≡ (id / 2097152 * 8192 + v) * 256 + id % 256
unfolding set_subject
set_subject_lem id v h small =
    set_word 13 8 11 (id / 2097152) (id / 256 % 8192) v (id % 256) (omega arith) refl (omega arith)
      (omega arith) (omega arith) small (omega arith)

pub set_source_lem : (id v : ℕ) → id < 4294967296 → v < 128 → set_source id v ≡ id / 128 * 128 + v
unfolding set_source
set_source_lem id v h small =
    set_word 7 0 25 (id / 128) (id % 128) v 0 (omega arith) refl (omega arith) (omega arith)
      (omega arith) small (omega arith)
    ∙ omega arith

pub priority_lem : (id : ℕ) (p : Priority) → id / 67108864 ≡ into_u8 p → priority id ≡ p
unfolding priority
priority_lem id p h =
    let b = into_u8-lt p in
    let e : id / 67108864 % 256 ≡ into_u8 p = omega arith in
    ap Priority.from_u8_truncating e ∙ from_u8_truncating-into_u8 p

pub anonymous_lem : (id : ℕ) → id / 16777216 % 2 ≡ 0 → anonymous id ≡ false
unfolding anonymous
anonymous_lem id h =
    let e =
      bit_word 24 (id / 16777216) (id % 16777216) 0 {x = id} {m = 16777216} (omega arith) refl
        (omega arith) (omega arith) in
    let z = and-zero (id % 16777216) in
    let n : bit_and id 16777216 ≡ 0 = omega (arith, e, z) in ap (λ t. not (t == 0)) n

pub subject_lem : (id : ℕ) → subject id ≡ id / 256 % 8192
unfolding subject
subject_lem id =
    mask_word 13 (id / 256 % 65536 / 8192) (id / 256 % 65536 % 8192) (omega arith) refl
      (omega arith)
    ∙ omega arith

pub source_lem : (id : ℕ) → source id ≡ id % 128
unfolding source
source_lem id =
    mask_word 7 (id / 1 % 256 / 128) (id / 1 % 256 % 128) (omega arith) refl (omega arith)
    ∙ omega arith

-- The check of the flags and the reserved bits.
pub check_lem :
    (id : ℕ)
    → bit_and id 0x2800080
      ≡ id / 33554432 % 2 * 33554432 + id / 8388608 % 2 * 8388608 + id / 128 % 2 * 128
check_lem id =
    let a =
      bit_word 25 (id / 33554432) (id % 33554432) 0x800080 {x = id} {m = 0x2800080} (omega arith)
        refl (omega arith) (omega arith) in
    let b =
      bit_word 23 (id % 33554432 / 8388608) (id % 8388608) 128 {x = id % 33554432} {m = 0x800080}
        (omega arith) refl (omega arith) (omega arith) in
    let c =
      bit_word 7 (id % 8388608 / 128) (id % 128) 0 {x = id % 8388608} {m = 128} (omega arith) refl
        (omega arith) (omega arith) in
    let z = and-zero (id % 128) in omega (arith, a, b, c, z)

fill_two : (f : ℕ) → f < 4 → bit_or f 3 ≡ 3
fill_two zero h = refl
fill_two (suc zero) h = refl
fill_two (suc (suc zero)) h = refl
fill_two (suc (suc (suc zero))) h = refl
fill_two (suc (suc (suc (suc n)))) h = absurd (omega (arith, h))

pub ignored_lem :
    (id : ℕ)
    → bit_or (bit_and id 0x1fffffff) 0x600000
      ≡ id % 536870912 / 8388608 * 8388608 + 6291456 + id % 2097152
ignored_lem id =
    let m =
      mask_word 29 (id / 536870912) (id % 536870912) {x = id} {m = 0x1fffffff} (omega arith) refl
        (omega arith) in
    let o =
      or_word 2 21 (id % 536870912 / 8388608) (id / 2097152 % 4) 3 (id % 2097152)
        {x = bit_and id 0x1fffffff} {s = 0x600000} (omega (arith, m)) refl (omega arith)
        (omega arith) (omega arith) in
    let t : bit_or (id / 2097152 % 4) 3 ≡ 3 = fill_two (id / 2097152 % 4) (omega arith) in
    omega (arith, o, t)

pub from_can_id_lem :
    (id : ℕ)
    → id / 33554432 % 2 ≡ 0
    → id / 8388608 % 2 ≡ 0
    → id / 128 % 2 ≡ 0
    → from_can_id id ≡ some (id % 536870912 / 8388608 * 8388608 + 6291456 + id % 2097152)
unfolding from_can_id
from_can_id_lem id a b c =
    let z : bit_and id 0x2800080 ≡ 0 = omega (arith, check_lem id) in
    ap (λ t. if t == 0 then some (bit_or (bit_and id 0x1fffffff) 0x600000) else none) z
    ∙ ap some (ignored_lem id)

pub from_can_id-none : (id : ℕ) → id / 33554432 % 2 ≡ 1 → from_can_id id ≡ none
unfolding from_can_id
from_can_id-none id a =
    let z : (bit_and id 0x2800080 == 0) ≡ false = ground (arith, check_lem id) in
    ap (λ t. if t then some (bit_or (bit_and id 0x1fffffff) 0x600000) else none) z
