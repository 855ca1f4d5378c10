-- ===== src/CanId/Service/Laws.antt =====
-- Laws of service identifiers: what each setter and each accessor does to the parts of a word.
use emcyphal.Common.{
  ℕ, zero, suc, ◌+◌, ◌*◌, ◌/◌, ◌%◌, ◌<◌, bit_and, bit_or, ◌≡◌, refl, ap, ◌∙◌, true, false, not,
  none, some, ◌==◌, if◌then◌else◌, arith, set_word, clear_word, or_word, bit_word, mask_word,
  and-zero, or-zero,
}
use emcyphal.Core.Priority.{Priority, into_u8}
use emcyphal.Core.Priority
use emcyphal.Core.Priority.Laws.{into_u8-lt, from_u8_truncating-into_u8}
use emcyphal.CanId.Service.{
  set_priority, set_request, set_service, set_destination, set_source, from_can_id, priority,
  request, service, destination, source,
}

pub set_priority_lem :
    (id : ℕ) (p : Priority)
    → id < 4294967296
    → set_priority id p ≡ (id / 536870912 * 8 + into_u8 p) * 67108864 + id % 67108864
unfolding set_priority
set_priority_lem id p h =
    let b = into_u8-lt p in
    set_word 3 26 3 (id / 536870912) (id / 67108864 % 8) (into_u8 p) (id % 67108864) (omega arith)
      refl (omega arith) (omega arith) (omega arith) b (omega arith)

pub set_request-false :
    (id : ℕ) → id < 4294967296 → set_request id false ≡ id / 33554432 * 33554432 + id % 16777216
unfolding set_request
set_request-false id h =
    clear_word 1 24 7 (id / 33554432) (id / 16777216 % 2) (id % 16777216) (omega arith) refl
      (omega arith) (omega arith) (omega arith)
    ∙ omega arith

fill_one : (f : ℕ) → f < 2 → bit_or f 1 ≡ 1
fill_one zero h = refl
fill_one (suc zero) h = refl
fill_one (suc (suc n)) h = absurd (omega (arith, h))

pub set_request-true :
    (id : ℕ)
    → id < 4294967296
    → set_request id true ≡ id / 33554432 * 33554432 + 16777216 + id % 16777216
unfolding set_request
set_request-true id h =
    let o =
      or_word 1 24 (id / 33554432) (id / 16777216 % 2) 1 (id % 16777216) {x = id} {s = 16777216}
        (omega arith) refl (omega arith) (omega arith) (omega arith) in
    let t = fill_one (id / 16777216 % 2) (omega arith) in omega (arith, o, t)

pub set_service_lem :
    (id v : ℕ)
    → id < 4294967296
    → v < 512
    → set_service id v ≡ (id / 8388608 * 512 + v) * 16384 + id % 16384
unfolding set_service
set_service_lem id v h small =
    set_word 9 14 9 (id / 8388608) (id / 16384 % 512) v (id % 16384) (omega arith) refl
      (omega arith) (omega arith) (omega arith) small (omega arith)

pub set_destination_lem :
    (id v : ℕ)
    → id < 4294967296
    → v < 128
    → set_destination id v ≡ (id / 16384 * 128 + v) * 128 + id % 128
unfolding set_destination
set_destination_lem id v h small =
    set_word 7 7 18 (id / 16384) (id / 128 % 128) v (id % 128) (omega arith) refl (omega arith)
      (omega arith) (omega arith) small (omega arith)

pub set_source_lem : (id v : ℕ) → id < 4294967296 → v < 128 → set_source id v ≡ id / 128 * 128 + v
unfolding set_source
set_source_lem id v h small =
    set_word 7 0 25 (id / 128) (id % 128) v 0 (omega arith) refl (omega arith) (omega arith)
      (omega arith) small (omega arith)
    ∙ omega arith

pub priority_lem : (id : ℕ) (p : Priority) → id / 67108864 ≡ into_u8 p → priority id ≡ p
unfolding priority
priority_lem id p h =
    let b = into_u8-lt p in
    let e : id / 67108864 % 256 ≡ into_u8 p = omega arith in
    ap Priority.from_u8_truncating e ∙ from_u8_truncating-into_u8 p

pub request_lem : (id : ℕ) → request id ≡ not (id / 16777216 % 2 == 0)
unfolding request
request_lem id =
    let e =
      bit_word 24 (id / 16777216) (id % 16777216) 0 {x = id} {m = 16777216} (omega arith) refl
        (omega arith) (omega arith) in
    let z = and-zero (id % 16777216) in ground (arith, e, z)

pub service_lem : (id : ℕ) → service id ≡ id / 16384 % 512
unfolding service
service_lem id =
    mask_word 9 (id / 16384 % 65536 / 512) (id / 16384 % 65536 % 512) (omega arith) refl
      (omega arith)
    ∙ omega arith

pub destination_lem : (id : ℕ) → destination id ≡ id / 128 % 128
unfolding destination
destination_lem id =
    mask_word 7 (id / 128 % 256 / 128) (id / 128 % 256 % 128) (omega arith) refl (omega arith)
    ∙ omega arith

pub source_lem : (id : ℕ) → source id ≡ id % 128
unfolding source
source_lem id =
    mask_word 7 (id / 1 % 256 / 128) (id / 1 % 256 % 128) (omega arith) refl (omega arith)
    ∙ omega arith

-- The check of the flag and the reserved bit.
pub check_lem :
    (id : ℕ) → bit_and id 0x2800000 ≡ id / 33554432 % 2 * 33554432 + id / 8388608 % 2 * 8388608
check_lem id =
    let a =
      bit_word 25 (id / 33554432) (id % 33554432) 0x800000 {x = id} {m = 0x2800000} (omega arith)
        refl (omega arith) (omega arith) in
    let b =
      bit_word 23 (id % 33554432 / 8388608) (id % 8388608) 0 {x = id % 33554432} {m = 0x800000}
        (omega arith) refl (omega arith) (omega arith) in
    let z = and-zero (id % 8388608) in omega (arith, a, b, z)

pub ignored_lem : (id : ℕ) → bit_or (bit_and id 0x1fffffff) 0 ≡ id % 536870912
ignored_lem id =
    or-zero (bit_and id 0x1fffffff)
    ∙ mask_word 29 (id / 536870912) (id % 536870912) {x = id} {m = 0x1fffffff} (omega arith) refl
        (omega arith)

pub from_can_id_lem :
    (id : ℕ) → id / 33554432 % 2 ≡ 1 → id / 8388608 % 2 ≡ 0 → from_can_id id ≡ some (id % 536870912)
unfolding from_can_id
from_can_id_lem id a b =
    let z : bit_and id 0x2800000 ≡ 0x2000000 = omega (arith, check_lem id) in
    ap (λ t. if t == 0x2000000 then some (bit_or (bit_and id 0x1fffffff) 0) else none) z
    ∙ ap some (ignored_lem id)

pub from_can_id-none : (id : ℕ) → id / 33554432 % 2 ≡ 0 → from_can_id id ≡ none
unfolding from_can_id
from_can_id-none id a =
    let z : (bit_and id 0x2800000 == 0x2000000) ≡ false = ground (arith, check_lem id) in
    ap (λ t. if t then some (bit_or (bit_and id 0x1fffffff) 0) else none) z
