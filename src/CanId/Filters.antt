-- ===== src/CanId/Filters.antt =====
-- emcyphal-stm32-native/src/format.rs: what the filter patterns of a subject and a node select.
use mathlib.Core.Path.{ap₂}
use emcyphal.Common.{
  and-mask, ℕ, ◌+◌, ◌-◌, ◌*◌, ◌/◌, ◌%◌, ◌^◌, ◌<◌, bit_and, ◌≡◌, refl, ap, ◌∙◌, Option, none, some,
  ◌==◌, if◌then◌else◌, arith, mask_word, bit_word, and-join, and-zero, zero-or, or_word, ◌↔◌,
}
use emcyphal.Core.Ids.SubjectId.{SubjectId}
use emcyphal.Core.Ids.NodeId.{NodeId}
use emcyphal.CanId.Message
use emcyphal.CanId.Service
use emcyphal.CanId.Message.{msg_filter_mask, make_msg_filter_pattern, decode_msg_filter_pattern}
use emcyphal.CanId.Service.{srv_filter_mask, make_srv_filter_pattern, decode_srv_filter_pattern}

-- The mask of a field of `w` bits at `o`, over a narrower one.
field_word :
    (w o h f l c : ℕ) {x m : ℕ}
    → x ≡ (h * 2 ^ w + f) * 2 ^ o + l
    → m ≡ (2 ^ w - 1) * 2 ^ o + c
    → f < 2 ^ w
    → l < 2 ^ o
    → c < 2 ^ o
    → bit_and x m ≡ f * 2 ^ o + bit_and l c
field_word w o h f l c ex em hf hl hc =
    ap₂ bit_and ex em
    ∙ and-join o (h * 2 ^ w + f) (2 ^ w - 1) l c hl hc
    ∙ ap (λ t. t * 2 ^ o + bit_and l c) (and-mask w h f hf)

msg_pattern : (s : SubjectId) → s < 8192 → make_msg_filter_pattern (some s) ≡ s * 256
unfolding make_msg_filter_pattern
msg_pattern s h = zero-or _ ∙ omega arith

msg_masked :
    (id : ℕ)
    → bit_and id msg_filter_mask
      ≡ id / 33554432 % 2 * 33554432
        + id / 8388608 % 2 * 8388608
        + id / 256 % 8192 * 256
        + id / 128 % 2 * 128
msg_masked id =
    let a =
      bit_word 25 (id / 33554432) (id % 33554432) 0x9fff80 {x = id} {m = 0x29fff80} (omega arith)
        refl (omega arith) (omega arith) in
    let b =
      bit_word 23 (id % 33554432 / 8388608) (id % 8388608) 0x1fff80 {x = id % 33554432}
        {m = 0x9fff80} (omega arith) refl (omega arith) (omega arith) in
    let f =
      field_word 13 8 (id % 8388608 / 2097152) (id / 256 % 8192) (id % 256) 128 {x = id % 8388608}
        {m = 0x1fff80} (omega arith) refl (omega arith) (omega arith) (omega arith) in
    let c =
      bit_word 7 (id % 256 / 128) (id % 128) 0 {x = id % 256} {m = 128} (omega arith) refl
        (omega arith) (omega arith) in
    let z = and-zero (id % 128) in omega (arith, a, b, f, c, z)

msg_accepted :
    (id : ℕ) (w : ℕ)
    → Message.from_can_id id ≡ some w
    → (id / 33554432 % 2 ≡ 0)
      × (id / 8388608 % 2 ≡ 0)
      × (id / 128 % 2 ≡ 0)
      × (w ≡ id % 536870912 / 8388608 * 8388608 + 6291456 + id % 2097152)
unfolding Message.from_can_id
msg_accepted id w e =
    let c = Message.Laws.check_lem id in let i = Message.Laws.ignored_lem id in ground (arith, c, i)

-- For a subject in range, an identifier agrees with the filter pattern of the subject under the
-- filter mask exactly if it is accepted as a message identifier and carries that subject.
pub make_msg_filter_pattern_selects :
    (id : ℕ) (s : SubjectId)
    → s < 8192
    → (bit_and id msg_filter_mask ≡ make_msg_filter_pattern (some s))
      ↔ ((w : Message.MessageCanId) × (Message.from_can_id id ≡ some w) × (Message.subject w ≡ s))
make_msg_filter_pattern_selects id s h =
    let m = msg_masked id in
    let p = msg_pattern s h in
    (
      λ e.
          let w : ℕ = id % 536870912 / 8388608 * 8388608 + 6291456 + id % 2097152 in
          let eq : bit_and id 0x29fff80 ≡ s * 256 = e ∙ p in
          (
            w,
            Message.Laws.from_can_id_lem id (omega (arith, m, eq)) (omega (arith, m, eq))
                (omega (arith, m, eq)),
            Message.Laws.subject_lem w ∙ omega (arith, m, eq),
          ),
      λ (w, f, g).
          let (a, b, c, d) = msg_accepted id w f in
          let q = Message.Laws.subject_lem w in omega (arith, m, p, g, a, b, c, d, q),
    )

srv_pattern : (n : NodeId) → n < 128 → make_srv_filter_pattern (some n) ≡ 33554432 + n * 128
unfolding make_srv_filter_pattern
srv_pattern n h =
    let o =
      or_word 7 7 2048 0 n 0 {x = 33554432} {s = n * 128 % 4294967296} refl (omega arith)
        (omega arith) h (omega arith) in
    let z = zero-or n in omega (arith, o, z)

srv_masked :
    (id : ℕ)
    → bit_and id srv_filter_mask
      ≡ id / 33554432 % 2 * 33554432 + id / 8388608 % 2 * 8388608 + id / 128 % 128 * 128
srv_masked id =
    let a =
      bit_word 25 (id / 33554432) (id % 33554432) 0x803f80 {x = id} {m = 0x2803f80} (omega arith)
        refl (omega arith) (omega arith) in
    let b =
      bit_word 23 (id % 33554432 / 8388608) (id % 8388608) 0x3f80 {x = id % 33554432} {m = 0x803f80}
        (omega arith) refl (omega arith) (omega arith) in
    let f =
      field_word 7 7 (id % 8388608 / 16384) (id / 128 % 128) (id % 128) 0 {x = id % 8388608}
        {m = 0x3f80} (omega arith) refl (omega arith) (omega arith) (omega arith) in
    let z = and-zero (id % 128) in omega (arith, a, b, f, z)

srv_accepted :
    (id : ℕ) (w : ℕ)
    → Service.from_can_id id ≡ some w
    → (id / 33554432 % 2 ≡ 1) × (id / 8388608 % 2 ≡ 0) × (w ≡ id % 536870912)
unfolding Service.from_can_id
srv_accepted id w e =
    let c = Service.Laws.check_lem id in let i = Service.Laws.ignored_lem id in ground (arith, c, i)

-- For a node in range, an identifier agrees with the filter pattern of the node under the filter
-- mask exactly if it is accepted as a service identifier and carries that destination.
pub make_srv_filter_pattern_selects :
    (id : ℕ) (n : NodeId)
    → n < 128
    → (bit_and id srv_filter_mask ≡ make_srv_filter_pattern (some n)) ↔ (
        (w : Service.ServiceCanId) × (Service.from_can_id id ≡ some w)
        × (Service.destination w ≡ n))
make_srv_filter_pattern_selects id n h =
    let m = srv_masked id in
    let p = srv_pattern n h in
    (
      λ e.
          let w : ℕ = id % 536870912 in
          let eq : bit_and id 0x2803f80 ≡ 33554432 + n * 128 = e ∙ p in
          (
            w,
            Service.Laws.from_can_id_lem id (omega (arith, m, eq)) (omega (arith, m, eq)),
            Service.Laws.destination_lem w ∙ omega (arith, m, eq),
          ),
      λ (w, f, g).
          let (a, b, d) = srv_accepted id w f in
          let q = Service.Laws.destination_lem w in omega (arith, m, p, g, a, b, d, q),
    )

-- A driver that reads a pattern back finds the subject, in range, or the absence it was made of.
pub decode-make_msg_filter_pattern :
    (s : Option SubjectId)
    → ((n : SubjectId) → s ≡ some n → n < 8192)
    → decode_msg_filter_pattern (make_msg_filter_pattern s) ≡ s
unfolding decode_msg_filter_pattern make_msg_filter_pattern
decode-make_msg_filter_pattern none h = refl
decode-make_msg_filter_pattern (some n) h =
    let small = h n refl in
    let p = msg_pattern n small in
    let join =
      and-join 8 (0 * 2 ^ 13 + n) (2027 * 2 ^ 13 + 0) 0 127 (omega arith) (omega arith)
      ∙ ap (λ t. t * 2 ^ 8 + bit_and 0 127) (and-join 13 0 2027 n 0 small (omega arith)) in
    let outside : bit_and (n * 256) 0xfd60007f ≡ 0 =
      ap₂ bit_and {x = n * 256} {y = (0 * 2 ^ 13 + n) * 2 ^ 8 + 0} (omega arith) refl
      ∙ join
      ∙ omega (arith, and-zero n) in
    let inside : bit_and (n * 256 / 256 % 65536) 8191 ≡ n =
      mask_word 13 0 n (omega arith) refl small in
    ap decode_msg_filter_pattern p
    ∙ ap (λ t. if t == 0 then some (bit_and (n * 256 / 256 % 65536) 8191) else none) outside
    ∙ ap some inside
