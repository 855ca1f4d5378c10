-- ===== src/Scatter/Frames.antt =====
-- The frames of a multi-frame transfer: either a full frame with more to come, or the last one.
use emcyphal.Common.{
  ℕ, ◌+◌, ◌-◌, ◌≤◌, ◌<◌, min, ◌≡◌, ◌≢◌, refl, sym, ap, ◌∙◌, ◌⊎◌, inl, inr, List, ◌++◌, append-nil,
  append_assoc, true, false, not, Option, some, arith, leb, le→leb, ◌==◌, ==_refl, length, take,
  drop, replicate, length-take, length-drop, length-append, length-replicate, take-all, take-add,
  take-append_short, take-append-drop,
}
use native.Mathlib.Decide.{dec_le, dec_lt, ℕ_discrete}
use emcyphal.Frame.Mtu.{Mtu, classic, fd, to_usize}
use emcyphal.Frame.DataLength.Laws.{IsValid, some-IsValid}
use emcyphal.Format.Crc.{add_bytes, to_be_bytes}
use emcyphal.Format.TailByte
use emcyphal.Scatter.{
  Scatter, Fetched, fetch_segment, fetch_multi, fetch_single, fetch_single_segment,
  fetch_frame_data, frame_of, with_room,
}
use emcyphal.Scatter.Segments.{
  Room, Room-for, message, stream, length-message, length-stream, full_segment, padded_segment,
  residual-ok, slice-ok,
}

==_ne : (a b : ℕ) → a ≢ b → (a == b) ≡ false
==_ne a b h = ground arith

leb-false : (a b : ℕ) → b < a → leb a b ≡ false
leb-false a b h = ground arith

with_room-ok : (n : ℕ) (fill : ℕ → Option Fetched) (r : Room n) → with_room n fill ≡ fill r.room
unfolding with_room
with_room-ok n fill r =
    let e : r.room + 1 - 1 ≡ r.room = omega arith in
    rw (r.ceil, with_room, le→leb 1 (r.room + 1) (omega arith), e)

module _ (s : Scatter) (tx : List ℕ) (inside : s.data_length ≤ length tx) where
  -- A frame that fills the MTU, of which more follow.
  pub record More (fetched : Option Fetched) : Type 0 where
    pub room : ℕ
    pub within : s.offset + room < s.data_length + 2
    pub full : (room ≡ 7) ⊎ (room ≡ 63)
    pub frame :
        fetched
        ≡ some (
          record s { offset = s.offset + room; toggle_bit = not s.toggle_bit },
          some (
              frame_of
                (room + 1)
                (take room (drop s.offset (stream s tx inside)))
                (TailByte.new (s.offset == 0) false s.toggle_bit s.transfer_id)),
        )

  -- The last frame, whose payload completes the message, `pad` zeros and the CRC of both.
  pub record Last (fetched : Option Fetched) : Type 0 where
    pub room : ℕ
    pub pad : ℕ
    pub payload : List ℕ
    pub after : Scatter
    pub filled : length payload ≡ room
    pub some_bytes : 1 ≤ room
    pub short : room ≤ 63
    pub little : pad ≤ 15
    pub ended : after.offset ≡ after.data_length + 2
    pub total :
        take s.offset (stream s tx inside) ++ payload
        ≡ (message s tx inside ++ replicate pad 0)
          ++ to_be_bytes (add_bytes s.crc (replicate pad 0))
    pub frame :
        fetched
        ≡ some (
          after,
          some (
              frame_of
                (room + 1)
                payload
                (TailByte.new (s.offset == 0) true s.toggle_bit s.transfer_id)),
        )

  module _ (mtu : Mtu) (left : ℕ) (left_lem : s.offset + left ≡ s.data_length + 2) where
    More-frame :
        (r : Room (min left (to_usize mtu - 1)))
        → (r.room ≡ 7) ⊎ (r.room ≡ 63)
        → r.room < left
        → More (fetch_multi s tx left (to_usize mtu - 1))
    unfolding fetch_multi fetch_segment
    More-frame r full h =
        let open_end : (s.offset + r.room == s.data_length + 2) ≡ false =
          ==_ne (s.offset + r.room) (s.data_length + 2) (omega arith) in
        record {
          room = r.room;
          within = omega arith;
          full = full;
          frame = rw (
            with_room-ok (min left (to_usize mtu - 1)) _ r,
            le→leb r.room left (omega arith),
            full_segment s tx inside r.room (omega arith),
            fetch_segment,
            open_end,
          );
        }

    Last-full :
        (r : Room (min left (to_usize mtu - 1)))
        → r.room ≡ left
        → 1 ≤ left
        → left ≤ 63
        → Last (fetch_multi s tx left (to_usize mtu - 1))
    unfolding fetch_multi fetch_segment
    Last-full r h pos small =
        let whole = stream s tx inside in
        let end : s.offset + r.room ≡ s.data_length + 2 = omega arith in
        let closed : (s.offset + r.room == s.data_length + 2) ≡ true =
          rw end (==_refl (s.data_length + 2)) in
        record {
          room = r.room;
          pad = 0;
          payload = take r.room (drop s.offset whole);
          after = record s { offset = s.offset + r.room; toggle_bit = not s.toggle_bit };
          filled = omega (
            arith,
            length-take r.room (drop s.offset whole),
            length-drop s.offset whole,
            length-stream s tx inside,
          );
          some_bytes = omega arith;
          short = omega arith;
          little = omega arith;
          ended = end;
          total =
              take-add s.offset r.room whole
              ∙ take-all (s.offset + r.room) whole (omega (arith, length-stream s tx inside))
              ∙ ap (λ l. l ++ to_be_bytes s.crc) (sym (append-nil (message s tx inside)));
          frame = rw (
            with_room-ok (min left (to_usize mtu - 1)) _ r,
            le→leb r.room left (omega arith),
            full_segment s tx inside r.room (omega arith),
            fetch_segment,
            closed,
          );
        }

    Last-padded :
        (r : Room (min left (to_usize mtu - 1)))
        → left < r.room
        → r.room ≤ 63
        → s.offset ≤ s.data_length
        → Last (fetch_multi s tx left (to_usize mtu - 1))
    unfolding fetch_multi fetch_segment
    Last-padded r h small low =
        let start = message s tx inside in
        let n = s.data_length in
        let count = r.room - 2 - (n - s.offset) in
        let pad : List ℕ = replicate count 0 in
        let checksum : List ℕ = to_be_bytes (add_bytes s.crc pad) in
        let len_start : length (drop s.offset start) ≡ n - s.offset =
          omega (arith, length-drop s.offset start, length-message s tx inside) in
        record {
          room = r.room;
          pad = count;
          payload = drop s.offset start ++ (pad ++ checksum);
          after = record s { offset = n + 2; toggle_bit = not s.toggle_bit };
          filled = omega (
            arith,
            length-append (drop s.offset start) (pad ++ checksum),
            length-append pad checksum,
            length-replicate {A = ℕ} count 0,
            len_start,
          );
          some_bytes = omega arith;
          short = small;
          little = omega (arith, r.close);
          ended = refl;
          total =
              ap (λ l. l ++ (drop s.offset start ++ (pad ++ checksum)))
                (take-append_short s.offset start (to_be_bytes s.crc)
                  (omega (arith, length-message s tx inside)))
              ∙ sym (append_assoc (take s.offset start) (drop s.offset start) (pad ++ checksum))
              ∙ ap (λ l. l ++ (pad ++ checksum)) (take-append-drop s.offset start)
              ∙ sym (append_assoc start pad checksum);
          frame = rw (
            with_room-ok (min left (to_usize mtu - 1)) _ r,
            leb-false r.room left h,
            padded_segment s tx inside r.room low (omega arith),
            fetch_segment,
            le→leb s.offset n low,
            ==_refl (n + 2),
          );
        }

    -- The room of a frame: all of the MTU if more is left than fits, else the least that holds it.
    room_cases :
        (most : ℕ)
        → IsValid (most + 1)
        → (r : Room (min left most)) → 1 ≤ left
        → (r.room ≤ most)
          × (((r.room < left) × (r.room ≡ most))
              ⊎ (r.room ≡ left)
              ⊎ ((left < r.room) × (s.offset ≤ s.data_length)))
    room_cases most valid r h =
        let upper = r.nearest most valid (omega arith) in
        let least = r.fits in
        elim (dec_lt r.room left) [
          | yes less ↦ (upper, inl (less, omega arith))
          | no more ↦ elim (ℕ_discrete r.room left) [
            | yes same ↦ (upper, inr (inl same))
            | no other ↦ (upper, inr (inr (omega arith, low r more other)))
          ]
        ]
      where
        low :
            (r : Room (min left most))
            → ¬ (r.room < left)
            → r.room ≢ left
            → s.offset ≤ s.data_length
        low r more other = elim (dec_le s.offset s.data_length) [
          | yes p ↦ p
          | no p ↦ absurd (omega (arith, r.nearest 1 some-IsValid.0 (omega arith)))
        ]

    cases_of :
        (most : ℕ)
        → IsValid (most + 1)
        → (most ≡ 7) ⊎ (most ≡ 63)
        → to_usize mtu - 1 ≡ most
        → 1 ≤ left
        → More (fetch_multi s tx left (to_usize mtu - 1))
          ⊎ Last (fetch_multi s tx left (to_usize mtu - 1))
    cases_of most valid which e h =
        let r = Room-for (min left (to_usize mtu - 1)) (omega arith) in
        let (upper, cases) = room_cases (to_usize mtu - 1) (rw e valid) r h in
        elim cases [
          | inl (less, full) ↦ inl (More-frame r (omega arith) less)
          | inr (inl same) ↦ inr (Last-full r same h (omega arith))
          | inr (inr (over, low)) ↦ inr (Last-padded r over (omega arith) low)
        ]

    More-of :
        (most : ℕ)
        → IsValid (most + 1)
        → (most ≡ 7) ⊎ (most ≡ 63)
        → to_usize mtu - 1 ≡ most
        → most < left
        → More (fetch_multi s tx left (to_usize mtu - 1))
    More-of most valid which e h =
        let r = Room-for (min left (to_usize mtu - 1)) (omega arith) in
        let (upper, cases) = room_cases (to_usize mtu - 1) (rw e valid) r (omega arith) in
        elim cases [
          | inl (less, full) ↦ More-frame r (omega arith) less
          | inr (inl same) ↦ absurd (omega arith)
          | inr (inr (over, low)) ↦ absurd (omega arith)
        ]

-- Where more is left than the MTU holds, the frame is full and not the last.
pub fetch_multi-More :
    (s : Scatter) (tx : List ℕ) (inside : s.data_length ≤ length tx) (mtu : Mtu) (left : ℕ)
    → s.offset + left ≡ s.data_length + 2
    → to_usize mtu - 1 < left
    → More s tx inside (fetch_multi s tx left (to_usize mtu - 1))
fetch_multi-More s tx inside classic left e h =
    More-of s tx inside classic left e 7 some-IsValid.1 (inl refl) refl h
fetch_multi-More s tx inside fd left e h =
    More-of s tx inside fd left e 63 some-IsValid.2 (inr refl) refl h

-- A fetch in the middle of a multi-frame transfer always yields a frame.
pub fetch_multi_cases :
    (s : Scatter) (tx : List ℕ) (inside : s.data_length ≤ length tx) (mtu : Mtu) (left : ℕ)
    → s.offset + left ≡ s.data_length + 2
    → 1 ≤ left
    → More s tx inside (fetch_multi s tx left (to_usize mtu - 1))
      ⊎ Last s tx inside (fetch_multi s tx left (to_usize mtu - 1))
fetch_multi_cases s tx inside classic left e h =
    cases_of s tx inside classic left e 7 some-IsValid.1 (inl refl) refl h
fetch_multi_cases s tx inside fd left e h =
    cases_of s tx inside fd left e 63 some-IsValid.2 (inr refl) refl h

-- In the middle of a transfer a frame is fetched by `fetch_multi`.
pub fetch_middle :
    (s : Scatter) (tx : List ℕ) (mtu : Mtu)
    → 1 ≤ s.offset
    → s.offset < s.data_length + 2
    → fetch_frame_data s tx mtu ≡ fetch_multi s tx (s.data_length + 2 - s.offset) (to_usize mtu - 1)
unfolding fetch_frame_data
fetch_middle s tx mtu h k =
    let middle : (s.offset == 0) ≡ false = ground arith in
    let more : (s.data_length + 2 - s.offset == 0) ≡ false = ground arith in
    rw (middle, residual-ok s (omega arith), fetch_frame_data, more)

-- So it is at the start of a transfer that does not fit a single frame.
pub fetch_start :
    (s : Scatter) (tx : List ℕ) (mtu : Mtu)
    → s.offset ≡ 0
    → to_usize mtu - 1 < s.data_length
    → fetch_frame_data s tx mtu ≡ fetch_multi s tx (s.data_length + 2 - s.offset) (to_usize mtu - 1)
unfolding fetch_frame_data
fetch_start s tx mtu h k =
    let more : (s.data_length + 2 - s.offset == 0) ≡ false = ground arith in
    let long : leb s.data_length (to_usize mtu - 1) ≡ false = leb-false _ _ k in
    let start : (s.offset == 0) ≡ true = ground arith in
    rw (start, long, residual-ok s (omega arith), fetch_frame_data, more)

-- The single frame of a transfer that fits one: the payload, padded to a frame length.
pub record Single (s : Scatter) (tx : List ℕ) (fetched : Option Fetched) : Type 0 where
  pub pad : ℕ
  pub after : Scatter
  pub little : pad ≤ 15
  pub short : s.data_length + pad ≤ 63
  pub ended : after.offset ≡ after.data_length + 2
  pub frame :
      fetched
      ≡ some (
        after,
        some (
            frame_of
              (s.data_length + pad + 1)
              (take s.data_length tx ++ replicate pad 0)
              (TailByte.new true true true s.transfer_id)),
      )

pub fetch_single_lem :
    (s : Scatter) (tx : List ℕ) (mtu : Mtu)
    → s.data_length ≤ length tx
    → s.offset ≡ 0
    → s.data_length ≤ to_usize mtu - 1
    → Single s tx (fetch_frame_data s tx mtu)
unfolding fetch_frame_data fetch_single fetch_single_segment
fetch_single_lem s tx mtu inside zero_offset fits =
    let n = s.data_length in
    let r = Room-for n (most mtu fits) in
    let limit = r.nearest 63 some-IsValid.2 (most mtu fits) in
    let start : (s.offset == 0) ≡ true = ground arith in
    let sum : n + (r.room - n) ≡ r.room = omega (arith, r.fits) in
    record {
      pad = r.room - n;
      after = record s { offset = n + 2 };
      little = omega (arith, r.close);
      short = omega arith;
      ended = refl;
      frame = rw (
        sum,
        start,
        le→leb n (to_usize mtu - 1) fits,
        with_room-ok n _ r,
        slice-ok tx 0 n (omega arith) inside,
        fetch_single_segment,
        le→leb n r.room r.fits,
      );
    }
  where
    most : (m : Mtu) → s.data_length ≤ to_usize m - 1 → s.data_length ≤ 63
    most classic h = omega arith
    most fd h = omega arith
