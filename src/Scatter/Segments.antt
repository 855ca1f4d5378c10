-- ===== src/Scatter/Segments.antt =====
-- What each call of `fetch_frame_data` puts into its frame.
use emcyphal.Common.{
  ℕ, ◌+◌, ◌-◌, ◌≤◌, min, max, ◌≡◌, sym, ap, ◌∙◌, List, [], ◌∷◌, ◌++◌, append_assoc, some, arith,
  le→leb, length, take, drop, replicate, length-take, length-drop, length-append, drop-append_split,
  take-append_split, take-append, Option-cases, inl, inr,
}
use emcyphal.Frame.{deref}
use emcyphal.Frame.DataLength.{new_ceil}
use emcyphal.Frame.DataLength.Laws.{new_ceil_nearest, new_ceil-le_add, new_ceil-eq-none, IsValid}
use emcyphal.Format.Crc.{add_bytes, to_be_bytes}
use emcyphal.Scatter.{Scatter, slice, fetch_full_segment, fetch_padded_segment, frame_of, residual}

-- The slice that a frame dereferences to is its payload and its tail byte.
pub deref-frame_of :
    (payload : List ℕ) (room tail : ℕ)
    → length payload ≡ room
    → deref (frame_of (room + 1) payload tail) ≡ payload ++ (tail ∷ [])
deref-frame_of payload room tail h =
    let e : payload ++ (tail ∷ drop (room + 1) (replicate 64 0))
        ≡ (payload ++ (tail ∷ [])) ++ drop (room + 1) (replicate 64 0) =
      sym (append_assoc payload (tail ∷ []) (drop (room + 1) (replicate 64 0))) in
    let f : room + 1 ≡ length (payload ++ (tail ∷ [])) =
      omega (arith, length-append payload (tail ∷ [])) in
    ap (λ l. take (room + 1) l) e
    ∙ ap (λ k. take k ((payload ++ (tail ∷ [])) ++ drop (room + 1) (replicate 64 0))) f
    ∙ take-append (payload ++ (tail ∷ [])) (drop (room + 1) (replicate 64 0))

-- The room for `n` bytes: the payload of the least frame that holds them and a tail.
pub record Room (n : ℕ) : Type 0 where
  pub room : ℕ
  pub ceil : new_ceil (n + 1) ≡ some (room + 1)
  pub fits : n ≤ room
  pub close : room ≤ n + 15
  pub nearest : (w : ℕ) → IsValid (w + 1) → n ≤ w → room ≤ w

pub Room-for : (n : ℕ) → n ≤ 63 → Room n
Room-for n h = elim (Option-cases (new_ceil (n + 1))) [
  | inl failed ↦ absurd (omega (arith, (new_ceil-eq-none (n + 1)).0 failed))
  | inr (c, e) ↦
      let at_least = (new_ceil_nearest (n + 1) 0 c e).1 in
      record {
        room = c - 1;
        ceil = let f : c - 1 + 1 ≡ c = omega arith in rw f e;
        fits = omega arith;
        close = omega (arith, new_ceil-le_add (n + 1) c e);
        nearest = λ w v le. omega (arith, (new_ceil_nearest (n + 1) (w + 1) c e).2 v (omega arith));
      }
]

pub slice-ok :
    (bytes : List ℕ) (from to : ℕ)
    → from ≤ to
    → to ≤ length bytes
    → slice bytes from to ≡ some (drop from (take to bytes))
unfolding slice
slice-ok bytes from to p q = ground arith

pub residual-ok :
    (s : Scatter) → s.offset ≤ s.data_length + 2 → residual s ≡ some (s.data_length + 2 - s.offset)
unfolding residual
residual-ok s h = ground arith

module _ (s : Scatter) (tx : List ℕ) (inside : s.data_length ≤ length tx) where
  -- The payload, and the bytes that a transfer without padding sends.
  abbrev pub message : List ℕ
  message = take s.data_length tx

  abbrev pub stream : List ℕ
  stream = message ++ to_be_bytes s.crc

  pub length-message : length message ≡ s.data_length
  length-message = omega (arith, length-take s.data_length tx)

  pub length-stream : length stream ≡ s.data_length + 2
  length-stream = omega (arith, length-append message (to_be_bytes s.crc), length-message)

  pub full_segment :
      (room : ℕ)
      → s.offset + room ≤ s.data_length + 2
      → fetch_full_segment s tx room
        ≡ some (record s { offset = s.offset + room }, take room (drop s.offset stream))
  unfolding fetch_full_segment
  full_segment room h =
      let n = s.data_length in
      let o = s.offset in
      let bytes = drop (min o n) message in
      let rest = drop (max o n - n) (to_be_bytes s.crc) in
      let len_bytes : length bytes ≡ n - min o n =
        omega (arith, length-drop (min o n) message, length-message) in
      let len_rest : length rest ≡ 2 - (max o n - n) =
        length-drop (max o n - n) (to_be_bytes s.crc) in
      let split : drop o stream ≡ bytes ++ rest =
        drop-append_split o message (to_be_bytes s.crc)
        ∙ ap (λ k. drop (min o k) message ++ drop (max o k - k) (to_be_bytes s.crc))
            length-message in
      let copied : take room (drop o stream)
          ≡ take (min (length bytes) room) bytes ++ take (room - min (length bytes) room) rest =
        ap (take room) split ∙ take-append_split room bytes rest in
      rw (
        residual-ok s (omega arith),
        fetch_full_segment,
        slice-ok tx (min o n) n (omega arith) inside,
        le→leb room (n + 2 - o) (omega arith),
        le→leb (room - min (length bytes) room) (length rest) (omega arith),
        copied,
      )

  pub padded_segment :
      (room : ℕ)
      → s.offset ≤ s.data_length
      → s.data_length - s.offset + 2 ≤ room
      → fetch_padded_segment s tx room
        ≡ some (
          record s { offset = s.data_length + 2 },
          drop s.offset message
              ++ (replicate (room - 2 - (s.data_length - s.offset)) 0
                  ++ to_be_bytes
                      (add_bytes s.crc (replicate (room - 2 - (s.data_length - s.offset)) 0))),
        )
  unfolding fetch_padded_segment
  padded_segment room low h =
      let n = s.data_length in
      let o = s.offset in
      let len_bytes : length (drop o message) ≡ n - o =
        omega (arith, length-drop o message, length-message) in
      let e : o + (n - o) + 2 ≡ n + 2 = omega arith in
      rw (
        slice-ok tx o n low inside,
        fetch_padded_segment,
        le→leb o n low,
        len_bytes,
        le→leb (2 + (n - o)) room (omega arith),
        e,
      )
