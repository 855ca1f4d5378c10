-- ===== src/Scatter/Live.antt =====
-- emcyphal/src/buffer/scatter.rs: the frames of a transfer that is not sent to its end.
use emcyphal.Common.{
  ℕ, ◌+◌, ◌-◌, ◌≤◌, ◌<◌, min, ◌≡◌, refl, ◌⊎◌, inl, inr, List, Option, some, true, false, arith,
  length, ==_iff, Option-cases, [], ◌∷◌, ◌++◌, ◌==◌, take, drop, replicate, length-take,
  length-drop, length-append, length-replicate,
}
use native.Mathlib.Decide.{dec_le, ℕ_discrete}
use emcyphal.Frame.{Data, deref}
use emcyphal.Format.TailByte
use emcyphal.Scatter.Segments.{deref-frame_of, stream, length-stream}
use emcyphal.Frame.DataLength.{new_ceil}
use emcyphal.Frame.DataLength.Laws.{IsValid, some-IsValid, new_ceil_nearest}
use emcyphal.Frame.Mtu.{Mtu, classic, fd, to_usize}
use emcyphal.Scatter.{
  Scatter, Fetched, is_exhausted, fetch_frame_data, fetch_single, fetch_multi, with_room, residual,
}
use emcyphal.Scatter.Frames.{
  More, Last, Single, fetch_multi_cases, fetch_middle, fetch_start, fetch_single_lem,
}

-- A transfer of bytes that stand in the buffer, of which something is left to send.
pub record IsLive (s : Scatter) (tx : List ℕ) : Type 0 where
  pub inside : s.data_length ≤ length tx
  pub unfinished : s.offset < s.data_length + 2

-- A frame with a tail byte, and either the end of the transfer or a transfer that is live again.
pub record Yields (s : Scatter) (tx : List ℕ) (fetched : Option Fetched) : Type 0 where
  pub after : Scatter
  pub frame : Data
  pub init : List ℕ
  pub byte : ℕ
  pub eq : fetched ≡ some (after, some frame)
  pub tail : deref frame ≡ init ++ (byte ∷ [])
  pub next : (is_exhausted after ≡ true) ⊎ ((is_exhausted after ≡ false) × IsLive after tx)

module _ (s : Scatter) (tx : List ℕ) (live : IsLive s tx) where
  More-Yields : (f : Option Fetched) → More s tx live.inside f → Yields s tx f
  unfolding is_exhausted
  More-Yields f m = record {
    after = _;
    frame = _;
    init = _;
    byte = _;
    eq = m.frame;
    tail =
        let whole = stream s tx live.inside in
        let m_within = m.within in
        deref-frame_of (take m.room (drop s.offset whole)) m.room
          (TailByte.new (s.offset == 0) false s.toggle_bit s.transfer_id)
          (omega (
            arith,
            m_within,
            length-take m.room (drop s.offset whole),
            length-drop s.offset whole,
            length-stream s tx live.inside,
          ));
    next = inr (ground (arith, m.within), record { inside = live.inside; unfinished = m.within });
  }

  Last-Yields : (f : Option Fetched) → Last s tx live.inside f → Yields s tx f
  unfolding is_exhausted
  Last-Yields f l = record {
    after = l.after;
    frame = _;
    init = _;
    byte = _;
    eq = l.frame;
    tail =
        deref-frame_of l.payload l.room
          (TailByte.new (s.offset == 0) true s.toggle_bit s.transfer_id) l.filled;
    next = inl ((==_iff _ _).1 l.ended);
  }

  Single-Yields : (f : Option Fetched) → Single s tx f → Yields s tx f
  unfolding is_exhausted
  Single-Yields f l = record {
    after = l.after;
    frame = _;
    init = _;
    byte = _;
    eq = l.frame;
    tail =
        let inside = live.inside in
        deref-frame_of (take s.data_length tx ++ replicate l.pad 0) (s.data_length + l.pad)
          (TailByte.new true true true s.transfer_id)
          (omega (
            arith,
            inside,
            length-append (take s.data_length tx) (replicate l.pad 0),
            length-take s.data_length tx,
            length-replicate {A = ℕ} l.pad 0,
          ));
    next = inl ((==_iff _ _).1 l.ended);
  }

  multi-Yields :
      (mtu : Mtu) → Yields s tx (fetch_multi s tx (s.data_length + 2 - s.offset) (to_usize mtu - 1))
  multi-Yields mtu =
      let left : ℕ = s.data_length + 2 - s.offset in
      elim (fetch_multi_cases s tx live.inside mtu left (omega (arith, live.unfinished))
        (omega (arith, live.unfinished))) [ inl m ↦ More-Yields _ m | inr l ↦ Last-Yields _ l ]

-- Fetching from a transfer whose bytes stand in the buffer and of which something is left to send
-- never fails: it gives a frame with a tail byte for either MTU, after which the transfer is
-- exhausted or again such.
pub fetch-Yields :
    (s : Scatter) (tx : List ℕ) (mtu : Mtu) → IsLive s tx → Yields s tx (fetch_frame_data s tx mtu)
fetch-Yields s tx mtu live = elim (ℕ_discrete s.offset 0) [
  | yes start ↦ elim (dec_le s.data_length (to_usize mtu - 1)) [
    | yes fits ↦ Single-Yields s tx live _ (fetch_single_lem s tx mtu live.inside start fits)
    | no long ↦ rw (fetch_start s tx mtu start (omega arith)) (multi-Yields s tx live mtu)
  ]
  | no middle ↦
      rw (fetch_middle s tx mtu (omega arith) live.unfinished) (multi-Yields s tx live mtu)
]

-- A frame whose room is made for `n` bytes is no longer than a frame length that holds them.
module _ (s : Scatter) (tx : List ℕ) (most : ℕ) (valid : IsValid (most + 1)) (after : Scatter)
    (frame : Data) where
  single-le :
      s.data_length ≤ most → fetch_single s tx ≡ some (after, some frame) → frame.len ≤ most + 1
  unfolding fetch_single with_room
  single-le small e = elim (Option-cases (new_ceil (s.data_length + 1))) [
    | inl failed ↦ ground arith
    | inr (c, found) ↦
        let near =
          (new_ceil_nearest (s.data_length + 1) (most + 1) c found).2 valid (omega arith) in
        ground arith
  ]

  multi-le :
      (left : ℕ) → fetch_multi s tx left most ≡ some (after, some frame) → frame.len ≤ most + 1
  unfolding fetch_multi with_room
  multi-le left e = elim (Option-cases (new_ceil (min left most + 1))) [
    | inl failed ↦ ground arith
    | inr (c, found) ↦
        let near =
          (new_ceil_nearest (min left most + 1) (most + 1) c found).2 valid (omega arith) in
        ground arith
  ]

  fetch-le_most :
      (mtu : Mtu)
      → to_usize mtu ≡ most + 1
      → fetch_frame_data s tx mtu ≡ some (after, some frame)
      → frame.len ≤ most + 1
  unfolding fetch_frame_data residual
  fetch-le_most mtu m e =
      let same : to_usize mtu - 1 ≡ most = omega arith in
      let e' = rw same at e in ground (arith, single-le, multi-le (s.data_length + 2 - s.offset))

-- A frame that is fetched is no longer than the MTU.
pub fetch-le :
    (s : Scatter) (tx : List ℕ) (mtu : Mtu) (after : Scatter) (frame : Data)
    → fetch_frame_data s tx mtu ≡ some (after, some frame)
    → frame.len ≤ to_usize mtu
fetch-le s tx classic after frame e = fetch-le_most s tx 7 some-IsValid.1 after frame classic refl e
fetch-le s tx fd after frame e = fetch-le_most s tx 63 some-IsValid.2 after frame fd refl e
