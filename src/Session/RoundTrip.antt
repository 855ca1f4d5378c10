-- ===== src/Session/RoundTrip.antt =====
-- emcyphal/src/buffer: a transfer that `Scatter` cuts into frames and `Gather` reassembles.
use emcyphal.Common.{
  ℕ, ◌+◌, ◌-◌, ◌≤◌, ◌<◌, ◌^◌, min, ◌≡◌, refl, sym, ap, ◌∙◌, append-nil, List, [], ◌∷◌, ◌++◌, Bool,
  true, false, Option, some, arith, length, take, drop, replicate, length-take, length-append,
  length-replicate, take-append_short,
}
use mathlib.Core.Path.{ap₂}
use native.Mathlib.Decide.{dec_le}
use emcyphal.Core.Priority.{Priority}
use emcyphal.Core.Ids.TransferId.{TransferId}
use emcyphal.Format.TailByte
use emcyphal.Format.Crc.{init_value, add_bytes}
use emcyphal.Frame.Mtu.{Mtu, to_usize}
use emcyphal.Time.{Clock}
use emcyphal.Scatter
use emcyphal.Scatter.{Scatter, fetch_frame_data, fetch_multi, frame_of}
use emcyphal.Scatter.Segments.{deref-frame_of, stream, length-stream}
use emcyphal.Scatter.Frames.{More, Single, fetch_single_lem, fetch_start, fetch_multi-More}
use emcyphal.Gather.{Gather, Outcome, Transfer, accumulated_first, tid_match}
use emcyphal.Gather.Store.{store, length-store, take-store}
use emcyphal.Gather.Receive.{receiving, complete}
use emcyphal.Gather.First.{IsReady, receive_first, receive_single}
use emcyphal.Session.{exchange, InTime}
use emcyphal.Session.Loop.{exchange_on, exchange_end, loop}

module _ (c : Clock) where
  open c use {Instant, Duration, saturating_add, le}

  -- The receiver ends with the transfer `id` of priority `p` that started at `start`: the `n` bytes
  -- `payload` and at most 15 zeros of padding, of which the buffer `b` keeps what fits.
  pub record Delivers (p : Priority) (id : TransferId) (start : Instant) (payload b : List ℕ)
      (out : Option (Outcome Instant)) : Type 0 where
    pub pad : ℕ
    pub little : pad ≤ 15
    pub state : Gather Instant
    pub buffer : List ℕ
    pub eq :
        out
        ≡ some (
          state,
          buffer,
          some (record { id = id; priority = p; timestamp = start; len = length payload + pad }),
        )
    pub size : length buffer ≡ length b
    pub reads :
        take (min (length payload + pad) (length b)) buffer
        ≡ take (min (length payload + pad) (length b)) (payload ++ replicate pad 0)

  module _ (timeout : Duration) (p : Priority) (tx : List ℕ) (id : TransferId) (small : id < 32)
      (n : ℕ) (inside : n ≤ length tx) (short : n + 64 < 2 ^ 32) (start : Instant)
      (b : List ℕ) where
    abbrev payload : List ℕ
    payload = take n tx

    length-payload : length payload ≡ n
    length-payload = omega (arith, length-take n tx)

    length-padded : (pad : ℕ) → length (payload ++ replicate pad 0) ≡ n + pad
    length-padded pad = omega (
      arith,
      length-append payload (replicate {A = ℕ} pad 0),
      length-payload,
      length-replicate {A = ℕ} pad 0,
    )

    -- What a client reads of a buffer that holds the padded payload and then anything.
    reads-store :
        (pad : ℕ) (rest : List ℕ)
        → take
            (min (length payload + pad) (length b))
            (store b ((payload ++ replicate pad 0) ++ rest))
          ≡ take (min (length payload + pad) (length b)) (payload ++ replicate pad 0)
    reads-store pad rest =
        let k = min (length payload + pad) (length b) in
        let all = payload ++ replicate pad 0 in
        take-store k b (all ++ rest) (omega arith)
          (omega (arith, length-append all rest, length-padded pad, length-payload))
        ∙ take-append_short k all rest (omega (arith, length-padded pad, length-payload))

    deliver :
        (out : Option (Outcome Instant)) (pad : ℕ) (rest : List ℕ) (g : Gather Instant)
        → pad ≤ 15
        → out
          ≡ some (
            g,
            store b ((payload ++ replicate pad 0) ++ rest),
            some (record { id = id; priority = p; timestamp = start; len = n + pad }),
          )
        → Delivers p id start payload b out
    deliver out pad rest g h e = record {
      pad = pad;
      little = h;
      state = g;
      buffer = store b ((payload ++ replicate pad 0) ++ rest);
      eq = rw length-payload e;
      size = length-store b ((payload ++ replicate pad 0) ++ rest);
      reads = reads-store pad rest;
    }

    abbrev sender : Scatter
    sender = Scatter.new id n (add_bytes init_value payload)

    module _ (g : Gather Instant) (m : Bool) (match : tid_match c timeout id start g ≡ some m)
        (ready : IsReady g.state m) (mtu : Mtu) (rest : List (Mtu × Instant)) where
      short_transfer :
          Single sender tx (fetch_frame_data sender tx mtu)
          → Delivers p id start payload b (exchange c timeout p tx sender g b ((mtu, start) ∷ rest))
      short_transfer s =
          let bytes : List ℕ = payload ++ replicate s.pad 0 in
          let tail : ℕ = TailByte.new true true true id in
          let done : Transfer Instant = record {
            id = id;
            priority = p;
            timestamp = start;
            len = length bytes;
          } in
          deliver (exchange c timeout p tx sender g b ((mtu, start) ∷ rest)) s.pad []
            (complete id start) s.little
            (exchange_end c timeout p tx sender s.after g b mtu start rest _ (bytes ++ (tail ∷ []))
                s.frame (deref-frame_of bytes (n + s.pad) tail (length-padded s.pad))
                (complete id start) (store b bytes) done
                (receive_single c timeout b g p id start bytes mtu small m match ready
                  (omega (arith, length-padded s.pad, s.short)))
              ∙ ap₂
                  (λ l k. some (
                    complete id start,
                    store b l,
                    some (record { id = id; priority = p; timestamp = start; len = k }),
                  ))
                  (sym (append-nil bytes)) (length-padded s.pad))

      long_transfer :
          More sender tx inside (fetch_multi sender tx (n + 2 - 0) (to_usize mtu - 1))
          → to_usize mtu - 1 < n
          → n + 1 ≤ length rest
          → InTime c timeout start rest
          → Delivers p id start payload b (exchange c timeout p tx sender g b ((mtu, start) ∷ rest))
      long_transfer f long enough times =
          let all = stream sender tx inside in
          let head = take f.room (drop 0 all) in
          let tail : ℕ = TailByte.new true false true id in
          let len_head : length head ≡ f.room =
            omega (arith, f.within, length-take f.room all, length-stream sender tx inside) in
          let sum : 0 + f.room ≡ f.room = omega arith in
          let next : Scatter = record sender { offset = f.room; toggle_bit = false } in
          let on =
            exchange_on c timeout p tx sender next g b mtu start rest _ (head ++ (tail ∷ []))
              (fetch_start sender tx mtu refl long
                ∙ f.frame
                ∙ ap
                    (λ o. some (
                      (let next : Scatter = record sender { offset = o; toggle_bit = false } in
                          next),
                      some (frame_of (f.room + 1) head tail),
                    ))
                    sum)
              (deref-frame_of head f.room tail len_head) (receiving accumulated_first id start head)
              (store b head)
              (receive_first c timeout b g p id start head mtu small m match ready
                (omega (arith, len_head, f.within)) (rw len_head f.full)) in
          let end =
            loop c timeout p tx id small n inside short start b rest false accumulated_first f.room
              tt (omega (arith, f.full)) (omega (arith, f.within)) (omega (arith, f.full)) times in
          rw on (deliver _ end.pad _ end.state end.little end.eq)

-- Under any sequence of MTUs, a transfer of `n` bytes of `tx` that `Scatter`, given the checksum
-- of these bytes, cuts into frames, and whose frames reach `Gather` in order within the timeout,
-- is delivered: it has the id, the priority and the first instant of what was sent, its length is
-- `n` and at most 15 bytes of padding, and the buffer, whose length stays, holds the payload and
-- the zeros after it as far as it reaches, the rest being dropped. Conditions: the id is at most
-- 31, `n` is at most the length of `tx`, `n + 64` is below 2^32, the comparison with the id and
-- time of the receiver's state does not fail, the receiver is not holding an assembled transfer
-- that the first frame repeats (same id, within the timeout), and there are at least `n + 2`
-- turns.
pub exchange-Delivers :
    (c : Clock) (timeout : c.Duration) (p : Priority) (tx : List ℕ) (id : TransferId) (n : ℕ)
    (start : c.Instant) (b : List ℕ) (g : Gather c.Instant) (m : Bool) (mtu : Mtu)
    (rest : List (Mtu × c.Instant))
    → id < 32
    → n ≤ length tx
    → n + 64 < 2 ^ 32
    → tid_match c timeout id start g ≡ some m
    → IsReady g.state m
    → n + 1 ≤ length rest
    → InTime c timeout start rest
    → Delivers c p id start (take n tx) b (
        exchange c timeout p tx
          (Scatter.new id n (add_bytes init_value (take n tx)))
          g
          b
          ((mtu, start) ∷ rest))
exchange-Delivers c timeout p tx id n start b g m mtu rest small inside short match ready enough
      times =
    elim (dec_le n (to_usize mtu - 1)) [
      | yes fits ↦
          short_transfer c timeout p tx id small n inside short start b g m match ready mtu rest (
            fetch_single_lem (Scatter.new id n (add_bytes init_value (take n tx))) tx mtu inside
              refl fits)
      | no long ↦
          long_transfer c timeout p tx id small n inside short start b g m match ready mtu rest
            (fetch_multi-More (Scatter.new id n (add_bytes init_value (take n tx))) tx inside mtu
              (n + 2 - 0) (omega arith) (omega arith))
            (omega arith) enough times
    ]
