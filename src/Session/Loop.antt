-- ===== src/Session/Loop.antt =====
-- The exchange from the second frame of a multi-frame transfer on.
use emcyphal.Common.{
  ℕ, ◌+◌, ◌-◌, ◌≤◌, ◌<◌, ◌^◌, ◌≡◌, sym, ap, ◌∙◌, ◌⊎◌, inl, inr, List, [], ◌∷◌, ◌++◌, Bool, true,
  false, not, Option, none, some, arith, ◌==◌, length, take, drop, replicate, length-take,
  length-drop, length-append, length-replicate, take-add,
}
use emcyphal.Core.Priority.{Priority}
use emcyphal.Core.Ids.TransferId.{TransferId}
use emcyphal.Format.TailByte
use emcyphal.Format.Crc.{init_value, add_bytes, to_be_bytes, TransferCrc}
use emcyphal.Format.Crc.Laws.{residue, add_bytes-lt, add_bytes-append}
use emcyphal.Frame.{Data, deref}
use emcyphal.Frame.Mtu.{Mtu, to_usize}
use emcyphal.Time.{Clock}
use emcyphal.Scatter.{Scatter, fetch_frame_data, fetch_multi}
use emcyphal.Scatter.Segments.{deref-frame_of, stream, length-stream}
use emcyphal.Scatter.Frames.{More, Last, fetch_multi_cases, fetch_middle}
use emcyphal.Gather.{Gather, State, Outcome, Transfer, push_frame}
use emcyphal.Gather.Store.{store}
use emcyphal.Gather.Receive.{
  receiving, Expects, Expects-after, after, complete, receive_more, receive_last,
}
use emcyphal.Session.{exchange, InTime}

module _ (c : Clock) where
  open c use {Instant, Duration, saturating_add, le}

  module _ (timeout : Duration) (p : Priority) (tx : List ℕ) where
    module _ (s s' : Scatter) (g : Gather Instant) (b : List ℕ) (mtu : Mtu) (now : Instant)
        (rest : List (Mtu × Instant)) (frame : Data) (bytes : List ℕ)
        (fetched : fetch_frame_data s tx mtu ≡ some (s', some frame))
        (contents : deref frame ≡ bytes) where
      -- A frame that the receiver only takes in.
      pub exchange_on :
          (g' : Gather Instant) (b' : List ℕ)
          → push_frame c timeout b g p bytes now mtu ≡ some (g', b', none)
          → exchange c timeout p tx s g b ((mtu, now) ∷ rest)
            ≡ exchange c timeout p tx s' g' b' rest
      unfolding exchange
      exchange_on g' b' pushed = rw (fetched, exchange, contents, pushed)

      -- A frame that completes a transfer.
      pub exchange_end :
          (g' : Gather Instant) (b' : List ℕ) (t : Transfer Instant)
          → push_frame c timeout b g p bytes now mtu ≡ some (g', b', some t)
          → exchange c timeout p tx s g b ((mtu, now) ∷ rest) ≡ some (g', b', some t)
      unfolding exchange
      exchange_end g' b' t pushed = rw (fetched, exchange, contents, pushed)

    module _ (id : TransferId) (small : id < 32) (n : ℕ) (inside : n ≤ length tx)
        (short : n + 64 < 2 ^ 32) (start : Instant) (b : List ℕ) where
      -- The sender of the first `n` bytes of `tx`, `o` bytes into its stream.
      abbrev at : Bool → ℕ → Scatter
      at toggle o = record {
        transfer_id = id;
        toggle_bit = toggle;
        data_length = n;
        offset = o;
        crc = add_bytes init_value (take n tx);
      }

      abbrev bytes_sent : List ℕ
      bytes_sent = stream (at true 0) tx inside

      -- The payload with its padding, as the receiver gets it.
      abbrev pub padded : ℕ → List ℕ
      padded pad = take n tx ++ replicate pad 0

      abbrev pub checksum : ℕ → List ℕ
      checksum pad = to_be_bytes (add_bytes (add_bytes init_value (take n tx)) (replicate pad 0))

      -- How a multi-frame transfer ends.
      pub record Arrives (out : Option (Outcome Instant)) : Type 0 where
        pub pad : ℕ
        pub little : pad ≤ 15
        pub state : Gather Instant
        pub eq :
            out
            ≡ some (
              state,
              store b (padded pad ++ checksum pad),
              some (record { id = id; priority = p; timestamp = start; len = n + pad }),
            )

      length-padded : (pad : ℕ) → length (padded pad) ≡ n + pad
      length-padded pad = omega (
        arith,
        length-append (take n tx) (replicate {A = ℕ} pad 0),
        length-take n tx,
        length-replicate {A = ℕ} pad 0,
      )

      -- The bytes of a whole transfer leave nothing in the receiver's CRC.
      crc_ok : (pad : ℕ) → add_bytes init_value (padded pad ++ checksum pad) ≡ 0
      crc_ok pad =
          let whole : TransferCrc = add_bytes init_value (padded pad) in
          let e : add_bytes (add_bytes init_value (take n tx)) (replicate pad 0) ≡ whole =
            sym (add_bytes-append init_value (take n tx) (replicate pad 0)) in
          rw (e, add_bytes-append init_value (padded pad) (to_be_bytes whole))
            (residue whole (add_bytes-lt init_value (padded pad) (omega arith)))

      module _ (toggle : Bool) (st : State) (o : ℕ) (h : Expects toggle st) (begun : 1 ≤ o)
          (unfinished : o < n + 2) (mtu : Mtu) (now : Instant) (rest : List (Mtu × Instant))
          (in_time : le now (saturating_add start timeout) ≡ true) where
        length-sent : length (take o bytes_sent) ≡ o
        length-sent = omega (arith, length-take o bytes_sent, length-stream (at true 0) tx inside)

        later : (o == 0) ≡ false
        later = ground arith

        step-More :
            (m : More
              (at toggle o)
              tx
              inside
              (fetch_multi (at toggle o) tx (n + 2 - o) (to_usize mtu - 1)))
            → exchange c timeout p tx
                (at toggle o)
                (receiving st id start (take o bytes_sent))
                (store b (take o bytes_sent))
                ((mtu, now) ∷ rest)
              ≡ exchange c timeout p tx
                  (at (not toggle) (o + m.room))
                  (receiving (after st) id start (take (o + m.room) bytes_sent))
                  (store b (take (o + m.room) bytes_sent))
                  rest
        step-More m =
            let payload = take m.room (drop o bytes_sent) in
            let len_payload : length payload ≡ m.room = omega (
              arith,
              m.within,
              length-take m.room (drop o bytes_sent),
              length-drop o bytes_sent,
              length-stream (at true 0) tx inside,
            ) in
            let full : (length payload ≡ 7) ⊎ (length payload ≡ 63) = rw len_payload m.full in
            exchange_on (at toggle o) (at (not toggle) (o + m.room))
              (receiving st id start (take o bytes_sent)) (store b (take o bytes_sent)) mtu now rest
              _ (payload ++ (TailByte.new (o == 0) false toggle id ∷ []))
              (fetch_middle (at toggle o) tx mtu begun unfinished ∙ m.frame)
              (deref-frame_of payload m.room (TailByte.new (o == 0) false toggle id) len_payload)
              (receiving (after st) id start (take o bytes_sent ++ payload))
              (store b (take o bytes_sent ++ payload))
              (rw later (
                receive_more c timeout b p id start now (take o bytes_sent) payload mtu small
                  in_time (omega (arith, length-sent, len_payload, m.within)) toggle st h full))
            ∙ ap
                (λ l.
                  exchange c timeout p tx (at (not toggle) (o + m.room))
                    (receiving (after st) id start l) (store b l) rest)
                (take-add o m.room bytes_sent)

        step-Last :
            (m : Last
              (at toggle o)
              tx
              inside
              (fetch_multi (at toggle o) tx (n + 2 - o) (to_usize mtu - 1)))
            → Arrives (
                exchange c timeout p tx
                  (at toggle o)
                  (receiving st id start (take o bytes_sent))
                  (store b (take o bytes_sent))
                  ((mtu, now) ∷ rest))
        step-Last m =
            let len_total : length (take o bytes_sent ++ m.payload) ≡ n + m.pad + 2 =
              ap length m.total
              ∙ length-append (padded m.pad) (checksum m.pad)
              ∙ omega (arith, length-padded m.pad) in
            record {
              pad = m.pad;
              little = m.little;
              state = complete id start;
              eq =
                  exchange_end (at toggle o) m.after (receiving st id start (take o bytes_sent))
                    (store b (take o bytes_sent)) mtu now rest _
                    (m.payload ++ (TailByte.new (o == 0) true toggle id ∷ []))
                    (fetch_middle (at toggle o) tx mtu begun unfinished ∙ m.frame)
                    (deref-frame_of m.payload m.room (TailByte.new (o == 0) true toggle id)
                      m.filled)
                    _ (store b (take o bytes_sent ++ m.payload)) _
                    (rw later (
                      receive_last c timeout b p id start now (take o bytes_sent) m.payload mtu
                        small in_time (omega (arith, length-sent, m.filled, m.short)) (n + m.pad)
                        (rw m.total (crc_ok m.pad)) len_total
                        (omega (arith, m.filled, m.some_bytes)) toggle st h))
                  ∙ ap
                      (λ l. some (
                        complete id start,
                        store b l,
                        some (record { id = id; priority = p; timestamp = start; len = n + m.pad }),
                      ))
                      m.total;
            }

      pub loop :
          (schedule : List (Mtu × Instant)) (toggle : Bool) (st : State) (o : ℕ)
          → Expects toggle st
          → 1 ≤ o
          → o < n + 2
          → n + 2 ≤ o + length schedule
          → InTime c timeout start schedule
          → Arrives (
              exchange c timeout p tx
                (at toggle o)
                (receiving st id start (take o bytes_sent))
                (store b (take o bytes_sent))
                schedule)
      loop [] toggle st o h begun unfinished enough times = absurd (omega arith)
      loop ((mtu, now) ∷ rest) toggle st o h begun unfinished enough times =
          elim (fetch_multi_cases (at toggle o) tx inside mtu (n + 2 - o) (omega arith)
            (omega arith)) [
              | inl more ↦
                  let next = step-More toggle st o h begun unfinished mtu now rest times.0 more in
                  rw next (
                    loop rest (not toggle) (after st) (o + more.room) (Expects-after toggle st h)
                      (omega arith) more.within (omega arith) times.1)
              | inr last ↦ step-Last toggle st o h begun unfinished mtu now rest times.0 last
            ]
