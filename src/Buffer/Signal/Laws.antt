-- ===== src/Buffer/Signal/Laws.antt =====
-- emcyphal/src/buffer/tx_msg/signal.rs: the operations on a valid `Signal`.
use emcyphal.Common.{
  ℕ, suc, ◌+◌, ◌<◌, ◌≤◌, ◌≡◌, ◌≢◌, ◌↔◌, refl, sym, ap, ◌∙◌, ◌⊎◌, inl, inr, List, [], ◌∷◌, ◌++◌,
  Bool, true, false, not, ◌&&◌, Option, none, some, arith, length, length-append, get_elem?,
  get_elem?_total, Option-cases, List-cases, Bool-cases, if◌then◌else◌, ltb, ◌==◌,
}
use emcyphal.Core.PrioritySet.{PrioritySet, contains, new_eq}
use emcyphal.External.{Platform, IsStack}
use emcyphal.Frame.{Frame}
use emcyphal.Frame.Mtu.{Mtu}
use emcyphal.Scatter
use emcyphal.Scatter.{Scatter, fetch_frame_data, is_exhausted}
use emcyphal.Scatter.Live.{fetch-Yields}
use emcyphal.Buffer.Ready.{Sound, fetched-Sound}
use emcyphal.Buffer.Types.{TransferMeta, ok}
use emcyphal.Buffer.Signal.{
  TransferEntry, Inner, pop_entry, try_pop, get_scratchpad, try_push, wake_if_empty, frame_from,
  buffer_count, is_empty,
}
use emcyphal.Buffer.Signal.Slots.{
  EntryLive, IsValid, Slots-advance, Slots-eq, Slots-pending, Slots-promote, Slots-release,
  Slots-replace, Slots-room, Slots-steal, Slots-submit, Slots-take,
}

module _ (p : Platform) where
  module _ (stack : IsStack p.vecs) where
    -- A valid buffer always has a scratchpad to hand out, in a buffer that no transfer holds, and
    -- leaves the transfer that is being sent as it is.
    pub get_scratchpad-IsValid :
        (s : Inner p)
        → IsValid p s
        → (s' : Inner p) × (idx : ℕ) × (get_scratchpad p s ≡ some (s', new_eq s.priority, idx))
          × (s'.scratchpad_buffer_idx ≡ some idx)
          × (s'.fragmented_transfer ≡ s.fragmented_transfer)
          × (s'.buffers ≡ s.buffers)
          × IsValid p s'
    unfolding get_scratchpad
    get_scratchpad-IsValid s v = elim (Option-cases s.scratchpad_buffer_idx) [
      | inr (idx, e) ↦ (s, idx, ground arith, e, refl, refl, v)
      | inl e ↦ elim (List-cases (p.vecs.contents buffer_count s.free_buffer_indexes)) [
        | inr (idx, rest, c) ↦
            let (free, popped, left) =
              stack.pop_cons buffer_count s.free_buffer_indexes idx rest c in
            (
              record s { scratchpad_buffer_idx = some idx; free_buffer_indexes = free },
              idx,
              ground arith,
              refl,
              refl,
              refl,
              Slots-take p s.buffers s.fragmented_transfer s.pending_transfer idx _
                  (Slots-eq p s.buffers refl refl e (c ∙ ap (λ l. idx ∷ l) (sym left)) v),
            )
        | inl empty ↦
            let without = Slots-eq p s.buffers refl refl e empty v in
            let (entry, held) =
              Slots-pending p s.buffers s.fragmented_transfer s.pending_transfer without in
            let exhausted = stack.pop_nil buffer_count s.free_buffer_indexes empty in
            (
              record s { scratchpad_buffer_idx = some entry.buffer_idx; pending_transfer = none },
              entry.buffer_idx,
              ground arith,
              refl,
              refl,
              refl,
              Slots-steal p s.buffers s.fragmented_transfer entry _
                  (Slots-eq p s.buffers refl held e refl v),
            )
      ]
    ]

    -- A message with the buffer's priority and no address is accepted when there is a scratchpad: it
    -- becomes the pending transfer, in the place of any other, and the transfer that is being sent
    -- stays as it is. Its length is at most that of the buffer.
    pub try_push-IsValid :
        (s : Inner p) (meta : TransferMeta p.clock.Instant) (length crc idx : ℕ) (buffer : List ℕ)
        → IsValid p s
        → meta.address ≡ none
        → contains (new_eq s.priority) meta.priority ≡ true
        → s.scratchpad_buffer_idx ≡ some idx
        → get_elem? s.buffers idx ≡ some buffer
        → length ≤ emcyphal.Common.length buffer
        → (s' : Inner p) × (try_push p s meta length crc ≡ some (s', ok))
          × (s'.pending_transfer
              ≡ some (record {
                buffer_idx = idx;
                scatter = Scatter.new meta.transfer_id length crc;
                timestamp = meta.timestamp;
                loop_back = meta.loop_back;
              }))
          × (s'.fragmented_transfer ≡ s.fragmented_transfer)
          × (s'.buffers ≡ s.buffers)
          × IsValid p s'
    unfolding try_push
    try_push-IsValid s meta n crc idx buffer v address priority e found fits =
        elim (Option-cases s.pending_transfer) [
          | inl vacant ↦ (
            record s { pending_transfer = some entry; scratchpad_buffer_idx = none },
            ground arith,
            refl,
            refl,
            refl,
            Slots-submit p s.buffers s.fragmented_transfer entry _ live
                (Slots-eq p s.buffers refl vacant e refl v),
          )
          | inr (prev, held) ↦
              let before = Slots-eq p s.buffers refl held e refl v in
              let room =
                Slots-room p s.buffers s.fragmented_transfer (some prev) (some idx) _ before in
              let (free, pushed, now) =
                stack.push_room buffer_count s.free_buffer_indexes prev.buffer_idx (omega arith) in
              (
                record s {
                  pending_transfer = some entry;
                  scratchpad_buffer_idx = none;
                  free_buffer_indexes = free;
                },
                ground arith,
                refl,
                refl,
                refl,
                Slots-eq p s.buffers refl refl refl (sym now)
                    (Slots-replace p s.buffers s.fragmented_transfer prev entry _ live before),
              )
        ]
      where
        entry : TransferEntry p
        entry = record {
          buffer_idx = idx;
          scatter = Scatter.new meta.transfer_id n crc;
          timestamp = meta.timestamp;
          loop_back = meta.loop_back;
        }

        live : EntryLive p s.buffers (some entry)
        live = (buffer, found, record { inside = fits; unfinished = omega arith })

    wake_same :
        (s : Inner p)
        → ((wake_if_empty p s).fragmented_transfer ≡ s.fragmented_transfer)
          × ((wake_if_empty p s).pending_transfer ≡ s.pending_transfer)
          × ((wake_if_empty p s).scratchpad_buffer_idx ≡ s.scratchpad_buffer_idx)
          × ((wake_if_empty p s).buffers ≡ s.buffers)
          × ((wake_if_empty p s).free_buffer_indexes ≡ s.free_buffer_indexes)
    wake_same s = ground arith

    wake-IsValid : (s : Inner p) → IsValid p s → IsValid p (wake_if_empty p s)
    wake-IsValid s v = let w = wake_same s in rw (w.0, w.1, w.2, w.3, w.4) v

    -- The step of `try_pop` on the transfer that is being sent.
    pub record Pops (s : Inner p) (entry : TransferEntry p) (mtu : Mtu) : Type 0 where
      pub after : Inner p
      pub frame : Frame p.clock.Instant
      pub eq : pop_entry p s entry mtu ≡ some (after, some frame)
      pub valid : IsValid p after
      pub header : frame.header.priority ≡ s.priority
      pub same_next : after.pending_transfer ≡ s.pending_transfer
      pub same_scratchpad : after.scratchpad_buffer_idx ≡ s.scratchpad_buffer_idx
      pub same_buffers : after.buffers ≡ s.buffers
      pub sound : Sound mtu frame

    pub pop_entry-Pops :
        (s : Inner p) (entry : TransferEntry p) (mtu : Mtu)
        → s.fragmented_transfer ≡ some entry
        → IsValid p s
        → Pops s entry mtu
    unfolding pop_entry
    pop_entry-Pops s entry mtu held v =
        let before = Slots-eq p s.buffers held refl refl refl v in
        let (buffer, found, live) = before.fragmented_live in
        let y = fetch-Yields entry.scatter buffer mtu live in
        elim y.next [
          | inl done ↦
              let room = Slots-room p s.buffers (some entry) s.pending_transfer _ _ before in
              let (free, pushed, now) =
                stack.push_room buffer_count s.free_buffer_indexes entry.buffer_idx (omega arith) in
              let ended : Inner p = record s {
                fragmented_transfer = none;
                free_buffer_indexes = free;
              } in
              record {
                after = wake_if_empty p ended;
                frame = frame_from p s entry y.frame;
                eq = rw (found, pop_entry, y.eq, done, pushed);
                valid = wake-IsValid ended (
                    Slots-eq p s.buffers refl refl refl (sym now) (
                      Slots-release p s.buffers entry s.pending_transfer s.scratchpad_buffer_idx _
                        before));
                header = refl;
                same_next = (wake_same ended).1;
                same_scratchpad = (wake_same ended).2;
                same_buffers = (wake_same ended).3;
                sound =
                    fetched-Sound entry.scatter buffer mtu (frame_from p s entry y.frame) y refl;
              }
          | inr (more, again) ↦
              let entry' : TransferEntry p = record entry { scatter = y.after } in
              let on : Inner p = record s { fragmented_transfer = some entry' } in
              record {
                after = wake_if_empty p on;
                frame = frame_from p s entry y.frame;
                eq = rw (found, pop_entry, y.eq, more);
                valid = wake-IsValid on (
                    Slots-advance p s.buffers entry entry' s.pending_transfer
                      s.scratchpad_buffer_idx _ refl (buffer, found, again) before);
                header = refl;
                same_next = (wake_same on).1;
                same_scratchpad = (wake_same on).2;
                same_buffers = (wake_same on).3;
                sound =
                    fetched-Sound entry.scatter buffer mtu (frame_from p s entry y.frame) y refl;
              }
        ]

    -- Whether or not there is something to send, `try_pop` on a valid buffer does not panic and leaves
    -- it valid; it gives a frame, of the buffer's priority, exactly if the mask contains the priority
    -- and the buffer is not empty; and it changes neither the bytes nor the scratchpad.
    pub try_pop-IsValid :
        (s : Inner p) (mask : PrioritySet) (mtu : Mtu)
        → IsValid p s
        → (s' : Inner p) × (o : Option (Frame p.clock.Instant)) × (try_pop p s mask mtu
            ≡ some (s', o))
          × IsValid p s'
          × ((o ≡ none) ↔ ((contains mask s.priority && not (is_empty p s)) ≡ false))
          × ((frame : Frame p.clock.Instant) → o ≡ some frame → frame.header.priority ≡ s.priority)
          × (s'.scratchpad_buffer_idx ≡ s.scratchpad_buffer_idx)
          × (s'.buffers ≡ s.buffers)
    unfolding try_pop
    try_pop-IsValid s mask mtu v = elim (Bool-cases (contains mask s.priority)) [
      | inl wanted ↦ elim (Option-cases s.fragmented_transfer) [
        | inr (entry, held) ↦
            let r = pop_entry-Pops s entry mtu held v in
            (
              r.after,
              some r.frame,
              ground (arith, r.eq),
              r.valid,
              ground arith,
              λ f e. ground (arith, r.header),
              r.same_scratchpad,
              r.same_buffers,
            )
        | inl vacant ↦
            let p' =
              Slots-promote p s.buffers s.pending_transfer _ _
                (Slots-eq p s.buffers vacant refl refl refl v) in
            elim (Option-cases s.pending_transfer) [
              | inr (entry, held) ↦
                  let s1 : Inner p = record s {
                    fragmented_transfer = s.pending_transfer;
                    pending_transfer = none;
                  } in
                  let r = pop_entry-Pops s1 entry mtu held p' in
                  (
                    r.after,
                    some r.frame,
                    ground (arith, r.eq),
                    r.valid,
                    ground arith,
                    λ f e. ground (arith, r.header),
                    r.same_scratchpad,
                    r.same_buffers,
                  )
              | inl empty ↦ (s, none, ground arith, v, ground arith, λ f e. cc, refl, refl)
            ]
      ]
      | inr masked ↦ (s, none, ground arith, v, ground arith, λ f e. cc, refl, refl)
    ]
