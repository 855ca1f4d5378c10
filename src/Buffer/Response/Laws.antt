-- ===== src/Buffer/Response/Laws.antt =====
-- emcyphal/src/buffer/tx_resp/blocking.rs: the operations on a valid buffer of responses.
use emcyphal.Common.{
  ℕ, ◌<◌, ◌≤◌, ◌≡◌, refl, sym, ap, ◌∙◌, ◌⊎◌, inl, inr, List, [], ◌∷◌, true, false, ◌&&◌, Option,
  none, some, arith, length, get_elem?, Option-cases, Bool-cases,
}
use mathlib.Core.Path.{subst}
use emcyphal.Core.Priority.{le, Priority, eq}
use emcyphal.Core.Priority.Laws.{eq_refl}
use emcyphal.Core.PrioritySet
use emcyphal.Core.PrioritySet.{PrioritySet, contains, complement, intersection}
use emcyphal.Core.PrioritySet.Laws.{first-some, first-none}
use emcyphal.Core.PrioritySet.Algebra.{
  contains-none, nonempty_of_contains, first-of_nonempty, contains-intersection, intersection-lt,
}
use emcyphal.External.{Platform, IsStack}
use emcyphal.Frame.{Frame}
use emcyphal.Frame.Mtu.{Mtu}
use emcyphal.Scatter
use emcyphal.Scatter.{fetch_frame_data, is_exhausted}
use emcyphal.Scatter.Live.{fetch-Yields}
use emcyphal.Utils.PriorityTrigger
use emcyphal.Utils.PriorityMap
use emcyphal.Utils.PriorityMap.{PriorityMap}
use emcyphal.Utils.PriorityMap.Laws.{is_some}
use emcyphal.Buffer.Ready.{Sound, fetched-Sound}
use emcyphal.Buffer.Types.{TransferMeta, ok}
use emcyphal.Buffer.Response.{
  new_eq, TransferEntry, Inner, buffer_count, release, wake_if_empty, frame_from, pop_at, try_pop,
  push_readiness, get_scratchpad, try_push,
}
use emcyphal.Buffer.Response.Slots.{
  EntryLive, IsValid, Slots-advance, Slots-eq, Slots-length, Slots-release, Slots-submit,
  Slots-take, length-held, length-held_ge, push_readiness-exact,
}

module _ (p : Platform) where
  module _ (stack : IsStack p.vecs) where
    -- A valid buffer hands out a scratchpad, in a buffer that no transfer holds, exactly if some
    -- priority has no transfer; it does not panic and keeps every transfer.
    pub get_scratchpad_response :
        (s : Inner p)
        → IsValid p s
        → ((get_scratchpad p s ≡ some (s, none))
            × ((q : Priority) → is_some (s.transfers.values q) ≡ true))
          ⊎ ((s' : Inner p) × (idx : ℕ) × (get_scratchpad p s
                ≡ some (s', some (push_readiness p s, idx)))
              × (s'.scratchpad_buffer_idx ≡ some idx)
              × (s'.transfers ≡ s.transfers)
              × (s'.buffers ≡ s.buffers)
              × IsValid p s')
    unfolding get_scratchpad
    get_scratchpad_response s v = elim (Bool-cases (PrioritySet.is_empty (push_readiness p s))) [
      | inl full ↦ inl (
        ground arith,
        λ q. ground (
          arith,
          push_readiness-exact p s.transfers q v.map,
          nonempty_of_contains (push_readiness p s) q,
        ),
      )
      | inr free ↦ elim (Option-cases s.scratchpad_buffer_idx) [
        | inr (idx, e) ↦ inr (s, idx, ground arith, e, refl, refl, v)
        | inl e ↦
            let before = Slots-eq p s.buffers refl e refl v in
            let (q, found) = first-of_nonempty (push_readiness p s) (omega arith) free in
            let open_slot : s.transfers.values q ≡ none = ground (
              arith,
              (first-some (push_readiness p s) q q (omega arith) found).0,
              push_readiness-exact p s.transfers q v.map,
            ) in
            let (idx, rest, c) = nonempty (p.vecs.contents buffer_count s.free_buffer_idx) (
              ground (
                arith,
                Slots-length p s.buffers s.transfers none
                    (p.vecs.contents buffer_count s.free_buffer_idx) before,
                length-held p s.transfers.values q,
              )) in
            let (left, popped, now) = stack.pop_cons buffer_count s.free_buffer_idx idx rest c in
            inr (
              record s { scratchpad_buffer_idx = some idx; free_buffer_idx = left },
              idx,
              ground arith,
              refl,
              refl,
              refl,
              Slots-take p s.buffers s.transfers idx _
                  (Slots-eq p s.buffers refl refl (c ∙ ap (λ l. idx ∷ l) (sym now)) before),
            )
      ]
    ]
      where
        nonempty : (l : List ℕ) → 1 ≤ length l → (x : ℕ) × (xs : List ℕ) × (l ≡ x ∷ xs)
        nonempty [] h = absurd (omega arith)
        nonempty (x ∷ xs) h = (x, xs, refl)

    -- A response with an address, to a priority without a transfer, is accepted when there is a
    -- scratchpad and it fits it: it becomes the transfer of its priority, and no other one changes.
    pub try_push_response :
        (s : Inner p) (meta : TransferMeta p.clock.Instant) (n crc idx address : ℕ)
        (buffer : List ℕ)
        → IsValid p s
        → meta.address ≡ some address
        → s.transfers.values meta.priority ≡ none
        → s.scratchpad_buffer_idx ≡ some idx
        → get_elem? s.buffers idx ≡ some buffer
        → n ≤ length buffer
        → (s' : Inner p) × (try_push p s meta n crc ≡ some (s', ok))
          × (s'.transfers.values meta.priority
              ≡ some (record {
                address = address;
                scatter = Scatter.new meta.transfer_id n crc;
                deadline = meta.timestamp;
                loop_back = meta.loop_back;
                buffer_idx = idx;
              }))
          × ((q : Priority)
              → eq meta.priority q ≡ false
              → s'.transfers.values q ≡ s.transfers.values q)
          × (s'.buffers ≡ s.buffers)
          × IsValid p s'
    unfolding try_push PriorityMap.insert
    try_push_response s meta n crc idx address buffer v given vacant e found fits = (
      record s {
        transfers = (PriorityMap.insert s.transfers meta.priority entry).0;
        scratchpad_buffer_idx = none;
      },
      ground (arith, push_readiness-exact p s.transfers meta.priority v.map),
      rw (eq_refl meta.priority),
      λ q other. rw other,
      refl,
      Slots-submit p s.buffers s.transfers meta.priority entry _ vacant
          (buffer, found, record { inside = fits; unfinished = omega arith })
          (Slots-eq p s.buffers refl e refl v),
    )
      where
        entry : TransferEntry p
        entry = record {
          address = address;
          scatter = Scatter.new meta.transfer_id n crc;
          deadline = meta.timestamp;
          loop_back = meta.loop_back;
          buffer_idx = idx;
        }

    pub record Pops (s : Inner p) (q : Priority) (mtu : Mtu) : Type 0 where
      pub after : Inner p
      pub frame : Frame p.clock.Instant
      pub eq : pop_at p s q mtu ≡ some (after, some frame)
      pub valid : IsValid p after
      pub header : frame.header.priority ≡ q
      pub same_scratchpad : after.scratchpad_buffer_idx ≡ s.scratchpad_buffer_idx
      pub same_buffers : after.buffers ≡ s.buffers
      pub sound : Sound mtu frame

    wake_same :
        (s : Inner p)
        → ((wake_if_empty p s).transfers ≡ s.transfers)
          × ((wake_if_empty p s).scratchpad_buffer_idx ≡ s.scratchpad_buffer_idx)
          × ((wake_if_empty p s).buffers ≡ s.buffers)
          × ((wake_if_empty p s).free_buffer_idx ≡ s.free_buffer_idx)
    wake_same s = ground arith

    wake-IsValid : (s : Inner p) → IsValid p s → IsValid p (wake_if_empty p s)
    wake-IsValid s v = let w = wake_same s in rw (w.0, w.1, w.2, w.3) v

    pub pop_at-Pops :
        (s : Inner p) (q : Priority) (entry : TransferEntry p) (mtu : Mtu)
        → s.transfers.values q ≡ some entry
        → IsValid p s
        → Pops s q mtu
    unfolding pop_at release
    pop_at-Pops s q entry mtu e v =
        let (buffer, found, live) = subst (EntryLive p s.buffers) e (v.live q) in
        let y = fetch-Yields entry.scatter buffer mtu live in
        elim y.next [
          | inl done ↦
              let total = Slots-length p s.buffers s.transfers s.scratchpad_buffer_idx _ v in
              let mine = length-held_ge p s.transfers.values q in
              let (free, pushed, now) =
                stack.push_room buffer_count s.free_buffer_idx entry.buffer_idx (ground arith) in
              let ended : Inner p = record s {
                free_buffer_idx = free;
                transfers = (PriorityMap.remove s.transfers q).0;
                non_full_trigger = PriorityTrigger.wake p.wakers s.non_full_trigger (new_eq q);
              } in
              record {
                after = wake_if_empty p ended;
                frame = frame_from p s q entry y.frame;
                eq = ground (arith, y.eq);
                valid = wake-IsValid ended (
                    Slots-eq p s.buffers refl refl (sym now) (
                      Slots-release p s.buffers s.transfers q entry s.scratchpad_buffer_idx _ e v));
                header = refl;
                same_scratchpad = (wake_same ended).1;
                same_buffers = (wake_same ended).2;
                sound =
                    fetched-Sound entry.scatter buffer mtu (frame_from p s q entry y.frame) y refl;
              }
          | inr (more, again) ↦
              let entry' : TransferEntry p = record entry { scatter = y.after } in
              let on : Inner p = record s { transfers = PriorityMap.assign s.transfers q entry' } in
              record {
                after = wake_if_empty p on;
                frame = frame_from p s q entry y.frame;
                eq = ground (arith, y.eq);
                valid = wake-IsValid on (
                    Slots-advance p s.buffers s.transfers q entry entry' s.scratchpad_buffer_idx _ e
                      refl (buffer, found, again) v);
                header = refl;
                same_scratchpad = (wake_same on).1;
                same_buffers = (wake_same on).2;
                sound =
                    fetched-Sound entry.scatter buffer mtu (frame_from p s q entry y.frame) y refl;
              }
        ]

    -- On a valid buffer `try_pop` does not panic and leaves it valid, its bytes and its scratchpad
    -- unchanged. Where no priority of the mask has a transfer it gives nothing and changes nothing;
    -- otherwise it gives a frame of the most urgent such priority.
    pub try_pop_response :
        (s : Inner p) (mask : PrioritySet) (mtu : Mtu)
        → IsValid p s
        → ((try_pop p s mask mtu ≡ some (s, none))
            × ((q : Priority) → (contains mask q && is_some (s.transfers.values q)) ≡ false))
          ⊎ ((s' : Inner p) × (frame : Frame p.clock.Instant) × (try_pop p s mask mtu
                ≡ some (s', some frame))
              × ((contains mask frame.header.priority
                    && is_some (s.transfers.values frame.header.priority))
                  ≡ true)
              × ((q : Priority)
                  → (contains mask q && is_some (s.transfers.values q)) ≡ true
                  → le frame.header.priority q ≡ true)
              × (s'.scratchpad_buffer_idx ≡ s.scratchpad_buffer_idx)
              × (s'.buffers ≡ s.buffers)
              × IsValid p s')
    unfolding try_pop
    try_pop_response s mask mtu v = elim (Option-cases (PrioritySet.first wanted)) [
      | inl nothing ↦ inl (
        ground arith,
        λ q. ground (arith, member q, contains-none q, first-none wanted small nothing),
      )
      | inr (q, found) ↦
          let here = (first-some wanted q q small found).0 in
          let (entry, e) = some_of (s.transfers.values q) (ground (arith, member q)) in
          let r = pop_at-Pops s q entry mtu e v in
          inr (
            r.after,
            r.frame,
            ground (arith, r.eq),
            rw r.header (sym (member q) ∙ here),
            λ q' h. rw r.header ((first-some wanted q q' small found).1 (member q' ∙ h)),
            r.same_scratchpad,
            r.same_buffers,
            r.valid,
          )
    ]
      where
        wanted : PrioritySet
        wanted = intersection (PriorityMap.keys s.transfers) mask

        small : wanted < 256
        small = intersection-lt s.transfers.key_set mask v.map.small

        member :
            (q : Priority) → contains wanted q ≡ (contains mask q && is_some (s.transfers.values q))
        member q = ground (arith, contains-intersection s.transfers.key_set mask q, v.map.exact q)

        some_of :
            (o : Option (TransferEntry p)) → is_some o ≡ true → (e : TransferEntry p) × (o ≡ some e)
        some_of none h = cc
        some_of (some e) h = (e, refl)
