-- ===== src/Buffer/Blocking/Laws.antt =====
-- emcyphal/src/buffer/tx_msg/blocking.rs: the operations on a valid `Blocking` buffer.
use emcyphal.Common.{
  ℕ, ◌≤◌, ◌≡◌, refl, ◌⊎◌, inl, inr, ◌↔◌, List, true, false, not, ◌&&◌, Option, none, some, arith,
  length, Option-cases, Bool-cases,
}
use mathlib.Core.Path.{subst}
use emcyphal.Core.PrioritySet.{PrioritySet, contains, new_eq, is_empty, intersection}
use emcyphal.Core.PrioritySet.Algebra.{
  nonempty_of_contains, contains-none, contains-new_eq, new_eq-intersection, empty_intersection,
}
use emcyphal.External.{Platform}
use emcyphal.Frame.{Frame}
use emcyphal.Frame.Mtu.{Mtu}
use emcyphal.Scatter
use emcyphal.Scatter.{fetch_frame_data, is_exhausted}
use emcyphal.Scatter.Live.{IsLive, fetch-Yields}
use emcyphal.Buffer.Types.{
  TransferMeta, ok, err, is_none, BufferError, priority_not_ready, message_address_specified,
}
use emcyphal.Buffer.Blocking.{
  TransferEntry, Inner, pop_readiness, release, frame_from, try_pop, push_readiness, get_scratchpad,
  try_push,
}

module _ (p : Platform) where
  abbrev pub EntryLive : List ℕ → Option (TransferEntry p) → Type 0
  EntryLive buffer none = Unit {0}
  EntryLive buffer (some entry) = IsLive entry.scatter buffer

  -- A transfer that is held has something left to send, and a scratchpad is handed out only while
  -- none is held.
  pub record IsValid (s : Inner p) : Type 0 where
    pub live : EntryLive s.buffer s.pending_transfer
    pub exclusive : s.scratchpad_provided ≡ true → s.pending_transfer ≡ none

  -- The priority that is ready to be popped, under a mask.
  pub masked :
      (s : Inner p) (mask : PrioritySet)
      → is_empty (intersection (pop_readiness p s) mask)
        ≡ not (contains mask s.priority && not (is_none s.pending_transfer))
  unfolding pop_readiness
  masked s mask = elim (Option-cases s.pending_transfer) [
    | inl vacant ↦ ground (arith, empty_intersection mask)
    | inr (entry, held) ↦ ground (arith, new_eq-intersection s.priority mask)
  ]

  pub live_of :
      (s : Inner p) (entry : TransferEntry p)
      → s.pending_transfer ≡ some entry
      → IsValid s
      → IsLive entry.scatter s.buffer
  live_of s entry held v = subst (EntryLive s.buffer) held v.live

  -- On a valid buffer `try_pop` does not panic and leaves it valid, with its bytes unchanged. It gives
  -- a frame, with the buffer's priority, exactly if a transfer is pending and the mask contains the
  -- priority.
  pub try_pop_blocking :
      (s : Inner p) (mask : PrioritySet) (mtu : Mtu)
      → IsValid s
      → (s' : Inner p) × (o : Option (Frame p.clock.Instant)) × (try_pop p s mask mtu
          ≡ some (s', o))
        × IsValid s'
        × ((o ≡ none) ↔ ((contains mask s.priority && not (is_none s.pending_transfer)) ≡ false))
        × ((frame : Frame p.clock.Instant) → o ≡ some frame → frame.header.priority ≡ s.priority)
        × (s'.buffer ≡ s.buffer)
  unfolding try_pop
  try_pop_blocking s mask mtu v = elim (Option-cases s.pending_transfer) [
    | inl vacant ↦ (s, none, ground (arith, masked s mask), v, ground arith, λ f e. cc, refl)
    | inr (entry, held) ↦ elim (Bool-cases (contains mask s.priority)) [
      | inr unwanted ↦ (s, none, ground (arith, masked s mask), v, ground arith, λ f e. cc, refl)
      | inl wanted ↦
          let y = fetch-Yields entry.scatter s.buffer mtu (live_of s entry held v) in
          let entry' : TransferEntry p = record entry { scatter = y.after } in
          (
            release p s entry',
            some (frame_from p s entry y.frame),
            ground (arith, masked s mask, y.eq),
            release-IsValid s entry' (λ e. cc (held, v.exclusive e)) y.next,
            ground arith,
            λ f e. ground arith,
            ground arith,
          )
    ]
  ]
    where
      release-IsValid :
          (s : Inner p) (entry : TransferEntry p)
          → (s.scratchpad_provided ≡ true → ⊥)
          → ((is_exhausted entry.scatter ≡ true)
              ⊎ ((is_exhausted entry.scatter ≡ false) × IsLive entry.scatter s.buffer))
          → IsValid (release p s entry)
      release-IsValid s entry unshared (inl done) =
          rw done (record { live = tt; exclusive = λ e. refl })
      release-IsValid s entry unshared (inr (more, live)) =
          rw more (record { live = live; exclusive = λ e. absurd (unshared e) })

  -- While a transfer is pending nothing else gets in: no scratchpad is handed out, so the client cannot
  -- reach the bytes, and a push is refused; neither changes the state.
  pub pending_blocks :
      (s : Inner p) (entry : TransferEntry p) (meta : TransferMeta p.clock.Instant) (n crc : ℕ)
      → s.pending_transfer ≡ some entry
      → (get_scratchpad p s ≡ some (s, none))
        × ((e : BufferError) × (try_push p s meta n crc ≡ some (s, err e)))
  unfolding get_scratchpad try_push push_readiness
  pending_blocks s entry meta n crc held = elim (Option-cases meta.address) [
    | inl absent ↦ (ground arith, (priority_not_ready, ground (arith, contains-none meta.priority)))
    | inr (node, given) ↦ (ground arith, (message_address_specified, ground arith))
  ]

  -- While none is pending the scratchpad can be had, and then a message with the buffer's priority, no
  -- address and a length within the buffer becomes the pending transfer, after which the buffer is
  -- valid again.
  pub push_accepted :
      (s : Inner p) (meta : TransferMeta p.clock.Instant) (n crc : ℕ)
      → s.pending_transfer ≡ none
      → meta.address ≡ none
      → meta.priority ≡ s.priority
      → n ≤ length s.buffer
      → (s' s'' : Inner p) × (get_scratchpad p s ≡ some (s', some (new_eq s.priority)))
        × (try_push p s' meta n crc ≡ some (s'', ok))
        × (s''.pending_transfer
            ≡ some (record {
              scatter = Scatter.new meta.transfer_id n crc;
              deadline = meta.timestamp;
              loop_back = meta.loop_back;
            }))
        × IsValid s''
  unfolding get_scratchpad try_push push_readiness
  push_accepted s meta n crc vacant absent same fits = (
    record s { scratchpad_provided = true },
    record s {
      scratchpad_provided = false;
      pending_transfer = some (record {
        scatter = Scatter.new meta.transfer_id n crc;
        deadline = meta.timestamp;
        loop_back = meta.loop_back;
      });
    },
    ground (arith, nonempty_of_contains (new_eq s.priority) s.priority, contains-new_eq s.priority),
    ground (arith, contains-new_eq s.priority),
    refl,
    record { live = record { inside = fits; unfinished = omega arith }; exclusive = λ e. cc },
  )
