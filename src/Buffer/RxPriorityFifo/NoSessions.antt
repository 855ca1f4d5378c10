-- ===== src/Buffer/RxPriorityFifo/NoSessions.antt =====
-- emcyphal/src/buffer/rx_priority_fifo.rs with no session slots, which its documentation allows.
use emcyphal.Common.{
  ℕ, ◌+◌, ◌≤◌, ◌≡◌, Bool, true, false, List, none, some, length, split_last, ltb, arith,
}
use emcyphal.Core.Priority.{Priority}
use emcyphal.Core.Ids.NodeId.{NodeId}
use emcyphal.External.{Platform, IsStack}
use emcyphal.Format.TailByte
use emcyphal.Frame.{DataSpecifier}
use emcyphal.Frame.Mtu.{Mtu}
use emcyphal.Utils.IndexQueue
use emcyphal.Utils.IndexQueue.{IndexQueue}
use emcyphal.Buffer.RxPriorityFifo.{
  Inner, new, push_regular_frame, try_start_new_session, expire_oldest,
}
use emcyphal.Buffer.RxPriorityFifo.Start.{IsVacant, new-Kept}

module _ (p : Platform) (tn : ℕ) where
  open p use {clock.{Instant, Duration}}

  -- With no session slots there is no oldest session to take the place of.
  try_start-fails :
      (s : Inner p 0 tn) (source : NodeId) (timestamp : Instant)
      → IsVacant s.sessions
      → source ≤ 127
      → try_start_new_session p 0 tn s source timestamp ≡ none
  unfolding try_start_new_session expire_oldest IndexQueue.contains
  try_start-fails s source timestamp v h =
      let base : ltb s.session_buffer_base 0 ≡ false = ground arith in
      rw (
        try_start_new_session,
        IndexQueue.contains,
        v.missing source h,
        base,
        expire_oldest,
        v.no_front,
      )

  push_regular-fails :
      (s : Inner p 0 tn) (source : NodeId) (priority : Priority) (bytes payload : List ℕ) (tail : ℕ)
      (timestamp : Instant) (loop_back : Bool) (mtu : Mtu)
      → IsVacant s.sessions
      → source ≤ 127
      → split_last bytes ≡ some (tail, payload)
      → TailByte.sot tail ≡ true
      → push_regular_frame p 0 tn s source priority bytes timestamp loop_back mtu ≡ none
  unfolding push_regular_frame IndexQueue.get
  push_regular-fails s source priority bytes payload tail timestamp loop_back mtu v h split starts =
      rw (
        push_regular_frame,
        IndexQueue.get,
        split,
        starts,
        v.missing source h,
        try_start-fails s source timestamp v h,
      )

  -- A buffer that `new` gives for no sessions, at most 127 waiting transfers and the buffers of these
  -- and the reader panics on the first frame of a transfer from any node.
  pub without_sessions-panics :
      (law : IsStack p.vecs) (spec : DataSpecifier) (timeout : Duration) (buffers : List (List ℕ))
      (source : NodeId) (priority : Priority) (bytes payload : List ℕ) (tail : ℕ)
      (timestamp : Instant) (loop_back : Bool) (mtu : Mtu)
      → tn ≤ 127
      → length buffers ≡ 0 + tn + 1
      → source ≤ 127
      → split_last bytes ≡ some (tail, payload)
      → TailByte.sot tail ≡ true
      → (s : Inner p 0 tn) × (new p 0 tn spec timeout buffers ≡ some s)
        × (push_regular_frame p 0 tn s source priority bytes timestamp loop_back mtu ≡ none)
  without_sessions-panics law spec timeout buffers source priority bytes payload tail timestamp
        loop_back mtu few size h split starts =
      let (s, e, kept, vacant) = new-Kept p 0 tn law spec timeout buffers (omega arith) few size in
      (
        s,
        e,
        push_regular-fails s source priority bytes payload tail timestamp loop_back mtu vacant h
            split starts,
      )
