-- ===== src/Buffer/Signal/Reach.antt =====
-- Every sequence of calls on a `Signal`, with its client writing to the scratchpad in between.
use emcyphal.Common.{
  ℕ, ◌≤◌, ◌≡◌, ◌≢◌, refl, sym, ap, ◌∙◌, inl, inr, List, [], ◌∷◌, Option, none, some, arith, length,
  get_elem?, set, length-set, get_elem?-set_ne, Option-cases, Bool-cases, some_unique,
}
use mathlib.Core.Path.{subst}
use emcyphal.Core.Priority.{Priority}
use emcyphal.Core.PrioritySet.{PrioritySet, contains, new_eq}
use emcyphal.Core.Ids.SubjectId.{SubjectId}
use emcyphal.External.{Platform, IsStack}
use emcyphal.Format.Crc.{TransferCrc}
use emcyphal.Frame.{Frame}
use emcyphal.Frame.Mtu.{Mtu}
use emcyphal.Buffer.Types.{
  TransferMeta, Pushed, ok, err, message_address_specified, priority_not_ready,
  scratchpad_not_initialized,
}
use emcyphal.Buffer.Signal.{
  TransferEntry, Inner, new, try_pop, get_scratchpad, try_push, buffer_count,
}
use emcyphal.Buffer.Signal.Slots.{IsValid, EntryLive, Slots-apart, Slots-eq, Slots-scratchpad}
use emcyphal.Buffer.Signal.Laws.{get_scratchpad-IsValid, try_push-IsValid, try_pop-IsValid}

module _ (p : Platform) where
  -- A client asks for the scratchpad, fills the slice, pushes a message of at most its length, and
  -- the node pops frames.
  pub data Step (s : Inner p) : Inner p → Type 0 where
    scratchpad :
        {s' : Inner p} {mask : PrioritySet} {idx : ℕ}
        → get_scratchpad p s ≡ some (s', mask, idx)
        → Step s s'
    fill :
        {idx : ℕ} {old : List ℕ} (bytes : List ℕ)
        → s.scratchpad_buffer_idx ≡ some idx
        → get_elem? s.buffers idx ≡ some old
        → length bytes ≡ length old
        → Step s (record s { buffers = set s.buffers idx bytes })
    push :
        {s' : Inner p} {r : Pushed} (meta : TransferMeta p.clock.Instant) (n : ℕ)
        (crc : TransferCrc)
        → ((idx : ℕ) (buffer : List ℕ)
            → s.scratchpad_buffer_idx ≡ some idx
            → get_elem? s.buffers idx ≡ some buffer
            → n ≤ length buffer)
        → try_push p s meta n crc ≡ some (s', r)
        → Step s s'
    pop :
        {s' : Inner p} {o : Option (Frame p.clock.Instant)} (mask : PrioritySet) (mtu : Mtu)
        → try_pop p s mask mtu ≡ some (s', o)
        → Step s s'

  pub data Reach (s : Inner p) : Inner p → Type 0 where
    here : Reach s s
    next : {t u : Inner p} → Reach s t → Step t u → Reach s u

  -- A write to one buffer leaves a transfer in another as it was.
  EntryLive-set :
      (buffers : List (List ℕ)) (idx : ℕ) (bytes : List ℕ) (o : Option (TransferEntry p))
      → ((entry : TransferEntry p) → o ≡ some entry → entry.buffer_idx ≢ idx)
      → EntryLive p buffers o
      → EntryLive p (set buffers idx bytes) o
  EntryLive-set buffers idx bytes none apart live = tt
  EntryLive-set buffers idx bytes (some entry) apart (buffer, found, live) = (
    buffer,
    get_elem?-set_ne buffers idx entry.buffer_idx bytes (λ e. apart entry refl (sym e)) ∙ found,
    live,
  )

  fill-IsValid :
      (s : Inner p) (idx : ℕ) (bytes : List ℕ)
      → s.scratchpad_buffer_idx ≡ some idx
      → IsValid p s
      → IsValid p (record s { buffers = set s.buffers idx bytes })
  fill-IsValid s idx bytes e v =
      let apart =
        Slots-apart p s.buffers s.fragmented_transfer s.pending_transfer idx _
          (Slots-eq p s.buffers refl refl e refl v) in
      record {
        two = length-set s.buffers idx bytes ∙ v.two;
        holders = v.holders;
        fragmented_live =
            EntryLive-set s.buffers idx bytes s.fragmented_transfer apart.0 v.fragmented_live;
        next_live = EntryLive-set s.buffers idx bytes s.pending_transfer apart.1 v.next_live;
      }

  module _ (stack : IsStack p.vecs) where
    -- A push of a message that fits the scratchpad does not panic, refused or not.
    try_push_total :
        (s : Inner p) (meta : TransferMeta p.clock.Instant) (n crc : ℕ)
        → IsValid p s
        → ((idx : ℕ) (buffer : List ℕ)
            → s.scratchpad_buffer_idx ≡ some idx
            → get_elem? s.buffers idx ≡ some buffer
            → n ≤ length buffer)
        → (s' : Inner p) × (r : Pushed) × (try_push p s meta n crc ≡ some (s', r)) × IsValid p s'
    unfolding try_push
    try_push_total s meta n crc v fits = elim (Option-cases meta.address) [
      | inr (address, given) ↦ (s, err message_address_specified, rw (given, try_push), v)
      | inl absent ↦ elim (Bool-cases (contains (new_eq s.priority) meta.priority)) [
        | inr other ↦ (s, err priority_not_ready, rw (absent, try_push, other), v)
        | inl same ↦ elim (Option-cases s.scratchpad_buffer_idx) [
          | inl missing ↦ (s, err scratchpad_not_initialized, ground arith, v)
          | inr (idx, e) ↦
              let (buffer, found) =
                Slots-scratchpad p s.buffers s.fragmented_transfer s.pending_transfer idx _
                  (Slots-eq p s.buffers refl refl e refl v) in
              let r =
                try_push-IsValid p stack s meta n crc idx buffer v absent same e found
                  (fits idx buffer e found) in
              (r.0, ok, r.1, r.5)
        ]
      ]
    ]

    Step-IsValid : {s t : Inner p} → Step s t → IsValid p s → IsValid p t
    Step-IsValid {s} (scratchpad e) v =
        let r = get_scratchpad-IsValid p stack s v in
        subst (IsValid p) (ap (λ t. t.0) (some_unique r.2 e)) r.6
    Step-IsValid {s} (fill bytes e found same) v = fill-IsValid s _ bytes e v
    Step-IsValid {s} (push meta n crc fits e) v =
        let r = try_push_total s meta n crc v fits in
        subst (IsValid p) (ap (λ t. t.0) (some_unique r.2 e)) r.3
    Step-IsValid {s} (pop mask mtu e) v =
        let r = try_pop-IsValid p stack s mask mtu v in
        subst (IsValid p) (ap (λ t. t.0) (some_unique r.2 e)) r.3

    -- A buffer made over two data type buffers is valid and empty.
    new-IsValid :
        (subject : SubjectId) (priority : Priority) (buffers : List (List ℕ))
        → length buffers ≡ buffer_count
        → (s : Inner p) × (new p subject priority buffers ≡ some s) × IsValid p s
    unfolding new
    new-IsValid subject priority buffers two =
        let (free, collected, order) = stack.collect_lem 2 (0 ∷ 1 ∷ []) (omega arith) in
        (
          record {
            subject = subject;
            buffers = buffers;
            priority = priority;
            pending_transfer = none;
            fragmented_transfer = none;
            scratchpad_buffer_idx = none;
            free_buffer_indexes = free;
            empty_waker = p.wakers.new;
          },
          rw (collected, new),
          record {
            two = two;
            holders = λ k. rw order (ground arith);
            fragmented_live = tt;
            next_live = tt;
          },
        )

    Reach-IsValid : {s t : Inner p} → Reach s t → IsValid p s → IsValid p t
    Reach-IsValid here v = v
    Reach-IsValid (next r st) v = Step-IsValid st (Reach-IsValid r v)

    -- In every state that calls and writes to the scratchpad lead to, starting from a new buffer,
    -- no operation panics: the scratchpad can be had, frames can be popped with any mask and MTU, and
    -- a message of at most the scratchpad's length can be pushed, refused or not.
    pub Reach_safe :
        (subject : SubjectId) (priority : Priority) (buffers : List (List ℕ)) (s t : Inner p)
        → length buffers ≡ buffer_count
        → new p subject priority buffers ≡ some s
        → Reach s t
        → (get_scratchpad p t ≢ none)
          × ((mask : PrioritySet) (mtu : Mtu) → try_pop p t mask mtu ≢ none)
          × ((meta : TransferMeta p.clock.Instant) (n crc : ℕ)
              → ((idx : ℕ) (buffer : List ℕ)
                  → t.scratchpad_buffer_idx ≡ some idx
                  → get_elem? t.buffers idx ≡ some buffer
                  → n ≤ length buffer)
              → try_push p t meta n crc ≢ none)
    Reach_safe subject priority buffers s t two made reached =
        let n = new-IsValid subject priority buffers two in
        let v = Reach-IsValid reached (subst (IsValid p) (some_unique n.1 made) n.2) in
        (
          λ e. cc (e, (get_scratchpad-IsValid p stack t v).2),
          λ mask mtu e. cc (e, (try_pop-IsValid p stack t mask mtu v).2),
          λ meta m crc fits e. cc (e, (try_push_total t meta m crc v fits).2),
        )
