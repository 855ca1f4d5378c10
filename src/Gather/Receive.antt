-- ===== src/Gather/Receive.antt =====
-- What a receiver in the middle of a transfer does with the next frame of that transfer.
use emcyphal.Common.{
  ℕ, ◌+◌, ◌-◌, ◌≤◌, ◌<◌, ◌^◌, ◌≡◌, ◌∙◌, ◌⊎◌, List, [], ◌∷◌, ◌++◌, Bool, true, false, not, none,
  some, arith, ◌==◌, ==_refl, length, split_last-snoc, le→leb,
}
use emcyphal.Core.Priority.{Priority}
use emcyphal.Core.Ids.TransferId.{TransferId}
use emcyphal.Format.TailByte
use emcyphal.Format.TailByte.{TailByte}
use emcyphal.Format.TailByte.Laws.{new_fields}
use emcyphal.Format.Crc.{init_value, add_bytes}
use emcyphal.Frame.Mtu.{Mtu}
use emcyphal.Time.{Clock}
use emcyphal.Gather.{
  Gather, Segment, Transfer, State, idle, idle_last_transfer, accumulated_first, accumulated_odd,
  accumulated_even, assembled, push_frame, push_decoded, tid_match, dispatch, perform, accumulate,
  accumulate_odd, accumulate_even, finish_assembly, try_get, xor_bool, is_full, empty_acc,
}
use emcyphal.Gather.Store.{store, acc_of, append-store}

-- The receiver that has taken in the payload bytes `sent` of transfer `id`, which started at `t`.
abbrev pub receiving : {I : Type 0} → State → TransferId → I → List ℕ → Gather I
receiving st id t sent = record {
  state = st;
  sof_timestamp = some t;
  transfer_id = some id;
  acc = acc_of sent;
}

-- The toggle bit that the next frame has in a state, and the state after it.
abbrev pub Expects : Bool → State → Type 0
Expects false accumulated_first = Unit {0}
Expects true accumulated_odd = Unit {0}
Expects false accumulated_even = Unit {0}
Expects _ _ = ⊥

abbrev pub after : State → State
after accumulated_odd = accumulated_even
after _ = accumulated_odd

pub Expects-after :
    (toggle : Bool) (st : State) → Expects toggle st → Expects (not toggle) (after st)
Expects-after false accumulated_first h = tt
Expects-after true accumulated_odd h = tt
Expects-after false accumulated_even h = tt
Expects-after false idle h = absurd h
Expects-after false idle_last_transfer h = absurd h
Expects-after false accumulated_odd h = absurd h
Expects-after false assembled h = absurd h
Expects-after true idle h = absurd h
Expects-after true idle_last_transfer h = absurd h
Expects-after true accumulated_first h = absurd h
Expects-after true accumulated_even h = absurd h
Expects-after true assembled h = absurd h

-- The receiver once transfer `id` is complete.
abbrev pub complete : {I : Type 0} → TransferId → I → Gather I
complete id t = record {
  state = assembled;
  sof_timestamp = some t;
  transfer_id = some id;
  acc = empty_acc;
}

pub full_lem :
    {I : Type 0} (seg : Segment I)
    → (length seg.payload ≡ 7) ⊎ (length seg.payload ≡ 63)
    → is_full seg ≡ true
unfolding is_full
full_lem seg h = ground arith

module _ (c : Clock) where
  open c use {Instant, Duration, saturating_add, le}

  decoded :
      (timeout : Duration) (b : List ℕ) (g : Gather Instant) (p : Priority) (s e toggle : Bool)
      (id : TransferId) (payload : List ℕ) (now : Instant) (m : Bool)
      → tid_match c timeout id now g ≡ some m
      → push_decoded c timeout b g p s e toggle id payload now
        ≡ perform
            (dispatch g.state s e (xor_bool toggle true) m)
            g
            b
            (record { transfer_id = id; priority = p; payload = payload; timestamp = now })
  unfolding push_decoded
  decoded timeout b g p s e toggle id payload now m match = rw (match, push_decoded)

  -- The tail byte leads to the method that `dispatch` names.
  pub push-tail :
      (timeout : Duration) (b : List ℕ) (g : Gather Instant) (p : Priority) (s e toggle : Bool)
      (id : TransferId) (payload : List ℕ) (now : Instant) (mtu : Mtu) (m : Bool)
      → id < 32
      → tid_match c timeout id now g ≡ some m
      → push_frame c timeout b g p (payload ++ (TailByte.new s e toggle id ∷ [])) now mtu
        ≡ perform
            (dispatch g.state s e (xor_bool toggle true) m)
            g
            b
            (record { transfer_id = id; priority = p; payload = payload; timestamp = now })
  unfolding push_frame
  push-tail timeout b g p s e toggle id payload now mtu m h match =
      let (fs, fe, fg, fi, _) = new_fields s e toggle id h in
      rw (split_last-snoc payload (TailByte.new s e toggle id), push_frame, fs, fe, fg, fi)
        (decoded timeout b g p s e toggle id payload now m match)

  module _ (timeout : Duration) (b : List ℕ) (p : Priority) (id : TransferId) (start now : Instant)
      (sent payload : List ℕ) (mtu : Mtu) (small : id < 32)
      (in_time : le now (saturating_add start timeout) ≡ true)
      (fits : length sent + length payload < 2 ^ 32) where
    current-match :
        (toggle : Bool) (st : State)
        → Expects toggle st
        → tid_match c timeout id now (receiving st id start sent) ≡ some true
    unfolding tid_match
    current-match false accumulated_first h = rw (==_refl id, in_time)
    current-match true accumulated_odd h = rw (==_refl id, in_time)
    current-match false accumulated_even h = rw (==_refl id, in_time)
    current-match false idle h = absurd h
    current-match false idle_last_transfer h = absurd h
    current-match false accumulated_odd h = absurd h
    current-match false assembled h = absurd h
    current-match true idle h = absurd h
    current-match true idle_last_transfer h = absurd h
    current-match true accumulated_first h = absurd h
    current-match true accumulated_even h = absurd h
    current-match true assembled h = absurd h

    appended :
        (st : State)
        → accumulate
            (receiving st id start sent)
            (store b sent)
            (record { transfer_id = id; priority = p; payload = payload; timestamp = now })
          ≡ some (receiving st id start (sent ++ payload), store b (sent ++ payload), none)
    unfolding accumulate
    appended st = rw (append-store b sent payload fits, accumulate)

    abbrev segment : Segment Instant
    segment = record { transfer_id = id; priority = p; payload = payload; timestamp = now }

    perform_more :
        (toggle : Bool) (st : State)
        → Expects toggle st
        → (length payload ≡ 7) ⊎ (length payload ≡ 63)
        → perform
            (dispatch st false false (xor_bool toggle true) true)
            (receiving st id start sent)
            (store b sent)
            segment
          ≡ some (receiving (after st) id start (sent ++ payload), store b (sent ++ payload), none)
    unfolding dispatch perform accumulate_odd accumulate_even
    perform_more false accumulated_first h full =
        rw (full_lem segment full) (appended accumulated_odd)
    perform_more true accumulated_odd h full =
        rw (full_lem segment full) (appended accumulated_even)
    perform_more false accumulated_even h full =
        rw (full_lem segment full) (appended accumulated_odd)
    perform_more false idle h full = absurd h
    perform_more false idle_last_transfer h full = absurd h
    perform_more false accumulated_odd h full = absurd h
    perform_more false assembled h full = absurd h
    perform_more true idle h full = absurd h
    perform_more true idle_last_transfer h full = absurd h
    perform_more true accumulated_first h full = absurd h
    perform_more true accumulated_even h full = absurd h
    perform_more true assembled h full = absurd h

    -- A full frame in sequence is added to what was received.
    pub receive_more :
        (toggle : Bool) (st : State)
        → Expects toggle st
        → (length payload ≡ 7) ⊎ (length payload ≡ 63)
        → push_frame c timeout
            (store b sent)
            (receiving st id start sent)
            p
            (payload ++ (TailByte.new false false toggle id ∷ []))
            now
            mtu
          ≡ some (receiving (after st) id start (sent ++ payload), store b (sent ++ payload), none)
    receive_more toggle st h full =
        push-tail timeout (store b sent) (receiving st id start sent) p false false toggle id
          payload now mtu true small (current-match toggle st h)
        ∙ perform_more toggle st h full

    -- The transfer of `n` payload bytes.
    abbrev pub result : ℕ → Transfer Instant
    result n = record { id = id; priority = p; timestamp = start; len = n }

    try_get-residue :
        add_bytes init_value (sent ++ payload) ≡ 0
        → 2 ≤ length (sent ++ payload)
        → try_get (acc_of (sent ++ payload)) ≡ some (length (sent ++ payload) - 2)
    unfolding try_get
    try_get-residue e h = rw (e, le→leb 2 (length (sent ++ payload)) h)

    module _ (n : ℕ) (crc_ok : add_bytes init_value (sent ++ payload) ≡ 0)
        (len_ok : length (sent ++ payload) ≡ n + 2) (some_bytes : 1 ≤ length payload) where
      finish_lem :
          (st : State)
          → finish_assembly (receiving st id start sent) (store b sent) segment
            ≡ some (complete id start, store b (sent ++ payload), some (result n))
      unfolding finish_assembly
      finish_lem st =
          let ne : (length payload == 0) ≡ false = ground arith in
          let k : length (sent ++ payload) - 2 ≡ n = omega arith in
          rw (
            ne,
            append-store b sent payload fits,
            finish_assembly,
            try_get-residue crc_ok (omega arith),
            k,
          )

      perform_last :
          (toggle : Bool) (st : State)
          → Expects toggle st
          → perform
              (dispatch st false true (xor_bool toggle true) true)
              (receiving st id start sent)
              (store b sent)
              segment
            ≡ some (complete id start, store b (sent ++ payload), some (result n))
      unfolding dispatch perform
      perform_last false accumulated_first h = finish_lem accumulated_first
      perform_last true accumulated_odd h = finish_lem accumulated_odd
      perform_last false accumulated_even h = finish_lem accumulated_even
      perform_last false idle h = absurd h
      perform_last false idle_last_transfer h = absurd h
      perform_last false accumulated_odd h = absurd h
      perform_last false assembled h = absurd h
      perform_last true idle h = absurd h
      perform_last true idle_last_transfer h = absurd h
      perform_last true accumulated_first h = absurd h
      perform_last true accumulated_even h = absurd h
      perform_last true assembled h = absurd h

      -- The last frame in sequence, if the CRC over all payloads comes to 0, completes the transfer.
      pub receive_last :
          (toggle : Bool) (st : State)
          → Expects toggle st
          → push_frame c timeout
              (store b sent)
              (receiving st id start sent)
              p
              (payload ++ (TailByte.new false true toggle id ∷ []))
              now
              mtu
            ≡ some (complete id start, store b (sent ++ payload), some (result n))
      receive_last toggle st h =
          push-tail timeout (store b sent) (receiving st id start sent) p false true toggle id
            payload now mtu true small (current-match toggle st h)
          ∙ perform_last toggle st h
