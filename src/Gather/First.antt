-- ===== src/Gather/First.antt =====
-- What a receiver does with the first frame of a transfer, from any state in which it does not hold
-- that transfer already.
use emcyphal.Common.{
  ℕ, ◌<◌, ◌^◌, ◌≡◌, ◌≢◌, refl, sym, ◌∙◌, ap, ◌⊎◌, inl, inr, List, [], ◌∷◌, ◌++◌, Bool, true, false,
  none, some, arith, length, lt→ltb, take-nil,
}
use emcyphal.Core.Priority.{Priority}
use emcyphal.Core.Ids.TransferId.{TransferId}
use emcyphal.Format.TailByte
use emcyphal.Frame.Mtu.{Mtu}
use emcyphal.Time.{Clock}
use emcyphal.Gather.{
  Gather, Segment, State, idle, idle_last_transfer, accumulated_first, accumulated_odd,
  accumulated_even, assembled, first, single, push_frame, tid_match, dispatch, perform, accumulate,
  accumulate_first, single_frame_assembly, append,
}
use emcyphal.Gather.Store.{store, acc_of, append-store, write-start}
use emcyphal.Gather.Receive.{receiving, complete, full_lem, push-tail}

-- The receiver does not hold an assembled transfer that the frame repeats.
abbrev pub IsReady : State → Bool → Type 0
IsReady st m = (st ≢ assembled) ⊎ (m ≡ false)

dispatch-first : (st : State) (m : Bool) → IsReady st m → dispatch st true false false m ≡ first
unfolding dispatch
dispatch-first idle true h = refl
dispatch-first idle false h = refl
dispatch-first idle_last_transfer true h = refl
dispatch-first idle_last_transfer false h = refl
dispatch-first accumulated_first true h = refl
dispatch-first accumulated_first false h = refl
dispatch-first accumulated_odd true h = refl
dispatch-first accumulated_odd false h = refl
dispatch-first accumulated_even true h = refl
dispatch-first accumulated_even false h = refl
dispatch-first assembled true (inl h) = absurd (h refl)
dispatch-first assembled true (inr h) = cc
dispatch-first assembled false h = refl

dispatch-single : (st : State) (m : Bool) → IsReady st m → dispatch st true true false m ≡ single
unfolding dispatch
dispatch-single idle true h = refl
dispatch-single idle false h = refl
dispatch-single idle_last_transfer true h = refl
dispatch-single idle_last_transfer false h = refl
dispatch-single accumulated_first true h = refl
dispatch-single accumulated_first false h = refl
dispatch-single accumulated_odd true h = refl
dispatch-single accumulated_odd false h = refl
dispatch-single accumulated_even true h = refl
dispatch-single accumulated_even false h = refl
dispatch-single assembled true (inl h) = absurd (h refl)
dispatch-single assembled true (inr h) = cc
dispatch-single assembled false h = refl

module _ (c : Clock) where
  open c use {Instant, Duration}

  module _ (timeout : Duration) (b : List ℕ) (g : Gather Instant) (p : Priority) (id : TransferId)
      (start : Instant) (payload : List ℕ) (mtu : Mtu) (small : id < 32) (m : Bool)
      (match : tid_match c timeout id start g ≡ some m) (ready : IsReady g.state m)
      (fits : length payload < 2 ^ 32) where
    abbrev segment : Segment Instant
    segment = record { transfer_id = id; priority = p; payload = payload; timestamp = start }

    store-nil : store b [] ≡ b
    store-nil = rw (take-nil (length b))

    append-first : append (acc_of []) b payload ≡ some (acc_of payload, store b payload)
    append-first =
        ap (λ l. append (acc_of []) l payload) (sym store-nil)
        ∙ append-store b [] payload (omega arith)

    accumulate_first_lem :
        (length payload ≡ 7) ⊎ (length payload ≡ 63)
        → accumulate_first g b segment
          ≡ some (receiving accumulated_first id start payload, store b payload, none)
    unfolding accumulate_first accumulate
    accumulate_first_lem full = rw (full_lem segment full, append-first, accumulate)

    -- A full frame that starts a transfer starts the reassembly anew.
    pub receive_first :
        (length payload ≡ 7) ⊎ (length payload ≡ 63)
        → push_frame c timeout b g p (payload ++ (TailByte.new true false true id ∷ [])) start mtu
          ≡ some (receiving accumulated_first id start payload, store b payload, none)
    unfolding perform
    receive_first full =
        push-tail c timeout b g p true false true id payload start mtu m small match
        ∙ ap (λ a. perform a g b segment) (dispatch-first g.state m ready)
        ∙ accumulate_first_lem full

    single_lem :
        single_frame_assembly g b segment
        ≡ some (
          complete id start,
          store b payload,
          some (record { id = id; priority = p; timestamp = start; len = length payload }),
        )
    unfolding single_frame_assembly
    single_lem = rw (lt→ltb (length payload) (2 ^ 32) fits, write-start b payload)

    -- A frame that is a whole transfer completes it.
    pub receive_single :
        push_frame c timeout b g p (payload ++ (TailByte.new true true true id ∷ [])) start mtu
        ≡ some (
          complete id start,
          store b payload,
          some (record { id = id; priority = p; timestamp = start; len = length payload }),
        )
    unfolding perform
    receive_single =
        push-tail c timeout b g p true true true id payload start mtu m small match
        ∙ ap (λ a. perform a g b segment) (dispatch-single g.state m ready)
        ∙ single_lem
