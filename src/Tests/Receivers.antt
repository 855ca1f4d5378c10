-- ===== src/Tests/Receivers.antt =====
-- A receive buffer with one session and room for one waiting transfer.
use emcyphal.Common.{ℕ, ◌≡◌, refl, sym, false, List, [], ◌∷◌, Option, none, some, arith, replicate}
use mathlib.Core.Path.{subst}
use emcyphal.Core.Priority.{Priority, nominal, low}
use emcyphal.Core.PrioritySet.{all_set}
use emcyphal.Buffer.Types.{TransferMeta}
use emcyphal.Format.TailByte
use emcyphal.Frame.{message}
use emcyphal.Utils.PriorityQueue.Spec.{Spec}
use emcyphal.Utils.PriorityQueue.Holds.{empty_spec}
use emcyphal.Buffer.RxPriorityFifo.{Inner, new, try_pop, push_regular_frame, push_anonymous_frame}
use emcyphal.Buffer.RxPriorityFifo.Transfers
use emcyphal.Buffer.RxPriorityFifo.Transfers.{TransferEntry, TransferQueue}
use emcyphal.Buffer.RxPriorityFifo.Ledger.{Kept}
use emcyphal.Buffer.RxPriorityFifo.Start.{IsVacant, new-Kept}
use emcyphal.Buffer.RxPriorityFifo.Grant.{Granted, allocate_buffer-Granted}
use emcyphal.Buffer.RxPriorityFifo.Accept.{Accepted, queued, dropped, push_anonymous_frame-Accepted}
use emcyphal.Buffer.RxPriorityFifo.NoSessions.{without_sessions-panics}
use emcyphal.Frame.Mtu.{classic}
use emcyphal.Buffer.RxPriorityFifo.Read.{Read, try_pop-Read}
use emcyphal.Tests.External.{platform, vecs-IsStack}

abbrev memory : List (List ℕ)
memory = replicate 4 0 ∷ replicate 4 1 ∷ replicate 4 2 ∷ []

new-Kept_example :
    (s : Inner platform 1 1) × (new platform 1 1 (message 100) 50 memory ≡ some s)
    × Kept s (empty_spec 1)
    × IsVacant s.sessions
new-Kept_example =
    new-Kept platform 1 1 vecs-IsStack (message 100) 50 memory (omega arith) (omega arith) refl

-- The state that `new` gives.
abbrev begun : Inner platform 1 1
begun =
    (new-Kept platform 1 1 vecs-IsStack (message 100) 50 memory (omega arith) (omega arith) refl).0

begun-Kept : Kept begun (empty_spec 1)
begun-Kept =
    (new-Kept platform 1 1 vecs-IsStack (message 100) 50 memory (omega arith) (omega arith) refl).2

allocate_buffer-Granted_example :
    (t' : TransferQueue ℕ platform.vecs 1) × (r : Option ℕ) × (Transfers.allocate_buffer
        begun.transfers low
      ≡ some (t', r))
    × Granted begun.transfers (empty_spec 1) low t' r
allocate_buffer-Granted_example =
    allocate_buffer-Granted vecs-IsStack begun.transfers (empty_spec 1) low (omega arith)
      begun-Kept.stocked

-- A frame with five bytes of payload, of which the buffer holds four.
abbrev bytes : List ℕ
bytes = 11 ∷ 12 ∷ 13 ∷ 14 ∷ 15 ∷ 0b11100111 ∷ []

push_anonymous_frame-Accepted_example :
    (s' : Inner platform 1 1) × (push_anonymous_frame platform 1 1 begun nominal bytes 100 false
      ≡ some s')
    × Accepted begun (empty_spec 1) nominal 0b11100111 (11 ∷ 12 ∷ 13 ∷ 14 ∷ 15 ∷ []) 100 false s'
unfolding TailByte.sot TailByte.eot TailByte.toggle
push_anonymous_frame-Accepted_example =
    push_anonymous_frame-Accepted vecs-IsStack begun (empty_spec 1) nominal bytes
      (11 ∷ 12 ∷ 13 ∷ 14 ∷ 15 ∷ []) 0b11100111 100 false begun-Kept refl refl (omega arith)

kept_of :
    (s s' : Inner platform 1 1) (m : Spec (TransferEntry ℕ)) (priority : Priority) (tail : ℕ)
    (payload : List ℕ) (timestamp : ℕ)
    → Kept s m
    → Accepted s m priority tail payload timestamp false s'
    → (m' : Spec (TransferEntry ℕ)) × Kept s' m'
kept_of s s' m priority tail payload timestamp h (queued m' n idx b room at read other same kept) =
    (_, kept)
kept_of s s' m priority tail payload timestamp h (dropped full urgent same) =
    (m, subst (λ t. Kept t m) (sym same) h)

-- A transfer waits.
waiting : (s : Inner platform 1 1) × (m : Spec (TransferEntry ℕ)) × Kept s m
unfolding TailByte.sot TailByte.eot TailByte.toggle
waiting =
    let (s', e, accepted) =
      push_anonymous_frame-Accepted vecs-IsStack begun (empty_spec 1) nominal bytes
        (11 ∷ 12 ∷ 13 ∷ 14 ∷ 15 ∷ []) 0b11100111 100 false begun-Kept refl refl (omega arith) in
    let (m, kept) = kept_of begun s' (empty_spec 1) nominal 0b11100111 _ 100 begun-Kept accepted in
    (s', m, kept)

try_pop-Read_example :
    (s' : Inner platform 1 1) × (r : Option (TransferMeta ℕ × List ℕ)) × (try_pop platform 1 1
        (waiting.0)
        all_set
      ≡ some (s', r))
    × Read (waiting.0) (waiting.1) all_set s' r
try_pop-Read_example = try_pop-Read vecs-IsStack (waiting.0) (waiting.1) all_set (waiting.2)

without_sessions-panics_example :
    (s : Inner platform 0 1) × (new platform 0 1
        (message 100)
        50
        (replicate 4 0 ∷ replicate 4 1 ∷ [])
      ≡ some s)
    × (push_regular_frame platform 0 1 s 42 nominal bytes 100 false classic ≡ none)
unfolding TailByte.sot
without_sessions-panics_example =
    without_sessions-panics platform 1 vecs-IsStack (message 100) 50
      (replicate 4 0 ∷ replicate 4 1 ∷ []) 42 nominal bytes (11 ∷ 12 ∷ 13 ∷ 14 ∷ 15 ∷ []) 0b11100111
      100 false classic (omega arith) refl (omega arith) refl refl
