-- ===== src/Tests/Signals.antt =====
-- The theorems on signals at states that meet their hypotheses.
use emcyphal.Common.{
  ◌≤◌, ℕ, ◌≡◌, ◌≢◌, ◌↔◌, refl, List, [], ◌∷◌, false, not, ◌&&◌, Option, none, some, arith, length,
  get_elem?, replicate,
}
use emcyphal.Core.Priority.{nominal}
use emcyphal.Core.PrioritySet.{PrioritySet, new_eq, contains, all_set}
use emcyphal.Core.PrioritySet.Algebra.{contains-new_eq}
use emcyphal.Frame.{Frame}
use emcyphal.Frame.Mtu.{Mtu, classic}
use emcyphal.Scatter
use emcyphal.Buffer.Types.{TransferMeta, ok}
use emcyphal.Buffer.Signal
use emcyphal.Buffer.Signal.Slots
use emcyphal.Buffer.Signal.Laws
use emcyphal.Buffer.Signal.Reach
use emcyphal.Tests.External.{platform, vecs-IsStack}

abbrev meta : TransferMeta ℕ
meta = record {
  priority = nominal;
  address = none;
  transfer_id = 27;
  timestamp = 100;
  loop_back = false;
}

-- One buffer holds a message of eight bytes that is being sent, the other is the scratchpad.
abbrev pub sending : Signal.Inner platform
sending = record {
  subject = 100;
  buffers = replicate 8 1 ∷ replicate 8 2 ∷ [];
  priority = nominal;
  pending_transfer = none;
  fragmented_transfer = some (record {
    buffer_idx = 1;
    scatter = Scatter.new 27 8 0x178d;
    timestamp = 100;
    loop_back = false;
  });
  scratchpad_buffer_idx = some 0;
  free_buffer_indexes = [];
  empty_waker = (none, []);
}

pub sending-IsValid : Slots.IsValid platform sending
sending-IsValid = record {
  two = refl;
  holders = λ k. ground arith;
  fragmented_live =
      (replicate 8 2, refl, record { inside = omega arith; unfinished = omega arith });
  next_live = tt;
}

get_scratchpad-IsValid_example :
    (s' : Signal.Inner platform) × (idx : ℕ) × (Signal.get_scratchpad platform sending
      ≡ some (s', new_eq sending.priority, idx))
    × (s'.scratchpad_buffer_idx ≡ some idx)
    × (s'.fragmented_transfer ≡ sending.fragmented_transfer)
    × (s'.buffers ≡ sending.buffers)
    × Slots.IsValid platform s'
get_scratchpad-IsValid_example =
    Laws.get_scratchpad-IsValid platform vecs-IsStack sending sending-IsValid

try_push-IsValid_example :
    (s' : Signal.Inner platform) × (Signal.try_push platform sending meta 8 0x178d ≡ some (s', ok))
    × (s'.pending_transfer
        ≡ some (record {
          buffer_idx = 0;
          scatter = Scatter.new meta.transfer_id 8 0x178d;
          timestamp = meta.timestamp;
          loop_back = meta.loop_back;
        }))
    × (s'.fragmented_transfer ≡ sending.fragmented_transfer)
    × (s'.buffers ≡ sending.buffers)
    × Slots.IsValid platform s'
try_push-IsValid_example =
    Laws.try_push-IsValid platform vecs-IsStack sending meta 8 0x178d 0 (replicate 8 1)
      sending-IsValid refl (contains-new_eq nominal) refl refl (omega arith)

try_pop-IsValid_example :
    (s' : Signal.Inner platform) × (o : Option (Frame ℕ)) × (Signal.try_pop platform sending all_set
        classic
      ≡ some (s', o))
    × Slots.IsValid platform s'
    × ((o ≡ none)
        ↔ ((contains all_set sending.priority && not (Signal.is_empty platform sending)) ≡ false))
    × ((frame : Frame ℕ) → o ≡ some frame → frame.header.priority ≡ sending.priority)
    × (s'.scratchpad_buffer_idx ≡ sending.scratchpad_buffer_idx)
    × (s'.buffers ≡ sending.buffers)
try_pop-IsValid_example =
    Laws.try_pop-IsValid platform vecs-IsStack sending all_set classic sending-IsValid

-- A new buffer, and the same one once its scratchpad is handed out.
abbrev fresh : Signal.Inner platform
fresh = record {
  subject = 100;
  buffers = replicate 8 1 ∷ replicate 8 2 ∷ [];
  priority = nominal;
  pending_transfer = none;
  fragmented_transfer = none;
  scratchpad_buffer_idx = none;
  free_buffer_indexes = 1 ∷ 0 ∷ [];
  empty_waker = (none, []);
}

abbrev prepared : Signal.Inner platform
prepared = record fresh { scratchpad_buffer_idx = some 1; free_buffer_indexes = 0 ∷ [] }

prepared-Reach : Reach.Reach platform fresh prepared
unfolding Signal.get_scratchpad
prepared-Reach =
    Reach.Reach.next Reach.Reach.here (Reach.Step.scratchpad {mask = new_eq nominal} {idx = 1} refl)

Reach_safe_example :
    (Signal.get_scratchpad platform prepared ≢ none)
    × ((mask : PrioritySet) (mtu : Mtu) → Signal.try_pop platform prepared mask mtu ≢ none)
    × ((m : TransferMeta ℕ) (n crc : ℕ)
        → ((idx : ℕ) (buffer : List ℕ)
            → prepared.scratchpad_buffer_idx ≡ some idx
            → get_elem? prepared.buffers idx ≡ some buffer
            → n ≤ length buffer)
        → Signal.try_push platform prepared m n crc ≢ none)
unfolding Signal.new
Reach_safe_example =
    Reach.Reach_safe platform vecs-IsStack 100 nominal (replicate 8 1 ∷ replicate 8 2 ∷ []) fresh
      prepared refl refl prepared-Reach
