-- ===== src/Tests/Blocking.antt =====
-- The theorems on blocking buffers at states that meet their hypotheses.
use emcyphal.Common.{ℕ, ◌≡◌, ◌↔◌, refl, false, not, ◌&&◌, Option, none, some, arith, replicate}
use emcyphal.Core.Priority.{nominal}
use emcyphal.Core.PrioritySet.{new_eq, contains, all_set}
use emcyphal.Frame.{Frame}
use emcyphal.Frame.Mtu.{classic}
use emcyphal.Scatter
use emcyphal.Buffer.Types.{TransferMeta, ok, err, BufferError, is_none}
use emcyphal.Buffer.Blocking
use emcyphal.Buffer.Blocking.Laws
use emcyphal.Tests.External.{platform}

abbrev meta : TransferMeta ℕ
meta = record {
  priority = nominal;
  address = none;
  transfer_id = 27;
  timestamp = 100;
  loop_back = false;
}

abbrev vacant : Blocking.Inner platform
vacant = Blocking.new platform 100 nominal (replicate 8 1)

abbrev entry : Blocking.TransferEntry platform
entry = record { scatter = Scatter.new 27 8 0x178d; deadline = 100; loop_back = false }

abbrev sending : Blocking.Inner platform
sending = record vacant { pending_transfer = some entry }

sending-IsValid : Laws.IsValid platform sending
sending-IsValid = record {
  live = record { inside = omega arith; unfinished = omega arith };
  exclusive = λ e. cc;
}

try_pop_blocking_example :
    (s' : Blocking.Inner platform) × (o : Option (Frame ℕ)) × (Blocking.try_pop platform sending
        all_set classic
      ≡ some (s', o))
    × Laws.IsValid platform s'
    × ((o ≡ none)
        ↔ ((contains all_set sending.priority && not (is_none sending.pending_transfer)) ≡ false))
    × ((frame : Frame ℕ) → o ≡ some frame → frame.header.priority ≡ sending.priority)
    × (s'.buffer ≡ sending.buffer)
try_pop_blocking_example = Laws.try_pop_blocking platform sending all_set classic sending-IsValid

pending_blocks_example :
    (Blocking.get_scratchpad platform sending ≡ some (sending, none))
    × ((e : BufferError) × (Blocking.try_push platform sending meta 8 0x178d
          ≡ some (sending, err e)))
pending_blocks_example = Laws.pending_blocks platform sending entry meta 8 0x178d refl

push_accepted_example :
    (s' s'' : Blocking.Inner platform) × (Blocking.get_scratchpad platform vacant
      ≡ some (s', some (new_eq vacant.priority)))
    × (Blocking.try_push platform s' meta 8 0x178d ≡ some (s'', ok))
    × (s''.pending_transfer
        ≡ some (record {
          scatter = Scatter.new meta.transfer_id 8 0x178d;
          deadline = meta.timestamp;
          loop_back = meta.loop_back;
        }))
    × Laws.IsValid platform s''
push_accepted_example =
    Laws.push_accepted platform vacant meta 8 0x178d refl refl refl (omega arith)
