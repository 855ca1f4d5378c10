-- ===== src/Tests/Responses.antt =====
-- The theorems on response buffers at states that meet their hypotheses.
use emcyphal.Common.{ℕ, ◌≡◌, ◌⊎◌, refl, [], ◌∷◌, true, false, ◌&&◌, none, some, arith, replicate}
use emcyphal.Core.Priority.{Priority, nominal, le, eq}
use emcyphal.Core.PrioritySet.{contains, all_set}
use emcyphal.Frame.{Frame}
use emcyphal.Frame.Mtu.{classic}
use emcyphal.Scatter
use emcyphal.Buffer.Types.{TransferMeta, ok}
use emcyphal.Buffer.Response
use emcyphal.Buffer.Response.Slots
use emcyphal.Buffer.Response.Laws
use emcyphal.Utils.PriorityMap
use emcyphal.Utils.PriorityMap.Laws.{is_some, new-IsMap}
use emcyphal.Utils.PriorityTrigger
use emcyphal.Tests.External.{platform, vecs-IsStack}

abbrev meta : TransferMeta ℕ
meta = record {
  priority = nominal;
  address = some 5;
  transfer_id = 27;
  timestamp = 100;
  loop_back = false;
}

-- No response is held, and the scratchpad is handed out.
abbrev prepared : Response.Inner platform
prepared = record {
  service = 10;
  buffers = replicate 8 (replicate 8 1);
  scratchpad_buffer_idx = some 7;
  free_buffer_idx = 6 ∷ 5 ∷ 4 ∷ 3 ∷ 2 ∷ 1 ∷ 0 ∷ [];
  transfers = PriorityMap.new;
  non_full_trigger = PriorityTrigger.new platform.wakers;
  empty_trigger = (none, []);
}

prepared-IsValid : Slots.IsValid platform prepared
unfolding Slots.held
prepared-IsValid = record {
  all_buffers = refl;
  map = new-IsMap;
  holders = λ k. ground arith;
  live = λ q. tt;
}

-- A response is being sent.
abbrev entry : Response.TransferEntry platform
entry = record {
  address = 5;
  scatter = Scatter.new 27 8 0x178d;
  deadline = 100;
  loop_back = false;
  buffer_idx = 7;
}

sent :
    (s : Response.Inner platform) × (Response.try_push platform prepared meta 8 0x178d
      ≡ some (s, ok))
    × Slots.IsValid platform s
sent =
    let r =
      Laws.try_push_response platform vecs-IsStack prepared meta 8 0x178d 7 5 (replicate 8 1)
        prepared-IsValid refl refl refl refl (omega arith) in
    (r.0, r.1, r.5)

get_scratchpad_response_example :
    ((Response.get_scratchpad platform prepared ≡ some (prepared, none))
      × ((q : Priority) → is_some (prepared.transfers.values q) ≡ true))
    ⊎ ((s' : Response.Inner platform) × (idx : ℕ) × (Response.get_scratchpad platform prepared
          ≡ some (s', some (Response.push_readiness platform prepared, idx)))
        × (s'.scratchpad_buffer_idx ≡ some idx)
        × (s'.transfers ≡ prepared.transfers)
        × (s'.buffers ≡ prepared.buffers)
        × Slots.IsValid platform s')
get_scratchpad_response_example =
    Laws.get_scratchpad_response platform vecs-IsStack prepared prepared-IsValid

try_push_response_example :
    (s' : Response.Inner platform) × (Response.try_push platform prepared meta 8 0x178d
      ≡ some (s', ok))
    × (s'.transfers.values meta.priority
        ≡ some (record {
          address = 5;
          scatter = Scatter.new meta.transfer_id 8 0x178d;
          deadline = meta.timestamp;
          loop_back = meta.loop_back;
          buffer_idx = 7;
        }))
    × ((q : Priority)
        → eq meta.priority q ≡ false
        → s'.transfers.values q ≡ prepared.transfers.values q)
    × (s'.buffers ≡ prepared.buffers)
    × Slots.IsValid platform s'
try_push_response_example =
    Laws.try_push_response platform vecs-IsStack prepared meta 8 0x178d 7 5 (replicate 8 1)
      prepared-IsValid refl refl refl refl (omega arith)

try_pop_response_example :
    ((Response.try_pop platform sent.0 all_set classic ≡ some (sent.0, none))
      × ((q : Priority) → (contains all_set q && is_some (sent.0.transfers.values q)) ≡ false))
    ⊎ ((s' : Response.Inner platform) × (frame : Frame ℕ) × (Response.try_pop platform sent.0
            all_set classic
          ≡ some (s', some frame))
        × ((contains all_set frame.header.priority
              && is_some (sent.0.transfers.values frame.header.priority))
            ≡ true)
        × ((q : Priority)
            → (contains all_set q && is_some (sent.0.transfers.values q)) ≡ true
            → le frame.header.priority q ≡ true)
        × (s'.scratchpad_buffer_idx ≡ sent.0.scratchpad_buffer_idx)
        × (s'.buffers ≡ sent.0.buffers)
        × Slots.IsValid platform s')
try_pop_response_example = Laws.try_pop_response platform vecs-IsStack sent.0 all_set classic sent.2
