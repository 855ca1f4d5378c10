-- ===== src/Tests/Watching.antt =====
-- A watch buffer with one session, in which a message waits already.
use emcyphal.Common.{
  ℕ, ◌≡◌, ◌≢◌, refl, false, List, [], ◌∷◌, none, some, get_elem?, take, replicate,
}
use emcyphal.Core.Priority.{nominal, low}
use emcyphal.Core.PrioritySet.Algebra.{contains-new_eq}
use emcyphal.Core.PrioritySet.{new_eq}
use emcyphal.Format.TailByte
use emcyphal.Frame.{message}
use emcyphal.Utils.DuplexArray.{from_fn, repeat}
use emcyphal.Utils.IndexQueue.{no_entry}
use emcyphal.Utils.PriorityTrigger
use emcyphal.Buffer.Types.{TransferMeta}
use emcyphal.Buffer.Watch.{Inner, try_pop, push_anonymous_frame}
use emcyphal.Buffer.Watch.Newest.{try_pop-push_anonymous_frame}
use emcyphal.Tests.External.{platform, wakers}

abbrev old : TransferMeta ℕ
old = record { priority = low; address = none; transfer_id = 3; timestamp = 90; loop_back = false }

abbrev watching : Inner platform 1
watching = record {
  data_specifier = message 100;
  buffers = replicate 4 0 ∷ replicate 4 1 ∷ replicate 4 2 ∷ [];
  sessions = record {
    keys = from_fn 1 0 (λ i. none);
    values = from_fn 1 0 (λ i. none);
    index = repeat 1 127 no_entry;
    queue = record { nodes = from_fn 2 1 (λ i. record { next = i; prev = i }) };
  };
  session_buffer_base = 0;
  transfer = some (record { meta = old; buffer_length = 2 });
  transfer_min_timestamp = 90;
  transfer_buffer_idx = 1;
  readout_buffer_idx = 2;
  timeout = 50;
  priority_trigger = PriorityTrigger.new wakers;
}

abbrev new_meta : TransferMeta ℕ
new_meta = record {
  priority = nominal;
  address = none;
  transfer_id = TailByte.transfer_id 0b11100111;
  timestamp = 100;
  loop_back = false;
}

abbrev payload : List ℕ
payload = 11 ∷ 12 ∷ 13 ∷ 14 ∷ 15 ∷ []

abbrev bytes : List ℕ
bytes = 11 ∷ 12 ∷ 13 ∷ 14 ∷ 15 ∷ 0b11100111 ∷ []

try_pop-push_anonymous_frame_example :
    (s' : Inner platform 1) × (s'' : Inner platform 1) × (push_anonymous_frame platform 1 watching
        nominal bytes 100 false
      ≡ some s')
    × (try_pop platform 1 s' (new_eq nominal) ≡ some (s'', some (new_meta, take 4 payload)))
    × (s''.transfer ≡ none)
    × (s''.readout_buffer_idx ≡ 1)
    × (s''.transfer_buffer_idx ≡ 2)
    × ((k : ℕ) → 1 ≢ k → get_elem? s''.buffers k ≡ get_elem? watching.buffers k)
unfolding TailByte.sot TailByte.eot TailByte.toggle
try_pop-push_anonymous_frame_example =
    try_pop-push_anonymous_frame platform 1 watching nominal bytes payload 0b11100111 100 false
      (new_eq nominal) (replicate 4 1) refl refl refl refl (contains-new_eq nominal)
