-- ===== src/Registry/TxQueue/Serve.antt =====
-- emcyphal/src/registry/tx_queue.rs: which buffer is served when a driver pops a frame.
use emcyphal.Common.{
  ℕ, ◌≤◌, ◌≡◌, Bool, true, false, Option, some, List, [], ◌∷◌, ◌++◌, ◌==◌, if◌then◌else◌,
}
use emcyphal.Core.Priority.{Priority, eq, le}
use emcyphal.Core.PrioritySet
use emcyphal.Core.PrioritySet.{PrioritySet, contains, new_eq, first, union}
use emcyphal.Format.{is_eot_frame}
use emcyphal.Frame.{Frame}
use emcyphal.Frame.Mtu.{Mtu, to_usize}
use emcyphal.Registry.TxQueue.{Parts, TxBuffers, QueueId, QueueType, started, TxQueue}
use emcyphal.Registry.TxQueue.Marks.{flag}
use emcyphal.Registry.TxQueue.Place.{InPlace}
use emcyphal.Registry.TxQueue.Lists.{IsValid, listed}

-- What the queue relies on of a buffer in a valid state: when its most urgent priority is asked
-- for, it gives a frame of that priority within the MTU, with a tail byte, and stays valid.
pub record IsTxBuffer {I : Type 0} (b : TxBuffers I) (Valid : b.State → Type 0) : Type 0 where
  pub try_pop_ready :
      (s : b.State) (q : Priority) (mtu : Mtu)
      → Valid s
      → first (b.pop_readiness s) ≡ some q
      → (s' : b.State) × (frame : Frame I) × (eot : Bool) × (b.try_pop s (new_eq q) mtu
          ≡ some (s', some frame))
        × Valid s'
        × (frame.header.priority ≡ q)
        × (frame.content.len ≤ to_usize mtu)
        × (is_eot_frame frame ≡ some eot)

module _ (p : Parts) where
  -- The frame is what the buffer of the first entry of a list gives when it is asked for the
  -- priority of the list: the list of the most urgent priority of the mask that has an entry, of the
  -- started transfers if one of that priority is under way. The entry has the buffer as the frame left
  -- it, and a started set with that priority until the last frame of the transfer, without it then,
  -- when the entry goes to the end of the list it is in next, if any.
  pub record Served (Valid : p.buffers.State → Type 0) (s : TxQueue p) (mask : PrioritySet)
      (mtu : Mtu) (o : Option (TxQueue p × Option (Frame p.Instant))) : Type 0 where
    pub after : TxQueue p
    pub frame : Frame p.Instant
    pub ptr : ℕ
    pub type : QueueType
    pub rest : List ℕ
    pub buffer : p.buffers.State
    pub last : Bool
    pub eq : o ≡ some (after, some frame)
    pub wanted : contains mask frame.header.priority ≡ true
    pub head : listed p s.queues (frame.header.priority, type) ≡ ptr ∷ rest
    pub under_way : flag p s.queues (frame.header.priority, started) ≡ true → type ≡ started
    pub urgent :
        (q : Priority) (u : QueueType)
        → contains mask q ≡ true
        → flag p s.queues (q, u) ≡ true
        → le frame.header.priority q ≡ true
    pub popped :
        p.buffers.try_pop (s.entries ptr).buffer (new_eq frame.header.priority) mtu
        ≡ some (buffer, some frame)
    pub within : frame.content.len ≤ to_usize mtu
    pub tail : is_eot_frame frame ≡ some last
    pub keeps : (after.entries ptr).buffer ≡ buffer
    pub set : (after.entries ptr).started_set ≡ (
        if last
        then PrioritySet.remove (s.entries ptr).started_set frame.header.priority
        else PrioritySet.insert (s.entries ptr).started_set frame.header.priority)
    pub back :
        (id : QueueId)
        → last ≡ true
        → (after.entries ptr).queue_mark ≡ some id
        → (xs : List ℕ) × (listed p after.queues id ≡ xs ++ (ptr ∷ []))
    pub valid : IsValid p after.queues after.entries
    pub in_place : InPlace p after.entries
    pub ready : (k : ℕ) → Valid (after.entries k).buffer
    pub others : (k : ℕ) → (ptr == k) ≡ false → after.entries k ≡ s.entries k
