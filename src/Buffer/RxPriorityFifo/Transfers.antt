-- ===== src/Buffer/RxPriorityFifo/Transfers.antt =====
-- emcyphal/src/buffer/rx_priority_fifo.rs, `TransferQueue`: the transfers that wait for the reader, by
-- priority, and the indexes of the buffers that hold none. `none` around a result is a panic.
use emcyphal.Common.{ℕ, ◌+◌, Bool, Option, none, some, ltb, if◌then◌else◌}
use emcyphal.Core.Priority.{Priority, le}
use emcyphal.Core.PrioritySet.{PrioritySet, first, intersection}
use emcyphal.Core.Ids.NodeId.{NodeId}
use emcyphal.Core.Ids.TransferId.{TransferId}
use emcyphal.External.{Vecs}
use emcyphal.Buffer.Types.{range}
use emcyphal.Utils.MultiClassQueue.{◌>>=◌}
use emcyphal.Utils.PriorityQueue
use emcyphal.Utils.PriorityQueue.{PriorityQueue, Pushed, max_priority_of}

pub record TransferEntry (I : Type 0) : Type 0 where
  pub source : Option NodeId
  pub transfer_id : TransferId
  pub timestamp : I
  pub loop_back : Bool
  pub buffer_length : ℕ
  pub buffer_idx : ℕ

pub record TransferQueue (I : Type 0) (v : Vecs) (n : ℕ) : Type 0 where
  pub queue : PriorityQueue (TransferEntry I) n
  pub free_buffers : v.Vec n

module _ {I : Type 0} {v : Vecs} {n : ℕ} where
  -- The inner `none` is the error. Past the test every index is a byte.
  unfoldable pub new : ℕ → Option (Option (TransferQueue I v n))
  new buffer_index_base = if ltb 256 (buffer_index_base + n) then some none else do
    queue ← PriorityQueue.new
    free ← v.collect n (range buffer_index_base n)
    some (some (record { queue = queue; free_buffers = free }))

  unfoldable pub allocate_buffer :
      TransferQueue I v n → Priority → Option (TransferQueue I v n × Option ℕ)
  allocate_buffer t priority = elim (v.pop n t.free_buffers) [
    | some (idx, free) ↦ some (record t { free_buffers = free }, some idx)
    | none ↦ do
      worst ← max_priority_of t.queue
      if le priority worst
          then (do
            popped ← PriorityQueue.pop t.queue worst
            entry ← popped.1
            some (record t { queue = popped.0 }, some entry.buffer_idx))
          else some (t, none)
  ]

  -- `none` is the error, the index that was given; it has no other part.
  unfoldable pub free_buffer : TransferQueue I v n → ℕ → Option (TransferQueue I v n)
  free_buffer t idx = do free ← v.push n t.free_buffers idx; some (record t { free_buffers = free })

  unfoldable pub push :
      TransferQueue I v n
      → Priority
      → TransferEntry I
      → Option (TransferQueue I v n × Pushed (TransferEntry I))
  push t priority transfer = do
    pushed ← PriorityQueue.push t.queue priority transfer
    some (record t { queue = pushed.0 }, pushed.1)

  unfoldable pub priorities : TransferQueue I v n → PrioritySet
  priorities t = PriorityQueue.priorities t.queue

  unfoldable pub pop :
      TransferQueue I v n
      → PrioritySet
      → Option (TransferQueue I v n × Option (Priority × TransferEntry I))
  pop t priority_mask =
      elim (first (intersection (PriorityQueue.priorities t.queue) priority_mask)) [
        | none ↦ some (t, none)
        | some priority ↦ do
          popped ← PriorityQueue.pop t.queue priority
          entry ← popped.1
          some (record t { queue = popped.0 }, some (priority, entry))
      ]
