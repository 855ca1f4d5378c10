-- ===== src/Buffer/Types.antt =====
-- emcyphal/src/buffer.rs and emcyphal/src/endpoint.rs: what the buffers and their clients share.
use emcyphal.Common.{ℕ, zero, suc, ◌+◌, List, [], ◌∷◌, Option, none, some, Bool, true, false}
use emcyphal.Core.Priority.{Priority}
use emcyphal.Core.Ids.NodeId.{NodeId}
use emcyphal.Core.Ids.TransferId.{TransferId}

pub data BufferError : Type 0 where
  priority_not_ready : BufferError
  message_address_specified : BufferError
  service_address_not_specified : BufferError
  scratchpad_not_initialized : BufferError

-- `TransferMeta`, over the instants of the time library.
pub record TransferMeta (Instant : Type 0) : Type 0 where
  pub priority : Priority
  pub address : Option NodeId
  pub transfer_id : TransferId
  pub timestamp : Instant
  pub loop_back : Bool

-- `core::task::Poll`
pub data Poll {ℓ} (A : Type ℓ) : Type ℓ where
  ready : A → Poll A
  pending : Poll A

-- `Result` of the standard library, with the errors of a buffer.
pub data Pushed : Type 0 where
  ok : Pushed
  err : BufferError → Pushed

-- `Option::is_none`
abbrev pub is_none {ℓ} : {A : Type ℓ} → Option A → Bool
is_none none = true
is_none (some _) = false

-- The indexes `from..from + n`.
abbrev pub range : ℕ → ℕ → List ℕ
range from zero = []
range from (suc n) = from ∷ range (from + 1) n
