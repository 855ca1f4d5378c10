-- ===== src/Frame.antt =====
-- emcyphal-driver/src/frame.rs: the frame that drivers and the stack exchange.
pub mod DataLength
pub mod Mtu
use emcyphal.Common.{
  ◌==◌, false, ℕ, ◌-◌, List, ◌++◌, Option, none, some, Bool, length, take, replicate, bool_eq,
}
use emcyphal.Core.Priority.{Priority}
use emcyphal.Core.Ids.SubjectId.{SubjectId}
use emcyphal.Core.Ids.ServiceId.{ServiceId}
use emcyphal.Core.Ids.NodeId.{NodeId}

pub data DataSpecifier : Type 0 where
  message : SubjectId → DataSpecifier
  request : ServiceId → DataSpecifier
  response : ServiceId → DataSpecifier

-- The derived equality.
abbrev pub eq_spec : DataSpecifier → DataSpecifier → Bool
eq_spec (message a) (message b) = a == b
eq_spec (request a) (request b) = a == b
eq_spec (response a) (response b) = a == b
eq_spec _ _ = false

pub record Header : Type 0 where
  pub priority : Priority
  pub data_spec : DataSpecifier
  pub source : Option NodeId
  pub destination : Option NodeId

-- `length` bytes of the array `bytes: [u8; 64]` are in use.
pub record Data : Type 0 where
  pub len : ℕ
  pub bytes : List ℕ

-- The instants are those of the time library that the driver is given.
pub record Frame (Instant : Type 0) : Type 0 where
  pub header : Header
  pub content : Data
  pub timestamp : Instant
  pub loop_back : Bool

-- The slice that `Data` dereferences to.
abbrev pub deref : Data → List ℕ
deref d = take d.len d.bytes

-- `Data::new`; `none` is `InvalidLength`.
abbrev pub new_data : List ℕ → Option Data
new_data src = elim (DataLength.new (length src)) [
  | none ↦ none
  | some n ↦ some (record { len = n; bytes = src ++ replicate (64 - length src) 0 })
]

abbrev pub new_zeros : ℕ → Data
new_zeros n = record { len = n; bytes = replicate 64 0 }
