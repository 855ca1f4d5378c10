-- ===== src/Core/Ids.antt =====
-- emcyphal-core/src/lib.rs: the identifiers, words of which a constructor keeps the low bits.
pub mod NodeId
pub mod SubjectId
pub mod ServiceId
pub mod TransferId
