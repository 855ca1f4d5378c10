-- ===== src/Core.antt =====
-- emcyphal-core/src/lib.rs: the protocol's basic data types. The identifiers, which wrap an unsigned
-- word, are that word; the constructors' bounds are hypotheses where a theorem needs them.
pub mod Priority
pub mod PrioritySet
pub mod Ids
