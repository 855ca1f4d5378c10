-- ===== src/Utils.antt =====
-- emcyphal/src/utils.rs and emcyphal/src/utils: containers that the buffers and registries share.
pub mod PriorityArray
pub mod PriorityMap
pub mod PriorityTrigger
pub mod DuplexArray
pub mod MultiClassQueue
pub mod PriorityQueue
pub mod IndexQueue
