-- ===== src/Buffer.antt =====
-- emcyphal/src/buffer: the buffers of the endpoints.
pub mod Types
pub mod Owned
pub mod Ready
pub mod Signal
pub mod Blocking
pub mod Response
pub mod RxPriorityFifo
pub mod Watch
