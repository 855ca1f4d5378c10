-- ===== src/Registry.antt =====
-- emcyphal/src/registry: what stands between the buffers and the drivers.
pub mod TxQueue
