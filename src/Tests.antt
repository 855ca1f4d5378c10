-- ===== src/Tests.antt =====
-- Runs of the code at fixed inputs, several from the tests of the source, and the theorems at inputs
-- that meet their hypotheses.
mod Clock
mod Transfers
mod Wire
mod External
mod Signals
mod Blocking
mod Responses
mod Identifiers
mod Queue
mod Queues
mod Receivers
mod Sessions
mod Watching
