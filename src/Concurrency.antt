-- ===== src/Concurrency.antt =====
-- crates/id_effect/src/concurrency: cancellation.
pub mod Cancel
pub mod Propagation
pub mod Reached
