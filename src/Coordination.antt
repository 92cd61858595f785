-- ===== src/Coordination.antt =====
-- Queues between tasks: crates/id_effect/src/coordination/queue.rs.
pub mod Sliding
pub mod Offers
pub mod Takes
pub mod Batches
pub mod Ranges
