-- ===== src/Schedule.antt =====
-- Scheduling policies and the loops that follow them: crates/id_effect/src/scheduling/schedule.rs,
-- with the order helpers that it calls (crates/id_effect/src/schema/order.rs).
pub mod Policy
pub mod Exponential
pub mod Delays
pub mod Combinators
pub mod Loops
pub mod Retry
pub mod Repeat
pub mod Interrupt
