-- ===== src/Events.antt =====
-- crates/id_effect_events: stores of events.
pub mod Stored
pub mod Memory
pub mod File
pub mod Refines
