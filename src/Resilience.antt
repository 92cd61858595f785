-- ===== src/Resilience.antt =====
-- Resilience patterns: crates/id_effect_resilience.
pub mod CircuitBreaker
pub mod CircuitLaws
