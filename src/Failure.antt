-- ===== src/Failure.antt =====
-- The failure algebra of crates/id_effect: matchers, causes, exits and error sums.
pub mod Matcher
pub mod Cause
pub mod Exit
pub mod Union
