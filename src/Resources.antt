-- ===== src/Resources.antt =====
-- crates/id_effect/src/resource: scopes.
pub mod Scopes
pub mod Store
pub mod Closing
pub mod Finishing
pub mod Lifecycle
pub mod Sweeps
pub mod Children
pub mod Families
