-- ===== src/Workflow.antt =====
-- Journals of workflow steps: crates/id_effect_workflow/src/journal.rs.
pub mod Journal
pub mod Entries
pub mod Contract
pub mod Replay
pub mod Stub
