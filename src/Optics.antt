-- ===== src/Optics.antt =====
-- crates/id_effect_optics: paths into documents, and JSON Patch.
pub mod Paths
pub mod Documents
pub mod Patches
pub mod Access
pub mod Writes
pub mod PatchLaws
pub mod Removals
pub mod Zipper
pub mod ZipperLaws
