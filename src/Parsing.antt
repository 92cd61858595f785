-- ===== src/Parsing.antt =====
-- crates/id_effect_parse: parser combinators.
pub mod Parser
pub mod Literals
pub mod Loops
pub mod Numbers
pub mod Pretty
pub mod Layouts
