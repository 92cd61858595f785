-- ===== src/Graph.antt =====
-- crates/id_effect_graph: dependency graphs and their order.
pub mod Names
pub mod Dag
pub mod Counting
pub mod Links
pub mod Positions
pub mod Loop
pub mod Order
pub mod Edits
pub mod Planner
pub mod Requirements
pub mod PlanSteps
pub mod Plans
