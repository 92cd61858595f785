-- ===== src/Fsm.antt =====
-- State machines, their interpreter, sagas and durable stepping: crates/id_effect_fsm.
pub mod Machine
pub mod MachineLaws
pub mod Interpreter
pub mod Walks
pub mod Saga
pub mod Rollback
pub mod Durable
pub mod Restores
