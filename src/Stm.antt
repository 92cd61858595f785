-- ===== src/Stm.antt =====
-- Software transactional memory: crates/id_effect/src/stm/mod.rs.
pub mod Heap
pub mod Later
pub mod Txn
pub mod Program
pub mod Cell
pub mod Replays
pub mod CellReplays
pub mod Commit
pub mod Serial
pub mod Alone
pub mod Built
pub mod Structures
pub mod Linear
pub mod Queue
pub mod Semaphore
pub mod Map
pub mod Progress
pub mod Completes
