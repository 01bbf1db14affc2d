-- ===== src/Scheduler.antt =====
-- The topological scheduler.
pub mod Node
pub mod Dag
pub mod State
pub mod Fork
pub mod Queue
pub mod Loop
mod Tests
