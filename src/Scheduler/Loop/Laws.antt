-- ===== src/Scheduler/Loop/Laws.antt =====
-- Properties of runs of the scheduler.
pub mod Jump
pub mod Completed
pub mod Resume
