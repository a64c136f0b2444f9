-- ===== src/Tasks.antt =====
-- The task system (include/neixx/task and src/neixx/task/internal).
pub mod Task
pub mod Tracker
pub mod SequencedTaskQueue
pub mod Delayed
pub mod Selector
mod Tests
