-- ===== src/Control.antt =====
-- dbrpc/task_control.cpp: the table of task groups, stealing, signalling and the worker threads.
pub mod Groups
pub mod Steal
pub mod Signal
pub mod Workers
pub mod Table
pub mod WellFormed
pub mod Coverage
pub mod Idle
pub mod Took
pub mod Announce
pub mod Growth
pub mod Registry
pub mod Refines
pub mod History
pub mod Pending
