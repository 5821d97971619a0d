-- ===== src/Group.antt =====
-- dbrpc/task_group.cpp and dbrpc/task_group_inl.h: a task group's run queues and the announcements
-- of new tasks to other workers.
pub mod Ready
pub mod Ledger
pub mod History
pub mod Progress
pub mod Start
pub mod Starts
pub mod Timer
