-- ===== src/Sched.antt =====
-- dbrpc/task_group.cpp and dbrpc/task_group_inl.h: switching from one bthread to the next.
pub mod Switch
pub mod Next
pub mod Stacks
pub mod Handover
pub mod Leave
pub mod Storage
pub mod Ending
pub mod Runner
pub mod Release
pub mod Foreground
