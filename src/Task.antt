-- ===== src/Task.antt =====
-- dbrpc/task_group.cpp: bthreads as entries of a pool of `TaskMeta`, from their start to their end.
pub mod Meta
pub mod Life
pub mod Interrupt
pub mod Version
pub mod Identity
pub mod Sleep
pub mod Edits
pub mod History
pub mod Join
pub mod Tid
pub mod Attr
pub mod Print
